-- ===== src/Net/Channel/Contract.antt =====
-- The `epoll_ctl` calls of a channel against what the kernel accepts.
use lfgateway.Base.{
  ◌≡◌, refl, ◌∙◌, Bool, true, false, Option, none, some, List, [], ◌∷◌, ◌++◌, arith,
}
use lfgateway.Net.Channel.{
  Channel, EpollCtl, ctl_add, ctl_mod, ctl_del, update_channel, remove_channel, update,
  enable_reading, enable_writing, disable_writing, disable_all, mark_as_removed, remove,
}

-- Whether the file is in the interest list after the calls, by the documented behaviour of
-- `epoll_ctl`: `none` where a call fails with `EEXIST` or `ENOENT`.
unfoldable pub interest : Bool → List EpollCtl → Option Bool
interest b [] = some b
interest false (ctl_add fd e ∷ cs) = interest true cs
interest true (ctl_mod fd e ∷ cs) = interest true cs
interest true (ctl_del fd ∷ cs) = interest false cs
interest _ (c ∷ cs) = none

-- What the owner of a channel can call; the destructor is `disableAll`.
pub data Op : Type 0 where
  enables_reading enables_writing disables_writing disables_all removes marks : Op

unfoldable pub apply : Op → Channel → Channel × List EpollCtl
apply enables_reading c = enable_reading c
apply enables_writing c = enable_writing c
apply disables_writing c = disable_writing c
apply disables_all c = disable_all c
apply removes c = remove c
apply marks c = (mark_as_removed c, [])

unfoldable pub apply_all : List Op → Channel → Channel × List EpollCtl
unfolding apply
apply_all [] c = (c, [])
apply_all (o ∷ os) c =
    let (d, first) = apply o c in let (e, rest) = apply_all os d in (e, first ++ rest)

interest-append :
    (b d : Bool) (cs ds : List EpollCtl)
    → interest b cs ≡ some d
    → interest b (cs ++ ds) ≡ interest d ds
unfolding interest
interest-append b d [] ds h = ground arith
interest-append false d (ctl_add fd e ∷ cs) ds h = interest-append true d cs ds h
interest-append true d (ctl_mod fd e ∷ cs) ds h = interest-append true d cs ds h
interest-append true d (ctl_del fd ∷ cs) ds h = interest-append false d cs ds h
interest-append true d (ctl_add fd e ∷ cs) ds h = cc
interest-append false d (ctl_mod fd e ∷ cs) ds h = cc
interest-append false d (ctl_del fd ∷ cs) ds h = cc

interest-apply :
    (o : Op) (c : Channel) → let r = apply o c in interest c.indexed r.1 ≡ some r.0.indexed
unfolding interest apply enable_reading enable_writing disable_writing disable_all remove update
    update_channel remove_channel
interest-apply enables_reading c = ground arith
interest-apply enables_writing c = ground arith
interest-apply disables_writing c = ground arith
interest-apply disables_all c = ground arith
interest-apply removes c = ground arith
interest-apply marks c = refl

-- Whatever the owner of a channel calls, and in whatever order, no `epoll_ctl` call fails for a file
-- that is or is not in the list, and `index_` says afterwards whether it is.
pub interest-apply_all :
    (os : List Op) (c : Channel)
    → let r = apply_all os c in interest c.indexed r.1 ≡ some r.0.indexed
unfolding apply_all
interest-apply_all [] c = unfold interest in refl
interest-apply_all (o ∷ os) c =
    let (d, first) = apply o c in
    let (e, rest) = apply_all os d in
    interest-append c.indexed d.indexed first rest (interest-apply o c) ∙ interest-apply_all os d

removed-apply :
    (o : Op) (c : Channel)
    → c.removed ≡ true
    → c.indexed ≡ false
    → let r = apply o c in (r.1 ≡ []) × (r.0.removed ≡ true) × (r.0.indexed ≡ false)
unfolding apply enable_reading enable_writing disable_writing disable_all remove remove_channel
removed-apply enables_reading c h k = ground arith
removed-apply enables_writing c h k = ground arith
removed-apply disables_writing c h k = ground arith
removed-apply disables_all c h k = ground arith
removed-apply removes c h k = ground arith
removed-apply marks c h k = ground arith

silent-apply_all :
    (os : List Op) (c : Channel) → c.removed ≡ true → c.indexed ≡ false → (apply_all os c).1 ≡ []
unfolding apply_all
silent-apply_all [] c h k = refl
silent-apply_all (o ∷ os) c h k =
    let (none_here, r, i) = removed-apply o c h k in
    rw none_here (silent-apply_all os (apply o c).0 r i)

-- After `remove` no call reaches the kernel for the file any more, whatever the owner calls: its
-- number may be used for another file.
pub remove-silent : (os : List Op) (c : Channel) → (apply_all os (remove c).0).1 ≡ []
unfolding remove remove_channel
remove-silent os c = silent-apply_all os (remove c).0 (ground arith) (ground arith)
