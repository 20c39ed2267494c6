-- ===== src/Net/Serving/Teardown.antt =====
-- `~TcpServer` (src/net/tcp_server.cpp), on the loop's thread, where `runInLoop` calls at once.
use lfgateway.Base.{
  ℕ, ◌≡◌, refl, ap, ◌∙◌, sym, inl, inr, true, none, some, List, [], ◌∷◌, ◌++◌, arith, Option-cases,
}
use lfgateway.Base.Text.{Bytes}
use lfgateway.Base.Maps.{lookup}
use lfgateway.Base.Reach.{Steps-keep}
use lfgateway.Net.Channel.{Revents, handle_event}
use lfgateway.Net.Connection.{Effect, destroys, run_input}
use lfgateway.Net.Connection.Closed.{closes, closes-append, connect_destroyed-keeps}
use lfgateway.Net.Connection.Marked.{
  IsMarked, establish-IsMarked, destroyed-removed, input-KeepsMark, removed_is_silent,
}
use lfgateway.Net.Serving.{Serving, Life, serving, serve_input}
use lfgateway.Net.Serving.Keeps.{All, accept-All, input-All, serve-effects, unknown-effects}
use lfgateway.Net.Serving.Open.{Step, accepts, handles, Reach, Reach-IsOpenMap, open_socket}

-- The loop over `connections_`: `connectDestroyed` for each.
unfoldable pub destroy_each :
    (Bytes → List Bytes) → List (Bytes × ℕ) → Serving → Serving × List Effect
destroy_each reply [] s = (s, [])
destroy_each reply ((name, fd) ∷ m) s =
    let (t, es) = serve_input reply name destroys s in
    let (u, fs) = destroy_each reply m t in (u, es ++ fs)

unfoldable pub destroy_server : (Bytes → List Bytes) → Serving → Serving × List Effect
unfolding destroy_each
destroy_server reply s = destroy_each reply s.server.connections s

-- What has no entry in the rest of the map is removed.
abbrev IsLeft : List (Bytes × ℕ) → Bytes → Life → Type 0
IsLeft m name l =
    IsMarked l.connection × (lookup name m ≡ none → l.connection.channel.removed ≡ true)

destroys-IsLeft :
    (reply : Bytes → List Bytes) (name : Bytes) (fd : ℕ) (m : List (Bytes × ℕ)) (s : Serving)
    → All (IsLeft ((name, fd) ∷ m)) s
    → All (IsLeft m) (serve_input reply name destroys s).0
unfolding lookup run_input
destroys-IsLeft reply name fd m s =
    input-All (IsLeft ((name, fd) ∷ m)) (IsLeft m) reply name destroys s
      (λ l h. let gone = destroyed-removed l.connection h.0 in (inl gone, λ k. gone))
      (λ other l e h. (h.0, λ k. h.1 (rw e k)))

destroy_each-removes :
    (reply : Bytes → List Bytes) (m : List (Bytes × ℕ)) (s : Serving)
    → All (IsLeft m) s
    → All (λ name l. l.connection.channel.removed ≡ true) (destroy_each reply m s).0
unfolding destroy_each lookup
destroy_each-removes reply [] s all name l here = (all name l here).1 refl
destroy_each-removes reply ((conn, fd) ∷ m) s all name l here =
    destroy_each-removes reply m (serve_input reply conn destroys s).0
      (destroys-IsLeft reply conn fd m s all) name l here

destroys_nothing_closed :
    (reply : Bytes → List Bytes) (name : Bytes) (s : Serving)
    → closes (serve_input reply name destroys s).1 ≡ []
unfolding closes run_input
destroys_nothing_closed reply name s = elim (Option-cases (lookup name s.objects)) [
  | inl e ↦ ap closes (unknown-effects reply name destroys s e)
  | inr (l, e) ↦
      ap closes (serve-effects reply name destroys s l e) ∙ (connect_destroyed-keeps l.connection).1
]

destroy_each-closes :
    (reply : Bytes → List Bytes) (m : List (Bytes × ℕ)) (s : Serving)
    → closes (destroy_each reply m s).1 ≡ []
unfolding destroy_each
destroy_each-closes reply [] s = unfold closes in refl
destroy_each-closes reply ((name, fd) ∷ m) s =
    let (t, es) = serve_input reply name destroys s in
    let (u, fs) = destroy_each reply m t in
    closes-append es fs
    ∙ rw (destroys_nothing_closed reply name s, destroy_each-closes reply m t) refl

abbrev AllMarked : Serving → Type 0
AllMarked = All (λ name l. IsMarked l.connection)

Step-AllMarked :
    (reply : Bytes → List Bytes) {s t : Serving} → Step reply s t → AllMarked s → AllMarked t
Step-AllMarked reply {s} (accepts a free new) =
    accept-All (λ name l. IsMarked l.connection) a s (λ fd e. establish-IsMarked fd)
Step-AllMarked reply {s} (handles name i) =
    input-All (λ name l. IsMarked l.connection) (λ name l. IsMarked l.connection) reply name i s
      (λ l h. input-KeepsMark reply i l.connection h) (λ other l e h. h)

closed-removed :
    (l : Life)
    → IsMarked l.connection
    → l.connection.sockfd ≡ none
    → l.connection.channel.removed ≡ true
closed-removed l h e = ground arith

-- After `~TcpServer` no event of any connection that the server ever made calls anything, also of those
-- that a worker or the kernel still knows; and the destructor closes no socket, which is left to the
-- connections themselves. New connections are taken to get descriptors that no connection in the map has, and names that are
-- new.
pub destroy_server-silences :
    (reply : Bytes → List Bytes) (name : Bytes) (s : Serving)
    → Reach reply (serving name) s
    → ((conn : Bytes) (l : Life) (v : Revents)
        → lookup conn (destroy_server reply s).0.objects ≡ some l
        → handle_event l.connection.channel v ≡ [])
      × (closes (destroy_server reply s).1 ≡ [])
unfolding destroy_server lookup
destroy_server-silences reply name s r =
    let map = Reach-IsOpenMap reply name s r in
    let marked = Steps-keep AllMarked (λ u v t h. Step-AllMarked reply t h) r (λ k l gone. cc) in
    let left : All (IsLeft s.server.connections) s = λ conn l here.
      let m = marked conn l here in
      (m, λ k. closed-removed l m (ap open_socket (sym here) ∙ sym (map.exact conn) ∙ k)) in
    (
      λ conn l v here.
          removed_is_silent l.connection v
            (destroy_each-removes reply s.server.connections s left conn l here),
      destroy_each-closes reply s.server.connections s,
    )
