-- ===== src/Async/Order.antt =====
-- What reaches the file.
use lfgateway.Base.Reach.{Steps, Steps-keep}
use lfgateway.Base.{
  ◌≡◌, refl, ap, ◌∙◌, ◌⊎◌, inl, inr, false, List, [], ◌∷◌, ◌++◌, append_assoc, append-nil, arith,
  if◌then◌else◌,
}
use lfgateway.Base.Text.{Bytes}
use lfgateway.Async.{
  Phase, waiting, swapped, testing, ended, AsyncLogger, init, log, begin_stop, backend_step,
}

-- The logger, and everything that was logged.
pub record World : Type 0 where
  pub logger : AsyncLogger
  pub logged : List Bytes

pub data Step : World → World → Type 0 where
  logs :
      {w : World} (m : Bytes)
      → Step w (record { logger = log m w.logger; logged = w.logged ++ m ∷ [] })
  stops : {w : World} → Step w (record w { logger = begin_stop w.logger })
  backs : {w : World} → Step w (record w { logger = backend_step w.logger })

abbrev pub Reach : World → World → Type 0
Reach = Steps Step

-- The file and the buffers have the messages in order; the back buffer is empty but between the
-- swap and the writing.
pub record InOrder (w : World) : Type 0 where
  pub same : w.logger.file ++ (w.logger.back_buffer ++ w.logger.front_buffer) ≡ w.logged
  pub cleared : (w.logger.phase ≡ swapped) ⊎ (w.logger.back_buffer ≡ [])

abbrev swap : AsyncLogger → AsyncLogger
swap l = record l { front_buffer = l.back_buffer; back_buffer = l.front_buffer; phase = swapped }

abbrev flush : AsyncLogger → AsyncLogger
flush l = record l { file = l.file ++ l.back_buffer; back_buffer = []; phase = testing }

abbrev test : AsyncLogger → AsyncLogger
test l = record l { phase = if l.running then waiting else ended }

abbrev ByPhase : AsyncLogger → Type 0
ByPhase l =
    ((l.phase ≡ waiting) × (backend_step l ≡ swap l))
    ⊎ (((l.phase ≡ swapped) × (backend_step l ≡ flush l))
        ⊎ (((l.phase ≡ testing) × (backend_step l ≡ test l))
            ⊎ ((l.phase ≡ ended) × (backend_step l ≡ l))))

step-ByPhase : (l : AsyncLogger) (p : Phase) → l.phase ≡ p → ByPhase l
unfolding backend_step
step-ByPhase l waiting e = inl (e, ground (arith, e))
step-ByPhase l swapped e = inr (inl (e, ground (arith, e)))
step-ByPhase l testing e = inr (inr (inl (e, ground (arith, e))))
step-ByPhase l ended e = inr (inr (inr (e, ground (arith, e))))

backend-InOrder : (w : World) → InOrder w → InOrder (record w { logger = backend_step w.logger })
backend-InOrder w i = elim (step-ByPhase w.logger w.logger.phase refl) [
  | inl (e, step) ↦
      let empty : w.logger.back_buffer ≡ [] = let c = i.cleared in ground arith in
      rw step (record {
        same = rw (empty, append-nil w.logger.front_buffer) (rw empty at i.same);
        cleared = inl refl;
      })
  | inr (inl (e, step)) ↦ rw step (record {
    same = append_assoc w.logger.file w.logger.back_buffer w.logger.front_buffer ∙ i.same;
    cleared = inr refl;
  })
  | inr (inr (inl (e, step))) ↦
      let empty : w.logger.back_buffer ≡ [] = let c = i.cleared in ground arith in
      rw step (record { same = i.same; cleared = inr empty })
  | inr (inr (inr (e, step))) ↦ rw step i
]

Step-InOrder : {u v : World} → Step u v → InOrder u → InOrder v
Step-InOrder (logs {w} m) i = record {
  same =
      let l = w.logger in
      rw
        (
          ← append_assoc l.back_buffer l.front_buffer (m ∷ []),
          ← append_assoc l.file (l.back_buffer ++ l.front_buffer) (m ∷ []),
        )
        (ap (λ (t : List Bytes). t ++ m ∷ []) i.same);
  cleared = i.cleared;
}
Step-InOrder (stops {w}) i = record { same = i.same; cleared = i.cleared }
Step-InOrder (backs {w}) i = backend-InOrder w i

Reach-InOrder : {u v : World} → Reach u v → InOrder u → InOrder v
Reach-InOrder r i = Steps-keep InOrder (λ u v s p. Step-InOrder s p) r i

-- The file never has a message that was not logged, one twice, or two in another order; and when the
-- backend has ended, what is missing is the front buffer, all of it and nothing else.
pub ended-lost :
    {w : World}
    → Reach (record { logger = init; logged = [] }) w
    → (w.logger.file ++ (w.logger.back_buffer ++ w.logger.front_buffer) ≡ w.logged)
      × (w.logger.phase ≡ ended → w.logger.file ++ w.logger.front_buffer ≡ w.logged)
ended-lost {w} r =
    let i = Reach-InOrder r (record { same = refl; cleared = inr refl }) in
    (
      i.same,
      λ e.
          let empty : w.logger.back_buffer ≡ [] = let c = i.cleared in ground arith in
          rw empty at i.same,
    )

-- The backend after the destructor began while it was writing: still writing, or testing or over
-- with its buffer written.
abbrev Leaving : AsyncLogger → AsyncLogger → Type 0
Leaving l k =
    (k.running ≡ false)
    × (((k.phase ≡ swapped) × ((k.file ≡ l.file) × (k.back_buffer ≡ l.back_buffer)))
        ⊎ (((k.phase ≡ testing) ⊎ (k.phase ≡ ended)) × (k.file ≡ l.file ++ l.back_buffer)))

Step-Leaving : (l : AsyncLogger) {u v : World} → Step u v → Leaving l u.logger → Leaving l v.logger
Step-Leaving l (logs m) h = h
Step-Leaving l stops (r, h) = (refl, h)
Step-Leaving l (backs {w}) (r, h) = elim (step-ByPhase w.logger w.logger.phase refl) [
  | inl (e, step) ↦ absurd (ground arith)
  | inr (inl (e, step)) ↦ rw step (r, inr (inl refl, ground arith))
  | inr (inr (inl (e, step))) ↦ rw step (r, inr (inr (ground (arith, r)), ground arith))
  | inr (inr (inr (e, step))) ↦ rw step (r, h)
]

Reach-Leaving :
    (l : AsyncLogger) {u v : World} → Reach u v → Leaving l u.logger → Leaving l v.logger
Reach-Leaving l r h = Steps-keep (λ w. Leaving l w.logger) (λ u v s p. Step-Leaving l s p) r h

-- Messages are lost at shutdown: if the destructor begins while the backend writes, the file gets
-- what the backend is writing and nothing more, however long it goes on; what stands in the
-- front buffer by then, and what is logged later, never reaches it.
pub stopped-lost :
    {u v : World}
    → u.logger.phase ≡ swapped
    → u.logger.running ≡ false
    → Reach u v
    → (v.logger.file ≡ u.logger.file) ⊎ (v.logger.file ≡ u.logger.file ++ u.logger.back_buffer)
stopped-lost {u} {v} e r steps =
    let (stays, place) = Reach-Leaving u.logger steps (r, inl (e, (refl, refl))) in ground arith
