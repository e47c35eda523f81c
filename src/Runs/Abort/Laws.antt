-- ===== src/Runs/Abort/Laws.antt =====
-- Whom a cancellation reaches.
use content_chain.Prelude.{
  ℕ, ◌<◌, ◌≡◌, refl, ◌≢◌, inl, inr, true, false, List, [], ◌∷◌, none, some, arith, if◌then◌else◌,
  ◌==◌, ==_refl, ==_iff, Option-cases, All,
}
use content_chain.Runs.Abort.{
  RunAbortRegistry, controller_of, begin_with, begin, abort, request_cancel, without, end,
}

-- References in the map are below the next one.
abbrev pub Fresh : RunAbortRegistry → Type 0
Fresh g = All (λ (e : ℕ × ℕ). e.1 < g.next) g.controllers

controller_of-lt :
    (id c n : ℕ) (m : List (ℕ × ℕ))
    → All (λ (e : ℕ × ℕ). e.1 < n) m
    → controller_of id m ≡ some c
    → c < n
unfolding controller_of
controller_of-lt id c n [] h e = cc
controller_of-lt id c n ((k, d) ∷ m) (p, h) e = ground (arith, controller_of-lt id c n m h)

controller_of-without :
    (id j : ℕ) (m : List (ℕ × ℕ))
    → controller_of j (without id m) ≡ (if j == id then none else controller_of j m)
unfolding controller_of without
controller_of-without id j [] = ground arith
controller_of-without id j ((k, c) ∷ m) = ground (arith, controller_of-without id j m)

-- After `begin`, the run's controller is the one whose signal was handed out.
begin-controller :
    (id : ℕ) (g : RunAbortRegistry)
    → let (signal, g') = begin id g in controller_of id g'.controllers ≡ some signal
unfolding begin begin_with controller_of
begin-controller id g = elim (Option-cases (controller_of id g.controllers)) [
  | inl e ↦ ground (arith, ==_refl id)
  | inr (c, e) ↦ ground arith
]

-- The signal that `begin` hands out for a run that has none yet is not aborted, and a cancellation
-- of that run aborts this signal and no other.
pub request_cancel-begin :
    (id : ℕ) (g : RunAbortRegistry)
    → controller_of id g.controllers ≡ none
    → let (signal, g') = begin id g in
      (g'.aborted signal ≡ false)
      × ((c : ℕ) → (request_cancel id g').aborted c ≡ (if c == signal then true else g'.aborted c))
unfolding begin begin_with request_cancel abort controller_of
request_cancel-begin id g e = ground (arith, ==_refl id, ==_refl g.next)

-- After `end` a cancellation of the run aborts nothing, and the controllers of other runs are the
-- same as before.
pub request_cancel-end :
    (id j : ℕ) (g : RunAbortRegistry)
    → (request_cancel id (end id g) ≡ end id g)
      × (controller_of j (end id g).controllers
          ≡ (if j == id then none else controller_of j g.controllers))
unfolding request_cancel abort end
request_cancel-end id j g = (
  rw (controller_of-without id id g.controllers, ==_refl id) refl,
  controller_of-without id j g.controllers,
)

-- While references are fresh, a run that begins and another one that has no controller yet get
-- distinct signals.
pub begin-distinct :
    (id j : ℕ) (g : RunAbortRegistry)
    → Fresh g
    → id ≢ j
    → controller_of j g.controllers ≡ none
    → let (a, g') = begin id g in (begin j g').0 ≢ a
unfolding begin begin_with controller_of
begin-distinct id j g f ne e = elim (Option-cases (controller_of id g.controllers)) [
  | inl new ↦ ground (arith, ==_iff id j)
  | inr (c, known) ↦ ground (arith, controller_of-lt id c g.next g.controllers f)
]
