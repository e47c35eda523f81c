-- ===== src/Runs/Abort.antt =====
-- apps/api/src/runs/application/lifecycle/run-abort.registry.ts. Controllers are shared objects: the
-- map holds references, and so does the signal that the executor was given.
pub mod Laws
use content_chain.Prelude.{
  ℕ, ◌+◌, ◌≡◌, Bool, true, false, List, [], ◌∷◌, Option, none, some, if◌then◌else◌, ◌==◌, filter,
  not,
}

pub record RunAbortRegistry : Type 0 where
  pub controllers : List (ℕ × ℕ)
  -- The heap of controllers: which are aborted, and the next reference.
  pub aborted : ℕ → Bool
  pub next : ℕ

unfoldable pub controller_of : ℕ → List (ℕ × ℕ) → Option ℕ
controller_of id [] = none
controller_of id ((k, c) ∷ m) = if k == id then some c else controller_of id m

begin_with : ℕ → Option ℕ → RunAbortRegistry → ℕ × RunAbortRegistry
begin_with id (some existing) g = (existing, g)
begin_with id none g = (
  g.next,
  record {
    controllers = (id, g.next) ∷ g.controllers;
    aborted = λ c. if c == g.next then false else g.aborted c;
    next = g.next + 1;
  },
)

unfoldable pub begin : ℕ → RunAbortRegistry → ℕ × RunAbortRegistry
unfolding begin_with
begin id g = begin_with id (controller_of id g.controllers) g

abort : Option ℕ → RunAbortRegistry → RunAbortRegistry
abort none g = g
abort (some c) g = record g { aborted = λ d. if d == c then true else g.aborted d }

unfoldable pub request_cancel : ℕ → RunAbortRegistry → RunAbortRegistry
unfolding abort
request_cancel id g = abort (controller_of id g.controllers) g

without : ℕ → List (ℕ × ℕ) → List (ℕ × ℕ)
without id [] = []
without id ((k, c) ∷ m) = if k == id then without id m else (k, c) ∷ without id m

unfoldable pub end : ℕ → RunAbortRegistry → RunAbortRegistry
unfolding without
end id g = record g { controllers = without id g.controllers }
