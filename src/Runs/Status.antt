-- ===== src/Runs/Status.antt =====
-- apps/api/src/runs/domain/status-transitions.ts.
pub mod Laws
use content_chain.Prelude.{Bool, true, false, ◌||◌, ◌≡◌, refl, List, [], ◌∷◌, arith, if◌then◌else◌}
use content_chain.Shared.Enums.{
  RunStatus, queued, running, interrupted, awaiting_hitl, completed, failed, cancelled, has_status,
}
use content_chain.Shared.Exception.{Outcome, returned, thrown, throw, conflict}

abbrev pub allowed_run_states : RunStatus → List RunStatus
allowed_run_states queued = running ∷ cancelled ∷ []
allowed_run_states running = awaiting_hitl ∷ completed ∷ failed ∷ interrupted ∷ cancelled ∷ []
allowed_run_states interrupted = running ∷ failed ∷ cancelled ∷ []
allowed_run_states awaiting_hitl = running ∷ cancelled ∷ []
allowed_run_states completed = []
allowed_run_states failed = []
allowed_run_states cancelled = []

unfoldable pub can_transition : RunStatus → RunStatus → Bool
can_transition from to = has_status (allowed_run_states from) to

unfoldable pub assert_transition : RunStatus → RunStatus → Outcome (Unit {0})
assert_transition from to =
    if has_status (allowed_run_states from) to then returned tt else throw conflict 409

abbrev pub cancelable_run_statuses : List RunStatus
cancelable_run_statuses = queued ∷ running ∷ awaiting_hitl ∷ interrupted ∷ []
