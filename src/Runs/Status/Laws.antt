-- ===== src/Runs/Status/Laws.antt =====
-- How the tables of statuses fit together.
use content_chain.Prelude.{◌≡◌, refl, true, false, not}
use content_chain.Shared.Enums.{
  RunStatus, queued, running, interrupted, awaiting_hitl, completed, failed, cancelled, has_status,
}
use content_chain.Runs.Status.{can_transition, cancelable_run_statuses}
use content_chain.Guest.Policy.{guest_archive_statuses}

-- The statuses that a cancellation takes are those from which the state machine allows the step to
-- cancelled, and they are the ones that are not in the guests' archive, where no step leads on.
pub cancelable-can_transition :
    (s : RunStatus)
    → (has_status cancelable_run_statuses s ≡ can_transition s cancelled)
      × (has_status cancelable_run_statuses s ≡ not (has_status guest_archive_statuses s))
      × ((to : RunStatus)
          → has_status guest_archive_statuses s ≡ true
          → can_transition s to ≡ false)
unfolding can_transition
cancelable-can_transition queued = (refl, refl, λ to h. cc)
cancelable-can_transition running = (refl, refl, λ to h. cc)
cancelable-can_transition interrupted = (refl, refl, λ to h. cc)
cancelable-can_transition awaiting_hitl = (refl, refl, λ to h. cc)
cancelable-can_transition completed = (refl, refl, λ to h. refl)
cancelable-can_transition failed = (refl, refl, λ to h. refl)
cancelable-can_transition cancelled = (refl, refl, λ to h. refl)
