-- ===== src/Runs/Executor.antt =====
-- What the executors of apps/api/src/content/application/content-run.executor.ts and of
-- apps/api/src/social/application/social-run.executor.ts have in common, and
-- apps/api/src/runs/application/lifecycle/run-dispatch.executor.ts.
pub mod Laws
use Prim.Native.String.{String}
use content_chain.Prelude.{
  List, map, ◌++◌, Bool, true, false, ◌||◌, ℕ, Option, none, some, if◌then◌else◌, get_or,
}
use content_chain.Shared.Enums.{RunStatus, failed, is_social_task_type}
use content_chain.Shared.Exception.{
  ErrorCode, conflict, run_not_found, run_not_reviewable, forbidden, review_locked,
  run_not_cancelable, hitl_required, hitl_invalid_selection, guest_type_not_allowed,
  guest_type_quota_exceeded, guest_global_quota_exceeded, too_many_requests, context_incomplete,
  validation_failed, structured_output_invalid, gateway_error, abort_error, plain_error,
  DomainException, is_abort_error, Outcome, returned, thrown,
}
use content_chain.Runs.Record.{RunRow}
use content_chain.Runs.Prisma.{PrismaClient}
use content_chain.Runs.World.{World, RunLogEntry, publishes, run_log, M, ◌>>=◌, ◌>>◌, return}
use content_chain.Runs.Lifecycle.{TransitionExtras, no_extras, transition}

-- The `failedCode` of an error: the code of a DomainException or of the gateway.
unfoldable pub failed_code_of : ErrorCode → String
failed_code_of conflict = "CONFLICT"
failed_code_of run_not_found = "RUN_NOT_FOUND"
failed_code_of run_not_reviewable = "RUN_NOT_REVIEWABLE"
failed_code_of forbidden = "FORBIDDEN"
failed_code_of review_locked = "REVIEW_LOCKED"
failed_code_of run_not_cancelable = "RUN_NOT_CANCELABLE"
failed_code_of hitl_required = "HITL_REQUIRED"
failed_code_of hitl_invalid_selection = "HITL_INVALID_SELECTION"
failed_code_of guest_type_not_allowed = "GUEST_TYPE_NOT_ALLOWED"
failed_code_of guest_type_quota_exceeded = "GUEST_TYPE_QUOTA_EXCEEDED"
failed_code_of guest_global_quota_exceeded = "GUEST_GLOBAL_QUOTA_EXCEEDED"
failed_code_of too_many_requests = "TOO_MANY_REQUESTS"
failed_code_of context_incomplete = "CONTEXT_INCOMPLETE"
failed_code_of validation_failed = "VALIDATION_FAILED"
failed_code_of (structured_output_invalid _ _) = "STRUCTURED_OUTPUT_INVALID"
failed_code_of (gateway_error code retryable) = get_or code "GATEWAY_ERROR"
failed_code_of abort_error = "EXECUTOR_FAILED"
failed_code_of plain_error = "EXECUTOR_FAILED"

-- What the results of a pipeline and the services behind it hold, beside the runs.
abbrev pub Job : Type 0 → Type 0 → Type 0
Job S W = (S × W) × World

abbrev pub failing : String → String → TransitionExtras
failing code message = record no_extras { failed_code = some code; failed_message = some message }

abbrev pub unit_of : Outcome RunRow → Outcome (Unit {0})
unit_of (returned _) = returned tt
unit_of (thrown e) = thrown e

-- `await this.lifecycle.transition(run, to, extras)`
unfoldable pub move :
    PrismaClient → ℕ → RunRow → RunStatus → TransitionExtras → World → Outcome (Unit {0}) × World
move db now run to x world =
    let (o, world') = transition db now run to x world in (unit_of o, world')

unfoldable pub moved_job :
    {S W : Type 0} → Outcome (Unit {0}) × World → S × W → Outcome (Unit {0}) × Job S W
moved_job (o, world) held = (o, (held, world))

-- The run's row, log and stream, brought up to what its pipeline has written by now: the columns of the
-- row that `savePipelineState` updates, and the entries given to `lifecycle.appendLog`, the newest
-- first. Nothing reads these between the writes and this step.
unfoldable pub synced : PrismaClient → ℕ → (RunRow → RunRow) → List RunLogEntry → World → World
synced db id columns entries world = record world {
  table = get_or (db.update id columns world.table) world.table;
  logs = entries ++ world.logs;
  hub_calls = map (λ e. publishes (run_log e)) entries ++ world.hub_calls;
}

-- `signal` reads the state of the services for whether the run's signal is aborted by then;
-- `message` is the message of an error.
module _ {S W : Type 0} (db : PrismaClient) (signal : W → Bool) (message : DomainException → String)
    (now : ℕ) (run : RunRow) where
  -- The `catch` of `execute`.
  unfoldable pub caught : DomainException → S × W → World → Outcome (Unit {0}) × Job S W
  unfolding move moved_job failed_code_of
  caught e (store, w) world =
      if signal w || is_abort_error e
      then (returned tt, ((store, w), world))
      else moved_job (move db now run failed (failing (failed_code_of e.code) (message e)) world)
          (store, w)

  -- A call inside the `try`.
  unfoldable pub guarded : Outcome (Unit {0}) × World → S × W → Outcome (Unit {0}) × Job S W
  unfolding caught
  guarded (returned _, world) held = (returned tt, (held, world))
  guarded (thrown e, world) held = caught e held world

-- A value of `taskType` belongs to one of the two kinds, so the run that is neither does not arise.
unfoldable pub dispatch {ℓ} : {A : Type ℓ} → (RunRow → A) → (RunRow → A) → RunRow → A
dispatch social content run = if is_social_task_type run.task_type then social run else content run
