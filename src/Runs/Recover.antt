-- ===== src/Runs/Recover.antt =====
-- apps/api/src/runs/application/recover-interrupted-runs.use-case.ts and domain/is-retryable.ts: what
-- the worker does with the runs that a stopped process left behind. `now` is the clock.
pub mod Laws
use Prim.Native.String.{String}
use content_chain.Prelude.{
  ℕ, ◌+◌, ◌≡◌, Bool, true, false, not, ◌||◌, List, [], ◌∷◌, Option, none, some, if◌then◌else◌, leb,
}
use content_chain.Shared.Enums.{failed, interrupted}
use content_chain.Shared.Exception.{Outcome, returned}
use content_chain.Runs.Record.{RunRow, RunSnapshot}
use content_chain.Runs.Prisma.{PrismaClient}
use content_chain.Runs.Repository.{
  attempt_cancel, save_recovery_attempt, find_interrupted_running, find_cancel_requested_leftovers,
}
use content_chain.Runs.World.{
  World, error, M, ◌>>=◌, ◌>>◌, return, lift, reading, on_table, try_update, for_each,
}
use content_chain.Runs.Lifecycle.{
  TransitionExtras, no_extras, transition, append_log, publish_cancelled,
}

pub data RetryReason : Type 0 where
  process_crash : RetryReason
  gateway : Option String → Bool → RetryReason
  validation refine_exhausted config : RetryReason

abbrev pub is_retryable : RetryReason → Bool
is_retryable process_crash = true
is_retryable (gateway code retryable) = retryable
is_retryable _ = false

abbrev pub recovery_cap : ℕ
recovery_cap = 3

abbrev pub exhausted_message : String
exhausted_message = "recovery exhausted after process interrupt"

module _ (db : PrismaClient) (now : ℕ) where
  -- The body of the first loop.
  unfoldable pub cancel_leftover : RunSnapshot → M (Unit {0})
  cancel_leftover s = do
    won ← try_update (attempt_cancel db s.id now)
    if won then publish_cancelled s.id else return tt

  give_up : RunSnapshot → M (Unit {0})
  give_up s = do
    append_log (record {
      run_id = s.id;
      conversation_id = some s.conversation_id;
      at = now;
      level = error;
      message = exhausted_message;
      step = some "recovery";
    })
    _ ←
        transition db now s.run failed
          (record no_extras { failed_message = some exhausted_message })
    return tt

  interrupt : RunSnapshot → M (Unit {0})
  interrupt s = do
    on_table (save_recovery_attempt db s.id (s.recovery_attempts + 1))
    _ ← transition db now s.run interrupted no_extras
    return tt

  -- The body of the second loop.
  unfoldable pub recover_one : RunSnapshot → M (Unit {0})
  unfolding give_up interrupt
  recover_one s =
      if leb recovery_cap s.recovery_attempts || not (is_retryable process_crash)
      then give_up s
      else interrupt s

  unfoldable pub recover_interrupted_runs : M (Unit {0})
  recover_interrupted_runs = do
    leftovers ← reading (find_cancel_requested_leftovers db)
    for_each cancel_leftover leftovers
    running ← reading (find_interrupted_running db)
    for_each recover_one running
