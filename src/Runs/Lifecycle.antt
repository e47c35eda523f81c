-- ===== src/Runs/Lifecycle.antt =====
-- apps/api/src/runs/application/lifecycle/run-lifecycle.service.ts. `now` is the clock at the call.
pub mod Laws
use Prim.Native.String.{String}
use content_chain.Prelude.{
  ℕ, ◌≡◌, Bool, true, false, ◌||◌, List, [], Option, none, some, if◌then◌else◌, get_or,
}
use content_chain.Shared.Enums.{RunStatus, awaiting_hitl, completed, failed, cancelled, same_status}
use content_chain.Shared.Exception.{Outcome, returned}
use content_chain.Runs.Status.{assert_transition}
use content_chain.Runs.Record.{RunRow}
use content_chain.Runs.Prisma.{PrismaClient}
use content_chain.Runs.Repository.{save_status, set_pipeline_finished_at}
use content_chain.Runs.World.{
  RunLogEntry, run_status, run_log, run_hitl, run_completed, run_failed, run_cancelled, M, ◌>>=◌,
  ◌>>◌, return, lift, on_table, modify_table, publish, complete, write_log,
}

pub record TransitionExtras : Type 0 where
  pub result_summary : Option String
  pub failed_code : Option String
  pub failed_message : Option String
  pub hitl_options : Option (List ℕ)

abbrev pub no_extras : TransitionExtras
no_extras = record {
  result_summary = none;
  failed_code = none;
  failed_message = none;
  hitl_options = none;
}

-- The statuses at which the pipeline is over.
abbrev pub is_pipeline_end : RunStatus → Bool
is_pipeline_end s = same_status s completed || same_status s failed

module _ (db : PrismaClient) where
  -- What `transition` publishes beside the status.
  publish_details : ℕ → RunStatus → TransitionExtras → M (Unit {0})
  publish_details id awaiting_hitl x = publish (run_hitl id (get_or x.hitl_options []))
  publish_details id completed x = do publish (run_completed id x.result_summary); complete id
  publish_details id failed x = do
    publish (run_failed id x.failed_code (get_or x.failed_message "run failed"))
    complete id
  publish_details id _ x = return tt

  unfoldable pub transition : ℕ → RunRow → RunStatus → TransitionExtras → M RunRow
  unfolding publish_details
  transition now run to x = do
    lift (assert_transition run.status to)
    on_table (save_status db run.id to)
    modify_table (λ t. if is_pipeline_end to then set_pipeline_finished_at db run.id now t else t)
    publish (run_status run.id to)
    publish_details run.id to x
    return (record run { status = to })

unfoldable pub append_log : RunLogEntry → M (Unit {0})
append_log e = do write_log e; publish (run_log e)

unfoldable pub publish_cancelled : ℕ → M (Unit {0})
publish_cancelled id = do publish (run_status id cancelled); publish (run_cancelled id); complete id
