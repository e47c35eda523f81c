-- ===== src/Runs/Worker/Execution.antt =====
-- apps/api/src/runs/application/lifecycle/in-process-run.worker.ts: the execution of one run, with
-- what is done when the executor throws. What goes to the process's own logger is left out.
pub mod Laws
use content_chain.Prelude.{ℕ, List, Option, none, some, if◌then◌else◌}
use content_chain.Shared.Enums.{running, failed, same_status}
use content_chain.Shared.Exception.{Outcome, returned, thrown}
use content_chain.Runs.Record.{RunRow, RunSnapshot}
use content_chain.Runs.Prisma.{PrismaClient}
use content_chain.Runs.Repository.{get_by_id}
use content_chain.Runs.Abort.{begin, end}
use content_chain.Runs.World.{World, error, run_status, M, ◌>>=◌, ◌>>◌, return, reading, publish}
use content_chain.Runs.Lifecycle.{no_extras, append_log}
use content_chain.Runs.Executor.{move}

-- `markError`: a run that has left the status running in the meantime is let alone.
unfoldable pub mark_failed : PrismaClient → ℕ → Option RunSnapshot → M (Unit {0})
mark_failed db now none world = (returned tt, world)
mark_failed db now (some latest) world =
    if same_status latest.status running
    then move db now latest.run failed
        (record no_extras { failed_message = some "Run executor failed" }) world
    else (returned tt, world)

-- The log entry of an executor that threw.
unfoldable pub log_executor_failure : ℕ → RunRow → M (Unit {0})
log_executor_failure now run = append_log (record {
  run_id = run.id;
  conversation_id = some run.conversation_id;
  at = now;
  level = error;
  message = "Run executor failed";
  step = some "InProcessRunWorker";
})

unfoldable pub look_and_mark : PrismaClient → ℕ → RunRow → M (Unit {0})
unfolding mark_failed
look_and_mark db now run = do latest ← reading (get_by_id db run.id); mark_failed db now latest

-- The `catch`; each of its two halves swallows what it throws.
unfoldable pub rescued : PrismaClient → ℕ → RunRow → World → World
unfolding log_executor_failure look_and_mark
rescued db now run world = (look_and_mark db now run (log_executor_failure now run world).1).1

-- The `finally`.
unfoldable pub controller_released : RunRow → World → World
controller_released run world = record world { registry = end run.id world.registry }

-- An executor is given the run, the reference of its signal, and the state, of which `H` is what is
-- not the runs'. `none` is an executor that does not return.
abbrev pub RunExecutor : Type 0 → Type 0
RunExecutor H = RunRow → ℕ → H × World → Option (Outcome (Unit {0}) × (H × World))

module _ {H : Type 0} (db : PrismaClient) (now : ℕ) (run : RunRow) where
  unfoldable pub after_execute : Option (Outcome (Unit {0}) × (H × World)) → Option (H × World)
  unfolding rescued controller_released
  after_execute none = none
  after_execute (some (returned _, (h, world))) = some (h, controller_released run world)
  after_execute (some (thrown e, (h, world))) =
      some (h, controller_released run (rescued db now run world))

  unfoldable pub execute_via_executor : RunExecutor H → H × World → Option (H × World)
  unfolding after_execute
  execute_via_executor executor (h, world) =
      let (signal, registry) = begin run.id world.registry in
      after_execute (executor run signal (h, record world { registry = registry }))

  -- `executeClaimed`, of a run that a claim has handed out.
  unfoldable pub execute_claimed : RunExecutor H → H × World → Option (H × World)
  unfolding execute_via_executor
  execute_claimed executor (h, world) =
      execute_via_executor executor (h, (publish (run_status run.id running) world).1)
