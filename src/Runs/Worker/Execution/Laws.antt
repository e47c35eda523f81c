-- ===== src/Runs/Worker/Execution/Laws.antt =====
-- An executor that throws does not leave its run running.
use content_chain.Prelude.{
  ℕ, ◌≡◌, refl, ap, ◌∙◌, true, false, Option, none, some, arith, if◌then◌else◌, ◌==◌, ==_refl,
  ==_iff, Bool-cases, inl, inr,
}
use content_chain.Shared.Enums.{RunStatus, running, failed, same_status, is_social_task_type}
use content_chain.Shared.Exception.{DomainException, Outcome, returned, thrown}
use content_chain.Runs.Status.{can_transition}
use content_chain.Runs.Record.{RunRow, RunSnapshot, Table, to_snapshot, is_readable}
use content_chain.Runs.Prisma.{PrismaClient}
use content_chain.Runs.Rows.{row, row-Has}
use content_chain.Runs.Repository.{get_by_id, started_by_of}
use content_chain.Runs.Abort.{controller_of, begin}
use content_chain.Runs.Abort.Laws.{request_cancel-end}
use content_chain.Runs.World.{World}
use content_chain.Runs.Lifecycle.{TransitionExtras, append_log, no_extras}
use content_chain.Runs.Lifecycle.Laws.{moved, transition_legal}
use content_chain.Runs.Executor.{move}
use content_chain.Runs.Worker.Execution.{
  mark_failed, log_executor_failure, look_and_mark, rescued, controller_released, RunExecutor,
  after_execute, execute_via_executor,
}

module _ (db : PrismaClient) where
  -- A row that can be read is read, with its key and its status.
  pub get_by_id-row :
      (id : ℕ) (t : Table) (r : RunRow)
      → row id t ≡ some r
      → is_readable r ≡ true
      → (s : RunSnapshot) × (get_by_id db id t ≡ returned (some s))
        × (s.run.id ≡ r.id)
        × (s.run.status ≡ r.status)
  unfolding get_by_id to_snapshot started_by_of
  get_by_id-row id t r e fine = (
    record {
      run = if is_social_task_type r.task_type then record r { content_kind = none } else r;
      started_by = started_by_of db r.started_by_user_id;
    },
    ground (arith, db.find_unique_lem id t),
    ground arith,
    ground arith,
  )

is_running : (s : RunStatus) → same_status s running ≡ true → s ≡ running
is_running s e = ground arith

-- What the worker makes of a row whose executor threw.
abbrev pub after_failure : ℕ → RunRow → RunRow
after_failure now r = if same_status r.status running then moved now failed r else r

module _ (db : PrismaClient) (now : ℕ) (run r : RunRow) where
  -- The row of the run after a rescue; the other rows stay.
  abbrev pub Rescued : Table → Table → Type 0
  Rescued t t' = (j : ℕ) → row j t' ≡ (if j == run.id then some (after_failure now r) else row j t)

  mark_failed-Rescued :
      (s : RunSnapshot) (w : World)
      → row run.id w.table ≡ some r
      → s.run.id ≡ r.id
      → s.run.status ≡ r.status
      → Rescued w.table (mark_failed db now (some s) w).1.table
  unfolding mark_failed move can_transition
  mark_failed-Rescued s w stands same status = elim (Bool-cases (same_status r.status running)) [
    | inl live ↦
        let named : s.run.id ≡ run.id = same ∙ (row-Has run.id w.table r stands).1 in
        let x : TransitionExtras = record no_extras {
          failed_message = some "Run executor failed";
        } in
        let going : s.run.status ≡ running = status ∙ is_running r.status live in
        let still : same_status s.run.status running ≡ true = rw going refl in
        let (_, rows, _, _, _, _) =
          transition_legal db now s.run x w failed r (rw named stands) (rw going refl) in
        rw (still, live) λ j. rows j ∙ rw named refl
    | inr over ↦
        let still : same_status s.run.status running ≡ false =
          ap (λ t. same_status t running) status ∙ over in
        rw (still, over) λ j. ground (arith, ==_iff j run.id)
  ]

  look_and_mark-Rescued :
      (w : World)
      → row run.id w.table ≡ some r
      → is_readable r ≡ true
      → Rescued w.table (look_and_mark db now run w).1.table
  unfolding look_and_mark
  look_and_mark-Rescued w stands fine =
      let (s, found, same, status) = get_by_id-row db run.id w.table r stands fine in
      rw found (mark_failed-Rescued s w stands same status)

  rescued-Rescued :
      (w : World)
      → row run.id w.table ≡ some r
      → is_readable r ≡ true
      → Rescued w.table (rescued db now run w).table
  unfolding rescued log_executor_failure append_log
  rescued-Rescued w stands fine =
      look_and_mark-Rescued (log_executor_failure now run w).1 stands fine

module _ {H : Type 0} (db : PrismaClient) (now : ℕ) (run : RunRow) where
  -- What the worker hands on after an executor that has answered.
  abbrev pub Handed : Outcome (Unit {0}) × (H × World) → Option (H × World) → Type 0
  Handed q none = ⊥
  Handed (o, (h, w)) (some (h', w')) =
      (h' ≡ h)
      × (controller_of run.id w'.registry.controllers ≡ none)
      × ((o ≡ returned tt) → w'.table ≡ w.table)
      × ((e : DomainException) (r : RunRow)
          → o ≡ thrown e
          → row run.id w.table ≡ some r
          → is_readable r ≡ true
          → Rescued db now run r w.table w'.table)

  pub after_execute-Handed :
      (q : Outcome (Unit {0}) × (H × World)) → Handed q (after_execute db now run (some q))
  unfolding after_execute controller_released
  after_execute-Handed (returned _, (h, w)) =
      let (_, gone) = request_cancel-end run.id run.id w.registry in
      (refl, gone ∙ rw (==_refl run.id) refl, λ e. refl, λ e r x. cc)
  after_execute-Handed (thrown x, (h, w)) =
      let (_, gone) = request_cancel-end run.id run.id (rescued db now run w).registry in
      (
        refl,
        gone ∙ rw (==_refl run.id) refl,
        λ e. cc,
        λ e r same stands fine. rescued-Rescued db now run r w stands fine,
      )

  -- Whatever the executor is, once it answers the worker hands on what is not the runs' as the
  -- executor left it, and no controller of the run is left. An executor that returns has its table
  -- kept. After one that throws, when the database takes the updates that follow, as the laws of the
  -- client have it for a stored row, a run whose row can be read and still says running has failed,
  -- dated once, any other status stays, and no other row changes.
  pub execute_via_executor-Handed :
      (executor : RunExecutor H) (h : H) (w : World) (q : Outcome (Unit {0}) × (H × World))
      → (let (signal, registry) = begin run.id w.registry in
          executor run signal (h, record w { registry = registry }) ≡ some q)
      → Handed q (execute_via_executor db now run executor (h, w))
  unfolding execute_via_executor
  execute_via_executor-Handed executor h w q e = rw e (after_execute-Handed q)
