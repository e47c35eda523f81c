-- ===== src/Runs/Lifecycle/Laws.antt =====
-- What `transition` does: to the row, to the other rows, and on the event stream.
use content_chain.Prelude.{
  ℕ, ◌≡◌, refl, ◌∙◌, inl, inr, true, false, not, ◌&&◌, List, [], ◌∷◌, ◌++◌, some, arith,
  if◌then◌else◌, ◌==◌, ==_refl, Bool-cases, get_or, is_some,
}
use content_chain.Shared.Enums.{RunStatus, running, awaiting_hitl, completed, failed, cancelled}
use content_chain.Shared.Exception.{returned, throw, conflict}
use content_chain.Runs.Status.{assert_transition, can_transition}
use content_chain.Runs.Record.{RunRow, Table}
use content_chain.Runs.Prisma.{PrismaClient, DistinctIds}
use content_chain.Runs.Rows.{row}
use content_chain.Runs.Repository.{set_status, save_status, set_pipeline_finished_at}
use content_chain.Runs.Repository.Laws.{
  row-save_status, save_status_found, row-set_pipeline_finished_at, DistinctIds-save_status,
  DistinctIds-set_pipeline_finished_at,
}
use content_chain.Runs.World.{
  World, HubCall, publishes, completes, run_status, run_hitl, run_completed, run_failed,
}
use content_chain.Runs.Lifecycle.{TransitionExtras, transition, is_pipeline_end}

-- The events of a transition, the newest first: the status comes first in time, and the end of the
-- stream last.
abbrev pub announced : ℕ → RunStatus → TransitionExtras → List HubCall
announced id awaiting_hitl x =
    publishes (run_hitl id (get_or x.hitl_options []))
    ∷ publishes (run_status id awaiting_hitl)
    ∷ []
announced id completed x =
    completes id
    ∷ publishes (run_completed id x.result_summary)
    ∷ publishes (run_status id completed)
    ∷ []
announced id failed x =
    completes id
    ∷ publishes (run_failed id x.failed_code (get_or x.failed_message "run failed"))
    ∷ publishes (run_status id failed)
    ∷ []
announced id s x = publishes (run_status id s) ∷ []

-- The row of a run that has moved to a status: a pipeline that ends is dated once.
abbrev pub moved : ℕ → RunStatus → RunRow → RunRow
moved now to r =
    if is_pipeline_end to && not (is_some r.pipeline_finished_at)
    then record r { status = to; pipeline_finished_at = some now }
    else set_status to r

-- The table after the two writes of a transition.
abbrev stored : PrismaClient → ℕ → ℕ → RunStatus → Table → Table
stored db now id to t =
    let u = (save_status db id to t).1 in
    if is_pipeline_end to then set_pipeline_finished_at db id now u else u

row-stored :
    (db : PrismaClient) (now id : ℕ) (to : RunStatus) (t : Table) (r : RunRow) (j : ℕ)
    → row id t ≡ some r
    → row j (stored db now id to t) ≡ (if j == id then some (moved now to r) else row j t)
row-stored db now id to t r j e = ground (
  arith,
  ==_refl id,
  row-save_status db id to t r j e,
  row-save_status db id to t r id e,
  row-set_pipeline_finished_at db id now (save_status db id to t).1 (set_status to r) j,
)

DistinctIds-stored :
    (db : PrismaClient) (now id : ℕ) (to : RunStatus) (t : Table) (r : RunRow)
    → row id t ≡ some r
    → DistinctIds t
    → DistinctIds (stored db now id to t)
DistinctIds-stored db now id to t r e d = elim (Bool-cases (is_pipeline_end to)) [
  | inl end ↦
      rw end (
        DistinctIds-set_pipeline_finished_at db id now _ (DistinctIds-save_status db id to t r e d))
  | inr more ↦ rw more (DistinctIds-save_status db id to t r e d)
]

module _ (db : PrismaClient) (now : ℕ) (run : RunRow) (x : TransitionExtras) (w : World) where
  -- A transition that the state machine does not allow throws CONFLICT (409) and changes nothing.
  pub transition_illegal :
      (to : RunStatus)
      → can_transition run.status to ≡ false
      → transition db now run to x w ≡ (throw conflict 409, w)
  unfolding transition assert_transition can_transition
  transition_illegal to h = rw h refl

  transition_run :
      (to : RunStatus) (r : RunRow)
      → row run.id w.table ≡ some r
      → can_transition run.status to ≡ true
      → transition db now run to x w ≡ (
        returned (record run { status = to }),
        record w {
          table = stored db now run.id to w.table;
          hub_calls = announced run.id to x ++ w.hub_calls;
        },
      )
  unfolding transition assert_transition can_transition
  transition_run awaiting_hitl r e h =
      rw (h, save_status_found db run.id awaiting_hitl w.table r e) refl
  transition_run to r e h = rw (h, save_status_found db run.id to w.table r e) refl

  -- A transition that is allowed, on a run that is stored, returns the run with its new status. The
  -- run's row gets the status, and the date at which the pipeline ended if it ends now and has none;
  -- no other row changes. The events are those of the new status, and the stream of a run that has
  -- completed or failed is ended. Logs, controllers and notices stay.
  pub transition_legal :
      (to : RunStatus) (r : RunRow)
      → row run.id w.table ≡ some r
      → can_transition run.status to ≡ true
      → let (o, w') = transition db now run to x w in
        (o ≡ returned (record run { status = to }))
        × ((j : ℕ)
            → row j w'.table ≡ (if j == run.id then some (moved now to r) else row j w.table))
        × (w'.hub_calls ≡ announced run.id to x ++ w.hub_calls)
        × (w'.logs ≡ w.logs)
        × (w'.registry ≡ w.registry)
        × (w'.notices ≡ w.notices)
  transition_legal to r e h =
      rw (transition_run to r e h)
        (refl, λ j. row-stored db now run.id to w.table r j e, refl, refl, refl, refl)

  pub DistinctIds-transition :
      (to : RunStatus) (r : RunRow)
      → row run.id w.table ≡ some r
      → can_transition run.status to ≡ true
      → DistinctIds w.table
      → DistinctIds (transition db now run to x w).1.table
  DistinctIds-transition to r e h d =
      rw (transition_run to r e h) (DistinctIds-stored db now run.id to w.table r e d)

  -- The status that is tested is that of the run which the caller holds: a run that is stored as
  -- cancelled, while the caller's copy still says running, becomes completed.
  pub transition_overwrites_cancelled :
      (r : RunRow)
      → row run.id w.table ≡ some r
      → run.status ≡ running
      → r.status ≡ cancelled
      → (q : RunRow) × (row run.id (transition db now run completed x w).1.table ≡ some q)
        × (q.status ≡ completed)
  unfolding can_transition
  transition_overwrites_cancelled r e stale over =
      let (_, rows, _, _, _, _) = transition_legal completed r e (rw stale refl) in
      (moved now completed r, rows run.id ∙ rw (==_refl run.id) refl, ground arith)
