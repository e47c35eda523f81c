-- ===== src/Runs/Executor/Laws.antt =====
-- What an executor does to its run: one legal transition, or none.
use Prim.Native.String.{String}
use content_chain.Prelude.{
  ℕ, ◌≡◌, refl, ap, ◌∙◌, ◌⊎◌, inl, inr, Bool, true, List, [], ◌++◌, map, some, arith, if◌then◌else◌,
  ◌==◌, ==_refl, ==_iff, Bool-cases, get_or,
}
use content_chain.Shared.Enums.{RunStatus, running, failed}
use content_chain.Shared.Exception.{DomainException, is_abort_error, Outcome, returned}
use content_chain.Runs.Status.{can_transition}
use content_chain.Runs.Record.{RunRow, Table}
use content_chain.Runs.Prisma.{PrismaClient}
use content_chain.Runs.Rows.{row, row-update_id}
use content_chain.Runs.World.{World, HubCall, RunLogEntry, publishes, run_log}
use content_chain.Runs.Lifecycle.{TransitionExtras, transition}
use content_chain.Runs.Lifecycle.Laws.{announced, moved, transition_legal}
use content_chain.Runs.Executor.{
  Job, failed_code_of, failing, synced, move, moved_job, caught, guarded,
}

-- From one world to a later one: the run's row, if it is this one, is `c`, and no other row has
-- changed; the entries have been logged and published, and after them the calls made on the hub, both
-- with the newest first; controllers and notices stay.
abbrev pub Wrote : ℕ → RunRow → List HubCall → List RunLogEntry → World → World → Type 0
Wrote id c calls entries world world' =
    ((j : ℕ) → row j world'.table ≡ (if j == id then some c else row j world.table))
    × (world'.hub_calls ≡ calls ++ (map (λ e. publishes (run_log e)) entries ++ world.hub_calls))
    × (world'.logs ≡ entries ++ world.logs)
    × (world'.registry ≡ world.registry)
    × (world'.notices ≡ world.notices)

-- The run has taken the status, which its stream announces.
abbrev pub MovedTo :
    ℕ → RunRow → RunRow → List RunLogEntry → RunStatus → TransitionExtras → World → World → Type 0
MovedTo now run c entries to x = Wrote run.id (moved now to c) (announced run.id to x) entries

untouched :
    (id j : ℕ) (t : Table) (r : RunRow)
    → row id t ≡ some r
    → row j t ≡ (if j == id then some r else row j t)
untouched id j t r stands = ground (arith, ==_iff j id)

module _ (db : PrismaClient) (run r : RunRow) (world : World)
    (stands : row run.id world.table ≡ some r) where
  -- Nothing has been written yet.
  pub unsynced-Wrote : Wrote run.id r [] [] world world
  unsynced-Wrote = (λ j. untouched run.id j world.table r stands, refl, refl, refl, refl)

  pub synced-Wrote :
      (columns : RunRow → RunRow) (entries : List RunLogEntry)
      → ((q : RunRow) → (columns q).id ≡ q.id)
      → Wrote run.id (columns r) [] entries world (synced db run.id columns entries world)
  unfolding synced
  synced-Wrote columns entries keeps = (λ j. rows j, refl, refl, refl, refl)
    where
      rows :
          (j : ℕ)
          → row j (get_or (db.update run.id columns world.table) world.table)
            ≡ (if j == run.id then some (columns r) else row j world.table)
      rows j =
          rw
            (
              db.update_lem run.id columns world.table,
              stands,
              row-update_id run.id columns keeps j world.table,
            )
            (ground (arith, ==_iff j run.id, stands))

module _ {S W : Type 0} (db : PrismaClient) (signal : W → Bool) (message : DomainException → String)
    (now : ℕ) (run : RunRow) (world : World) (claimed : run.status ≡ running)
    (D : S × W → RunRow → List RunLogEntry → Type 0) where
  -- An end by a transition of which `P` holds, with the results that are stored by then; `D` tells
  -- how the row stood before it and what was logged.
  abbrev pub Settled :
      (S → RunStatus → TransitionExtras → Type 0) → Outcome (Unit {0}) × Job S W → Type 0
  Settled P (o, (held, world')) =
      (o ≡ returned tt)
      × (to : RunStatus) × (x : TransitionExtras) × (c : RunRow) × (entries : List RunLogEntry) × P
          held.0 to x
      × D held c entries
      × MovedTo now run c entries to x world world'

  -- An end that leaves the run's status as it is, for the reason `Q`.
  abbrev pub Stopped : (S × W → Outcome (Unit {0}) → Type 0) → Outcome (Unit {0}) × Job S W → Type 0
  Stopped Q (o, (held, world')) =
      (c : RunRow) × (entries : List RunLogEntry) × Q held o
      × D held c entries
      × Wrote run.id c [] entries world world'

  module _ (c : RunRow) (entries : List RunLogEntry) (held : S × W) (written : D held c entries)
      (world1 : World) (base : Wrote run.id c [] entries world world1) where
    move_legal :
        (to : RunStatus) (x : TransitionExtras)
        → can_transition running to ≡ true
        → (w' : World) × (move db now run to x world1 ≡ (returned tt, w'))
          × MovedTo now run c entries to x world w'
    unfolding move
    move_legal to x legal =
        let (before, calls, logs, registry, notices) = base in
        let stands : row run.id world1.table ≡ some c = before run.id ∙ rw (==_refl run.id) refl in
        let (answer, rows, calls', logs', registry', notices') =
          transition_legal db now run x world1 to c stands (rw claimed legal) in
        (
          (transition db now run to x world1).1,
          rw answer refl,
          (
            λ j. rows j ∙ ground (arith, before j),
            calls' ∙ ap (λ l. announced run.id to x ++ l) calls,
            logs' ∙ logs,
            registry' ∙ registry,
            notices' ∙ notices,
          ),
        )

    module _ (P : S → RunStatus → TransitionExtras → Type 0) where
      pub move_settles :
          (to : RunStatus) (x : TransitionExtras)
          → can_transition running to ≡ true
          → P held.0 to x
          → Settled P (moved_job (move db now run to x world1) held)
      unfolding moved_job
      move_settles to x legal good =
          let (w', e, moves) = move_legal to x legal in
          rw e (refl, to, x, c, entries, good, written, moves)

      pub guarded_settles :
          (to : RunStatus) (x : TransitionExtras)
          → can_transition running to ≡ true
          → P held.0 to x
          → Settled P (guarded db signal message now run (move db now run to x world1) held)
      unfolding guarded
      guarded_settles to x legal good =
          let (w', e, moves) = move_legal to x legal in
          rw e (refl, to, x, c, entries, good, written, moves)

      -- A failure is recorded, unless the run has been aborted or the error says so.
      pub caught_ends :
          (Q : S × W → Outcome (Unit {0}) → Type 0) (e : DomainException)
          → P held.0 failed (failing (failed_code_of e.code) (message e))
          → (signal held.1 ≡ true → Q held (returned tt))
          → (is_abort_error e ≡ true → Q held (returned tt))
          → Settled P (caught db signal message now run e held world1)
            ⊎ Stopped Q (caught db signal message now run e held world1)
      unfolding caught can_transition
      caught_ends Q e good aborted abort_thrown = elim (Bool-cases (signal held.1)) [
        | inl stop ↦ rw stop (inr (c, entries, aborted stop, written, base))
        | inr live ↦ elim (Bool-cases (is_abort_error e)) [
          | inl stop ↦ rw (live, stop) (inr (c, entries, abort_thrown stop, written, base))
          | inr other ↦
              rw (live, other)
                (inl (move_settles failed (failing (failed_code_of e.code) (message e)) refl good))
        ]
      ]
