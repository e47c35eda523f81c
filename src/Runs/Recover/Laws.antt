-- ===== src/Runs/Recover/Laws.antt =====
-- What recovery leaves of each run, and that nothing is left running.
use mathlib.Core.Option
use content_chain.Prelude.{
  ℕ, ◌+◌, ◌≡◌, refl, sym, ◌∙◌, ◌≢◌, inl, inr, Bool, true, false, List, Option, none, some, arith,
  if◌then◌else◌, ==_refl, Bool-cases, Option-cases, leb, All, Has, All-of_Has, All-Has,
}
use content_chain.Shared.Enums.{running, interrupted, failed}
use content_chain.Shared.Exception.{returned}
use content_chain.Runs.Status.{can_transition}
use content_chain.Runs.Record.{RunRow, RunSnapshot, Table, is_readable, to_snapshots}
use content_chain.Runs.Prisma.{PrismaClient, DistinctIds, has_id, update_where}
use content_chain.Runs.Rows.{row, row_of_Has, row-Has}
use content_chain.Runs.Repository.{
  attempt_cancel, set_cancelled, set_attempts, set_status, is_cancel_leftover,
  is_interrupted_running, find_interrupted_running, find_cancel_requested_leftovers,
}
use content_chain.Runs.Repository.Laws.{
  row-attempt_cancel, row-save_recovery_attempt, DistinctIds-attempt_cancel,
  DistinctIds-save_recovery_attempt, save_recovery_attempt_found,
}
use content_chain.Runs.World.{World, for_each, RunLogEntry, error, M}
use content_chain.Runs.Lifecycle.{append_log, publish_cancelled, no_extras, TransitionExtras}
use content_chain.Runs.Lifecycle.Laws.{moved, transition_legal, DistinctIds-transition}
use content_chain.Runs.Loops.{Reads, Writes, row-find_many, snapshots_of_readable, for_each-Writes}
use content_chain.Runs.Recover.{
  recovery_cap, cancel_leftover, recover_one, give_up, interrupt, recover_interrupted_runs,
  exhausted_message,
}

-- A run that was left running is given up after three attempts, and else waits for the next one.
abbrev pub recovered_row : ℕ → RunRow → RunRow
recovered_row now r =
    if leb recovery_cap r.recovery_attempts
    then moved now failed r
    else set_status interrupted (set_attempts (r.recovery_attempts + 1) r)

module _ (db : PrismaClient) (now : ℕ) where
  cancel_leftover-Writes :
      (r : RunRow) (s : RunSnapshot) (w : World)
      → Reads r s
      → is_cancel_leftover r ≡ true
      → row r.id w.table ≡ some r
      → Writes (set_cancelled now) r (cancel_leftover db now s w) w
  unfolding cancel_leftover publish_cancelled
  cancel_leftover-Writes r s w (same, _, _) p e =
      rw same (elim (Bool-cases (attempt_cancel db r.id now w.table).0) [
        | inl won ↦ rw won (
          refl,
          λ j. ground (arith, row-attempt_cancel db r.id now w.table r j e),
          DistinctIds-attempt_cancel db r.id now w.table,
        )
        | inr lost ↦ rw lost (
          refl,
          λ j. ground (arith, row-attempt_cancel db r.id now w.table r j e),
          DistinctIds-attempt_cancel db r.id now w.table,
        )
      ])

  exhausted_log : RunSnapshot → RunLogEntry
  exhausted_log s = record {
    run_id = s.id;
    conversation_id = some s.conversation_id;
    at = now;
    level = error;
    message = exhausted_message;
    step = some "recovery";
  }

  exhausted : TransitionExtras
  exhausted = record no_extras { failed_message = some exhausted_message }

  give_up-Writes :
      (r : RunRow) (s : RunSnapshot) (w : World)
      → Reads r s
      → r.status ≡ running
      → row r.id w.table ≡ some r
      → Writes (moved now failed) r (give_up db now s w) w
  unfolding give_up append_log exhausted_log exhausted can_transition
  give_up-Writes r s w (same, status, _) p e =
      let leave : can_transition s.status failed ≡ true = rw (status, p) refl in
      let stored : row s.id (append_log (exhausted_log s) w).1.table ≡ some r = rw same e in
      let (done, rows, _, _, _, _) =
        transition_legal db now s.run exhausted (append_log (exhausted_log s) w).1 failed r stored
          leave in
      let distinct =
        DistinctIds-transition db now s.run exhausted (append_log (exhausted_log s) w).1 failed r
          stored leave in
      rw done (refl, λ j. ground (arith, rows j), distinct)

  interrupt-Writes :
      (r : RunRow) (s : RunSnapshot) (w : World)
      → Reads r s
      → r.status ≡ running
      → row r.id w.table ≡ some r
      → Writes
          (λ q. set_status interrupted (set_attempts (q.recovery_attempts + 1) q))
          r
          (interrupt db now s w)
          w
  unfolding interrupt can_transition
  interrupt-Writes r s w (same, status, attempts) p e =
      let n = s.recovery_attempts + 1 in
      let stored : row s.id w.table ≡ some r = rw same e in
      let w1 : World = record w { table = update_where (has_id s.id) (set_attempts n) w.table } in
      let leave : can_transition s.status interrupted ≡ true = rw (status, p) refl in
      let stored1 : row s.id w1.table ≡ some (set_attempts n r) =
        row-save_recovery_attempt db s.id n w.table r s.id stored ∙ rw (==_refl s.id) refl in
      let (done, rows, _, _, _, _) =
        transition_legal db now s.run no_extras w1 interrupted _ stored1 leave in
      let distinct = DistinctIds-transition db now s.run no_extras w1 interrupted _ stored1 leave in
      rw (save_recovery_attempt_found db s.id n w.table r stored) (
        rw done (
          refl,
          λ j. ground (arith, rows j, row-save_recovery_attempt db s.id n w.table r j stored),
          λ d. distinct (DistinctIds-save_recovery_attempt db s.id n w.table d),
        ))

  recover_one-Writes :
      (r : RunRow) (s : RunSnapshot) (w : World)
      → Reads r s
      → is_interrupted_running r ≡ true
      → row r.id w.table ≡ some r
      → Writes (recovered_row now) r (recover_one db now s w) w
  unfolding recover_one
  recover_one-Writes r s w m p e = elim (Bool-cases (leb recovery_cap r.recovery_attempts)) [
    | inl over ↦
        let over' : leb recovery_cap s.recovery_attempts ≡ true = rw m.2 over in
        rw (over', over) (give_up-Writes r s w m (ground arith) e)
    | inr more ↦
        let more' : leb recovery_cap s.recovery_attempts ≡ false = rw m.2 more in
        rw (more', more) (interrupt-Writes r s w m (ground arith) e)
  ]

-- A loop over the rows of a query, of which every row is readable.
module _ (db : PrismaClient) (step : RunSnapshot → M (Unit {0})) (f : RunRow → RunRow)
    (p : RunRow → Bool)
    (round : (r : RunRow) (s : RunSnapshot) (w : World)
      → Reads r s
      → p r ≡ true
      → row r.id w.table ≡ some r
      → Writes f r (step s w) w)
    (w : World) (d : DistinctIds w.table) (readable : All (λ r. is_readable r ≡ true) w.table) where
  loop_over_query :
      (ss : List RunSnapshot) × (to_snapshots (db.find_many p w.table) ≡ returned ss)
      × ((for_each step ss w).0 ≡ returned tt)
      × ((j : ℕ)
          → row j (for_each step ss w).1.table
            ≡ Option.map (λ r. if p r then f r else r) (row j w.table))
      × DistinctIds (for_each step ss w).1.table
  loop_over_query =
      let rs = db.find_many p w.table in
      let sound = λ (r : RunRow) (m : Has r rs). db.find_many-sound p w.table r m in
      let (ss, e, m) =
        snapshots_of_readable rs
          (All-of_Has _ rs (λ r h. All-Has _ w.table r readable (sound r h).0)) in
      let (done, rows, distinct) =
        for_each-Writes step f p round rs ss w m (db.find_many-distinct p w.table d)
          (All-of_Has _ rs (λ r h. (sound r h).1))
          (All-of_Has _ rs (λ r h. row_of_Has w.table r d (sound r h).0)) in
      (ss, e, done, λ j. ground (arith, rows j, row-find_many db p w.table j d), distinct d)

readable_after :
    (f : RunRow → RunRow) (t t' : Table)
    → ((r : RunRow) → is_readable (f r) ≡ is_readable r)
    → DistinctIds t'
    → All (λ r. is_readable r ≡ true) t
    → ((j : ℕ) → row j t' ≡ Option.map f (row j t))
    → All (λ r. is_readable r ≡ true) t'
readable_after f t t' keeps d h rows = All-of_Has _ t' λ r m. elim (Option-cases (row r.id t)) [
  | inl e ↦ ground (arith, rows r.id, row_of_Has t' r d m)
  | inr (q, e) ↦
      let fine = All-Has _ t q h (row-Has r.id t q e).0 in
      ground (arith, rows r.id, row_of_Has t' r d m, keeps q)
]

leftover_readable :
    (now : ℕ) (r : RunRow)
    → is_readable (if is_cancel_leftover r then set_cancelled now r else r) ≡ is_readable r
leftover_readable now r = elim (Bool-cases (is_cancel_leftover r)) [
  | inl e ↦ rw e refl
  | inr e ↦ rw e refl
]

-- What recovery leaves of a run.
abbrev pub recovered : ℕ → RunRow → RunRow
recovered now r =
    if is_cancel_leftover r
    then set_cancelled now r
    else (if is_interrupted_running r then recovered_row now r else r)

-- A run that the first loop has cancelled is none that the second loop takes.
recovered_twice :
    (now : ℕ) (o q q' : Option RunRow)
    → q ≡ Option.map (λ r. if is_cancel_leftover r then set_cancelled now r else r) o
    → q' ≡ Option.map (λ r. if is_interrupted_running r then recovered_row now r else r) q
    → q' ≡ Option.map (recovered now) o
recovered_twice now none q q' e e' = ground arith
recovered_twice now (some r) q q' e e' = elim (Bool-cases (is_cancel_leftover r)) [
  | inl left ↦ rw (e', e, left) refl
  | inr kept ↦ rw (e', e, kept) refl
]

module _ (db : PrismaClient) (now : ℕ) (w : World) (d : DistinctIds w.table)
    (readable : All (λ r. is_readable r ≡ true) w.table) where
  -- With distinct keys, and rows that the adapter can read: recovery returns, and it takes the row
  -- of each run to what `recovered` says. A running or interrupted run with a cancellation asked
  -- for is cancelled; another run that was running is failed after three attempts, and else
  -- interrupted with one more attempt counted; every other run is left alone.
  pub recover_interrupted_runs_lem :
      let (o, w') = recover_interrupted_runs db now w in
      (o ≡ returned tt) × ((j : ℕ) → row j w'.table ≡ Option.map (recovered now) (row j w.table))
  unfolding recover_interrupted_runs find_interrupted_running find_cancel_requested_leftovers
  recover_interrupted_runs_lem =
      let (ss, read, done, rows, distinct) =
        loop_over_query db (cancel_leftover db now) (set_cancelled now) is_cancel_leftover
          (cancel_leftover-Writes db now) w d readable in
      let w1 = (for_each (cancel_leftover db now) ss w).1 in
      let readable1 : All (λ r. is_readable r ≡ true) w1.table =
        readable_after _ w.table w1.table (leftover_readable now) distinct readable rows in
      let (ss', read', done', rows', _) =
        loop_over_query db (recover_one db now) (recovered_row now) is_interrupted_running
          (recover_one-Writes db now) w1 distinct readable1 in
      rw (read, done, read')
        (done', λ j. recovered_twice now (row j w.table) _ _ (rows j) (rows' j))

  -- With distinct keys, and rows that the adapter can read: after recovery no run is stored as
  -- running.
  pub recover-none_running :
      (j : ℕ) (r : RunRow)
      → row j (recover_interrupted_runs db now w).1.table ≡ some r
      → r.status ≢ running
  recover-none_running j r e =
      recovered-ne-running (row j w.table) (sym ((recover_interrupted_runs_lem).1 j) ∙ e)
    where
      recovered-ne-running :
          (o : Option RunRow) → Option.map (recovered now) o ≡ some r → r.status ≢ running
      recovered-ne-running none h = cc
      recovered-ne-running (some q) h = ground arith
