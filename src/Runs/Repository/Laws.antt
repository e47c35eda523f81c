-- ===== src/Runs/Repository/Laws.antt =====
-- What the methods of the adapter do to the row of each run.
use content_chain.Prelude.{
  ℕ, ◌≡◌, refl, ap, true, false, not, none, some, arith, if◌then◌else◌, ◌==◌, ==_iff, is_some,
}
use content_chain.Shared.Enums.{RunStatus, has_status}
use content_chain.Shared.Exception.{returned}
use content_chain.Runs.Status.{cancelable_run_statuses}
use content_chain.Runs.Record.{RunRow, Table}
use content_chain.Runs.Prisma.{PrismaClient, DistinctIds, has_id, update_where}
use content_chain.Runs.Rows.{
  row, DistinctIds-update_where, row-at_key, row-update_id, count-has_id, count_missing,
}
use content_chain.Runs.Repository.{
  save_status, save_recovery_attempt, set_attempts, attempt_cancel, set_cancel_requested,
  set_pipeline_finished_at, set_status, set_cancelled, set_requested, set_finished, is_cancelable,
  is_unfinished,
}

module _ (db : PrismaClient) where
  -- `saveStatus` on a run that is stored.
  pub save_status_found :
      (id : ℕ) (s : RunStatus) (t : Table) (r : RunRow)
      → row id t ≡ some r
      → save_status db id s t ≡ (returned tt, update_where (has_id id) (set_status s) t)
  unfolding save_status
  save_status_found id s t r e = rw (db.update_lem id (set_status s) t, e)

  pub row-save_status :
      (id : ℕ) (s : RunStatus) (t : Table) (r : RunRow) (j : ℕ)
      → row id t ≡ some r
      → row j (save_status db id s t).1 ≡ (if j == id then some (set_status s r) else row j t)
  row-save_status id s t r j e =
      rw (save_status_found id s t r e, row-update_id id (set_status s) (λ x. refl) j t)
        (ground (arith, ==_iff j id))

  -- `attemptCancel` on a run that is stored wins exactly when the run may be cancelled.
  pub attempt_cancel_wins :
      (id at : ℕ) (t : Table) (r : RunRow)
      → DistinctIds t
      → row id t ≡ some r
      → (attempt_cancel db id at t).0 ≡ has_status cancelable_run_statuses r.status
  unfolding attempt_cancel
  attempt_cancel_wins id at t r d e =
      rw
        (
          db.update_many_lem (is_cancelable id) (set_cancelled at) t,
          count-has_id (λ x. has_status cancelable_run_statuses x.status) id t r d e,
        )
        (ground arith)

  pub attempt_cancel_missing :
      (id at : ℕ) (t : Table) → row id t ≡ none → (attempt_cancel db id at t).0 ≡ false
  unfolding attempt_cancel
  attempt_cancel_missing id at t e =
      rw
        (
          db.update_many_lem (is_cancelable id) (set_cancelled at) t,
          count_missing (λ x. has_status cancelable_run_statuses x.status) id t e,
        )
        (ground arith)

  pub row-attempt_cancel :
      (id at : ℕ) (t : Table) (r : RunRow) (j : ℕ)
      → row id t ≡ some r
      → row j (attempt_cancel db id at t).1 ≡ (
          if j == id
          then some (if has_status cancelable_run_statuses r.status then set_cancelled at r else r)
          else row j t)
  unfolding attempt_cancel
  row-attempt_cancel id at t r j e =
      rw
        (
          db.update_many_lem (is_cancelable id) (set_cancelled at) t,
          row-at_key id (λ x. has_status cancelable_run_statuses x.status) (set_cancelled at)
              (λ x. refl) j t,
        )
        (ground (arith, ==_iff j id))

  set_cancel_requested_lem :
      (id : ℕ) (t : Table)
      → set_cancel_requested db id t ≡ update_where (is_cancelable id) set_requested t
  unfolding set_cancel_requested
  set_cancel_requested_lem id t =
      ap (λ p. p.0) (db.update_many_lem (is_cancelable id) set_requested t)

  set_pipeline_finished_at_lem :
      (id at : ℕ) (t : Table)
      → set_pipeline_finished_at db id at t ≡ update_where (is_unfinished id) (set_finished at) t
  unfolding set_pipeline_finished_at
  set_pipeline_finished_at_lem id at t =
      ap (λ p. p.0) (db.update_many_lem (is_unfinished id) (set_finished at) t)

  pub row-set_cancel_requested :
      (id : ℕ) (t : Table) (r : RunRow) (j : ℕ)
      → row id t ≡ some r
      → row j (set_cancel_requested db id t) ≡ (
          if j == id
          then some (
              if has_status cancelable_run_statuses r.status
              then record r { cancel_requested = true }
              else r)
          else row j t)
  row-set_cancel_requested id t r j e =
      rw
        (
          set_cancel_requested_lem id t,
          row-at_key id (λ x. has_status cancelable_run_statuses x.status) set_requested (λ x. refl)
              j t,
        )
        (ground (arith, ==_iff j id))

  pub DistinctIds-set_cancel_requested :
      (id : ℕ) (t : Table) → DistinctIds t → DistinctIds (set_cancel_requested db id t)
  DistinctIds-set_cancel_requested id t d =
      rw (set_cancel_requested_lem id t)
        (DistinctIds-update_where (is_cancelable id) set_requested (λ x. refl) t d)

  pub row-set_pipeline_finished_at :
      (id at : ℕ) (t : Table) (r : RunRow) (j : ℕ)
      → row id t ≡ some r
      → row j (set_pipeline_finished_at db id at t) ≡ (
          if j == id
          then some (
              if is_some r.pipeline_finished_at
              then r
              else record r { pipeline_finished_at = some at })
          else row j t)
  row-set_pipeline_finished_at id at t r j e =
      rw
        (
          set_pipeline_finished_at_lem id at t,
          row-at_key id (λ x. not (is_some x.pipeline_finished_at)) (set_finished at) (λ x. refl) j
              t,
        )
        (ground (arith, ==_iff j id))

  pub DistinctIds-attempt_cancel :
      (id at : ℕ) (t : Table) → DistinctIds t → DistinctIds (attempt_cancel db id at t).1
  unfolding attempt_cancel
  DistinctIds-attempt_cancel id at t d =
      rw (db.update_many_lem (is_cancelable id) (set_cancelled at) t)
        (DistinctIds-update_where (is_cancelable id) (set_cancelled at) (λ x. refl) t d)

  pub DistinctIds-save_status :
      (id : ℕ) (q : RunStatus) (t : Table) (r : RunRow)
      → row id t ≡ some r
      → DistinctIds t
      → DistinctIds (save_status db id q t).1
  DistinctIds-save_status id q t r e d =
      rw (save_status_found id q t r e)
        (DistinctIds-update_where (has_id id) (set_status q) (λ x. refl) t d)

  pub DistinctIds-set_pipeline_finished_at :
      (id at : ℕ) (t : Table) → DistinctIds t → DistinctIds (set_pipeline_finished_at db id at t)
  DistinctIds-set_pipeline_finished_at id at t d =
      rw (set_pipeline_finished_at_lem id at t)
        (DistinctIds-update_where (is_unfinished id) (set_finished at) (λ x. refl) t d)

  pub save_recovery_attempt_found :
      (id n : ℕ) (t : Table) (r : RunRow)
      → row id t ≡ some r
      → save_recovery_attempt db id n t ≡ (returned tt, update_where (has_id id) (set_attempts n) t)
  unfolding save_recovery_attempt
  save_recovery_attempt_found id n t r e = rw (db.update_lem id (set_attempts n) t, e)

  pub row-save_recovery_attempt :
      (id n : ℕ) (t : Table) (r : RunRow) (j : ℕ)
      → row id t ≡ some r
      → row j (update_where (has_id id) (set_attempts n) t)
        ≡ (if j == id then some (set_attempts n r) else row j t)
  row-save_recovery_attempt id n t r j e =
      rw (row-update_id id (set_attempts n) (λ x. refl) j t) (ground (arith, ==_iff j id))

  pub DistinctIds-save_recovery_attempt :
      (id n : ℕ) (t : Table)
      → DistinctIds t
      → DistinctIds (update_where (has_id id) (set_attempts n) t)
  DistinctIds-save_recovery_attempt id n t d =
      DistinctIds-update_where (has_id id) (set_attempts n) (λ x. refl) t d
