-- ===== src/Runs/Review/Laws.antt =====
-- The review window, and who may still change a review.
use content_chain.Prelude.{
  ℕ, ◌+◌, ◌<◌, ◌≡◌, refl, ◌↔◌, ◌∙◌, ◌⊎◌, inl, inr, Bool, false, not, Option, none, some, arith,
  ◌==◌, ==_refl, Bool-cases, is_some, get_or, ltb, count,
}
use content_chain.Shared.Enums.{completed, failed}
use content_chain.Shared.Exception.{
  DomainException, Outcome, returned, thrown, validation_failed, ◌>>=◌, Outcome-cases,
}
use content_chain.Shared.Actor.{AuthUserContext, Env}
use content_chain.Guest.Quota.{RedisClient}
use content_chain.Runs.Record.{RunRow, RunSnapshot, Table, to_snapshot}
use content_chain.Runs.Prisma.{PrismaClient, DistinctIds}
use content_chain.Runs.Rows.{row, row-at_key, count-has_id, at_key}
use content_chain.Runs.Repository.{
  get_by_id, save_rating, save_finalized_at, set_rating, set_finalized, is_unfinalized,
}
use content_chain.Runs.World.{World}
use content_chain.Runs.Review.{
  is_rating, is_review_window_open, compute_review_expires_at, assert_run_reviewable, rate_run,
  finalize_review,
}

abbrev pub is_before : ℕ → Option ℕ → Bool
is_before now none = false
is_before now (some at) = ltb now at

-- The window is open exactly as long as there is an expiry date and the clock is before it.
pub is_review_window_open-compute_review_expires_at :
    (finished finalized : Option ℕ) (now ttl : ℕ)
    → is_review_window_open finished finalized now ttl
      ≡ is_before now (compute_review_expires_at finished finalized ttl)
unfolding is_review_window_open compute_review_expires_at
is_review_window_open-compute_review_expires_at none none now ttl = refl
is_review_window_open-compute_review_expires_at none (some z) now ttl = refl
is_review_window_open-compute_review_expires_at (some f) none now ttl = refl
is_review_window_open-compute_review_expires_at (some f) (some z) now ttl = refl

-- A run whose review the caller may change.
abbrev pub IsReviewable : Option RunSnapshot → ℕ → ℕ → ℕ → RunSnapshot → Type 0
IsReviewable found actor now ttl s =
    (found ≡ some s)
    × ((s.status ≡ completed) ⊎ (s.status ≡ failed))
    × (s.started_by_user_id ≡ some actor)
    × (s.review_finalized_at ≡ none)
    × ((at : ℕ) × (s.pipeline_finished_at ≡ some at) × (now < at + ttl))

pub assert_run_reviewable_sound :
    (found : Option RunSnapshot) (actor now ttl : ℕ) (s : RunSnapshot)
    → assert_run_reviewable found actor now ttl ≡ returned s
    → IsReviewable found actor now ttl s
unfolding assert_run_reviewable is_review_window_open
assert_run_reviewable_sound none actor now ttl s e = cc
assert_run_reviewable_sound (some r) actor now ttl s e = (
  ground arith,
  ground arith,
  ground arith,
  ground arith,
  (get_or s.pipeline_finished_at 0, ground arith, ground arith),
)

-- The check hands on a run exactly when it is stored, has completed or failed, was started by the
-- caller, and is not finalized, and its review window has not closed.
pub assert_run_reviewable_iff :
    (found : Option RunSnapshot) (actor now ttl : ℕ) (s : RunSnapshot)
    → (assert_run_reviewable found actor now ttl ≡ returned s) ↔ IsReviewable found actor now ttl s
unfolding assert_run_reviewable is_review_window_open
assert_run_reviewable_iff found actor now ttl s = (
  assert_run_reviewable_sound found actor now ttl s,
  λ (e, over, owner, unlocked, (at, ended, early)).
      rw (e, owner, unlocked, ended) (ground (arith, ==_refl actor)),
)

module _ (db : PrismaClient) where
  save_rating_lem :
      (id : ℕ) (rating : Option ℕ) (t : Table)
      → save_rating db id rating t ≡ (
        count (is_unfinalized id) t == 1,
        at_key id (λ r. not (is_some r.review_finalized_at)) (set_rating rating) t,
      )
  unfolding save_rating
  save_rating_lem id rating t =
      rw (db.update_many_lem (is_unfinalized id) (set_rating rating) t) refl

  save_finalized_at_lem :
      (id at : ℕ) (t : Table)
      → save_finalized_at db id at t ≡ (
        count (is_unfinalized id) t == 1,
        at_key id (λ r. not (is_some r.review_finalized_at)) (set_finalized at) t,
      )
  unfolding save_finalized_at
  save_finalized_at_lem id at t =
      rw (db.update_many_lem (is_unfinalized id) (set_finalized at) t) refl

  finalized_at_of :
      (id : ℕ) (t : Table) (r : RunRow) (s : RunSnapshot)
      → row id t ≡ some r
      → get_by_id db id t ≡ returned (some s)
      → s.review_finalized_at ≡ r.review_finalized_at
  unfolding get_by_id to_snapshot
  finalized_at_of id t r s e h = ground (arith, db.find_unique_lem id t)

  -- A conditional update on a finalized review updates no row.
  module _ (id z : ℕ) (t : Table) (r : RunRow) (d : DistinctIds t) (e : row id t ≡ some r)
      (locked : r.review_finalized_at ≡ some z) where
    none_unfinalized : count (is_unfinalized id) t ≡ 0
    none_unfinalized =
        count-has_id (λ x. not (is_some x.review_finalized_at)) id t r d e ∙ rw locked refl

    pub save_rating_locked :
        (rating : Option ℕ)
        → ((save_rating db id rating t).0 ≡ false)
          × (row id (save_rating db id rating t).1 ≡ some r)
    save_rating_locked rating = rw (save_rating_lem id rating t) (
      rw none_unfinalized refl,
      ground (
        arith,
        row-at_key id (λ x. not (is_some x.review_finalized_at)) (set_rating rating) (λ x. refl) id
            t,
      ),
    )

    pub save_finalized_at_locked :
        (at : ℕ)
        → ((save_finalized_at db id at t).0 ≡ false)
          × (row id (save_finalized_at db id at t).1 ≡ some r)
    save_finalized_at_locked at = rw (save_finalized_at_lem id at t) (
      rw none_unfinalized refl,
      ground (
        arith,
        row-at_key id (λ x. not (is_some x.review_finalized_at)) (set_finalized at) (λ x. refl) id
            t,
      ),
    )

module _ (db : PrismaClient) (redis : RedisClient) (env : Env) (now id z : ℕ)
    (actor : AuthUserContext) (w : World) (r : RunRow) (e : row id w.table ≡ some r)
    (locked : r.review_finalized_at ≡ some z) where
  check : Outcome RunSnapshot
  check =
      get_by_id db id w.table >>= λ found. assert_run_reviewable found actor.id now env.review_ttl

  check_fails : (o : DomainException) × (check ≡ thrown o)
  unfolding check
  check_fails = elim (Outcome-cases check) [
    | inl refused ↦ refused
    | inr (s, passed) ↦ elim (Outcome-cases (get_by_id db id w.table)) [
      | inl (x, rejected) ↦ ground arith
      | inr (found, read) ↦
          let (same, _, _, open_review, _) =
            assert_run_reviewable_sound found actor.id now env.review_ttl s (ground arith) in
          ground (arith, finalized_at_of db id w.table r s e)
    ]
  ]

  finalize_review_fails :
      (x : DomainException)
      → check ≡ thrown x
      → finalize_review db redis env now id actor w ≡ (thrown x, w)
  unfolding finalize_review check
  finalize_review_fails x h = elim (Outcome-cases (get_by_id db id w.table)) [
    | inl (y, rejected) ↦ ground arith
    | inr (found, read) ↦ ground arith
  ]

  rate_run_fails :
      (rating : Option ℕ) (x : DomainException)
      → check ≡ thrown x
      → (y : DomainException) × (rate_run db redis env now id rating actor w ≡ (thrown y, w))
  unfolding rate_run check
  rate_run_fails rating x h = elim (Bool-cases (is_rating rating)) [
    | inr bad ↦ (record { code = validation_failed; http_status = 400 }, rw bad refl)
    | inl fine ↦ (
      x,
      elim (Outcome-cases (get_by_id db id w.table)) [
        | inl (y, rejected) ↦ rw fine (ground arith)
        | inr (found, read) ↦ rw fine (ground arith)
      ],
    )
  ]

  -- Once the review of a stored run is finalized, a rating and a second finalization both throw,
  -- and change nothing, not even the guest's rating quota.
  pub review_stays_finalized :
      (rating : Option ℕ)
      → ((x : DomainException) × (rate_run db redis env now id rating actor w ≡ (thrown x, w)))
        × ((x : DomainException) × (finalize_review db redis env now id actor w ≡ (thrown x, w)))
  review_stays_finalized rating =
      let (x, fails) = check_fails in
      (rate_run_fails rating x fails, (x, finalize_review_fails x fails))
