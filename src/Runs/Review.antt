-- ===== src/Runs/Review.antt =====
-- The review of a finished run: apps/api/src/runs/domain/review-window.ts, assert-run-reviewable.ts,
-- and in application/ rate-run.use-case.ts, finalize-review.use-case.ts and
-- auto-finalize-expired-reviews.use-case.ts. `now` is the clock.
pub mod Laws
pub mod Sweep
use content_chain.Prelude.{
  ℕ, ◌+◌, ◌≡◌, Bool, true, false, not, ◌&&◌, ◌||◌, Option, none, some, if◌then◌else◌, ◌==◌, ltb,
  leb,
}
use content_chain.Shared.Enums.{guest, same_role, RunStatus, completed, failed, same_status}
use content_chain.Shared.Exception.{
  Outcome, returned, throw, require, run_not_found, run_not_reviewable, forbidden, review_locked,
  too_many_requests, validation_failed,
}
use content_chain.Shared.Actor.{AuthUserContext, Env}
use content_chain.Guest.Quota.{
  RedisClient, GuestQuotaAdmitResult, exceeded, ok, unavailable, try_admit_daily_rating,
}
use content_chain.Guest.Policy.{is_owner}
use content_chain.Runs.Record.{RunRow, RunSnapshot}
use content_chain.Runs.Prisma.{PrismaClient}
use content_chain.Runs.Repository.{
  get_by_id, save_rating, save_finalized_at, finalize_expired_reviews,
}
use content_chain.Runs.World.{World, M, ◌>>=◌, ◌>>◌, return, lift, reading, try_update}

unfoldable pub is_review_window_open : Option ℕ → Option ℕ → ℕ → ℕ → Bool
is_review_window_open finished (some _) now ttl = false
is_review_window_open none none now ttl = false
is_review_window_open (some at) none now ttl = ltb now (at + ttl)

unfoldable pub compute_review_expires_at : Option ℕ → Option ℕ → ℕ → Option ℕ
compute_review_expires_at (some at) none ttl = some (at + ttl)
compute_review_expires_at _ _ ttl = none

-- The snapshot is handed on, as the assertion narrows its type.
unfoldable pub assert_run_reviewable : Option RunSnapshot → ℕ → ℕ → ℕ → Outcome RunSnapshot
assert_run_reviewable none actor now ttl = throw run_not_found 404
assert_run_reviewable (some s) actor now ttl =
    if not (same_status s.status completed || same_status s.status failed)
    then throw run_not_reviewable 409
    else (if not (is_owner (record { id = actor; role = guest }) s.started_by_user_id)
        then throw forbidden 403
        else (if is_review_window_open s.pipeline_finished_at s.review_finalized_at now ttl
            then returned s
            else throw review_locked 409))

pub record ReviewOutput : Type 0 where
  pub run_id : ℕ
  pub user_rating : Option ℕ
  pub review_finalized_at : Option ℕ
  pub pipeline_finished_at : Option ℕ
  pub review_expires_at : Option ℕ

-- `z.union([z.null(), z.number().int().min(1).max(5)])` on null or a whole number.
abbrev pub is_rating : Option ℕ → Bool
is_rating none = true
is_rating (some n) = leb 1 n && leb n 5

refuse_exceeded : GuestQuotaAdmitResult → Outcome (Unit {0})
refuse_exceeded exceeded = throw too_many_requests 429
refuse_exceeded _ = returned tt

module _ (db : PrismaClient) (redis : RedisClient) (env : Env) (now : ℕ) where
  ask_rating_quota : AuthUserContext → M (Unit {0})
  unfolding refuse_exceeded
  ask_rating_quota actor w =
      let (a, c) = try_admit_daily_rating redis actor.id env.guest_rating_cap_per_day now w.quota in
      (refuse_exceeded a, record w { quota = c })

  unfoldable pub rate_run : ℕ → Option ℕ → AuthUserContext → M ReviewOutput
  unfolding ask_rating_quota
  rate_run id rating actor = do
    lift (require (is_rating rating) validation_failed 400)
    found ← reading (get_by_id db id)
    run ← lift (assert_run_reviewable found actor.id now env.review_ttl)
    (if same_role actor.role guest && env.demo_mode then ask_rating_quota actor else return tt)
    won ← try_update (save_rating db id rating)
    lift (require won review_locked 409)
    return (record {
      run_id = run.id;
      user_rating = rating;
      review_finalized_at = none;
      pipeline_finished_at = run.pipeline_finished_at;
      review_expires_at = compute_review_expires_at run.pipeline_finished_at none env.review_ttl;
    })

  unfoldable pub finalize_review : ℕ → AuthUserContext → M ReviewOutput
  finalize_review id actor = do
    found ← reading (get_by_id db id)
    run ← lift (assert_run_reviewable found actor.id now env.review_ttl)
    won ← try_update (save_finalized_at db id now)
    lift (require won review_locked 409)
    return (record {
      run_id = run.id;
      user_rating = run.user_rating;
      review_finalized_at = some now;
      pipeline_finished_at = run.pipeline_finished_at;
      review_expires_at = none;
    })

  unfoldable pub auto_finalize_expired_reviews : M ℕ
  auto_finalize_expired_reviews w =
      let (n, t) = finalize_expired_reviews db now env.review_ttl w.table in
      (returned n, record w { table = t })
