-- ===== src/Guest/Policy.antt =====
-- apps/api/src/runs/application/guest/guest-run-policy.service.ts.
pub mod Laws
use content_chain.Prelude.{
  ℕ, ◌≡◌, Bool, true, false, not, ◌&&◌, ◌||◌, List, [], ◌∷◌, Option, none, some, if◌then◌else◌,
  ◌==◌, leb, is_some,
}
use content_chain.Shared.Enums.{
  guest, same_role, RunStatus, completed, failed, cancelled, has_status, RunTaskType, post_ideas,
  page_copy, page_outline_then_copy, has_task_type,
}
use content_chain.Shared.Exception.{
  Outcome, returned, throw, require, forbidden, guest_type_not_allowed, guest_type_quota_exceeded,
  guest_global_quota_exceeded,
}
use content_chain.Shared.Actor.{AuthUserContext, Env}
use content_chain.Guest.Quota.{
  RedisClient, GuestQuotaAdmitResult, ok, exceeded, unavailable, try_admit_daily_run,
  release_daily_run,
}
use content_chain.Runs.Prisma.{PrismaClient}
use content_chain.Runs.Repository.{count_by_user_and_type}
use content_chain.Runs.World.{World, M, ◌>>=◌, ◌>>◌, return, lift, reading}

abbrev pub guest_task_types : List RunTaskType
guest_task_types = post_ideas ∷ page_copy ∷ page_outline_then_copy ∷ []

abbrev pub guest_archive_statuses : List RunStatus
guest_archive_statuses = completed ∷ failed ∷ cancelled ∷ []

abbrev pub is_guest : AuthUserContext → Bool
is_guest actor = same_role actor.role guest

-- What `admitStart` hands back: the right to give the day's admission back.
pub data GuestRunAdmit : Type 0 where
  releasable : GuestRunAdmit

abbrev ask_quota : RedisClient → ℕ → ℕ → M GuestQuotaAdmitResult
ask_quota redis cap now w =
    let (a, c) = try_admit_daily_run redis cap now w.quota in (returned a, record w { quota = c })

abbrev pub release : RedisClient → ℕ → M (Unit {0})
release redis now w = (returned tt, record w { quota = release_daily_run redis now w.quota })

admitted : GuestQuotaAdmitResult → Outcome (Option GuestRunAdmit)
admitted ok = returned (some releasable)
admitted _ = throw guest_global_quota_exceeded 403

-- `startedByUserId === actor.id`
abbrev pub is_owner : AuthUserContext → Option ℕ → Bool
is_owner actor none = false
is_owner actor (some u) = u == actor.id

module _ (db : PrismaClient) (redis : RedisClient) (env : Env) where
  -- The part of `admitStart` that is for guests of the demo.
  admit_guest : ℕ → AuthUserContext → RunTaskType → M (Option GuestRunAdmit)
  unfolding admitted
  admit_guest now actor type = do
    lift (require (has_task_type guest_task_types type) guest_type_not_allowed 403)
    used ← reading (λ t. returned (count_by_user_and_type db actor.id type t))
    lift (require (not (leb 1 used)) guest_type_quota_exceeded 403)
    a ← ask_quota redis env.guest_global_cap_per_day now
    lift (admitted a)

  unfoldable pub admit_start : ℕ → AuthUserContext → RunTaskType → M (Option GuestRunAdmit)
  unfolding admit_guest
  admit_start now actor type =
      if not (is_guest actor) || not env.demo_mode then return none else admit_guest now actor type

unfoldable pub assert_guest_owns_run : AuthUserContext → Option ℕ → Outcome (Unit {0})
assert_guest_owns_run actor by =
    if not (is_guest actor)
    then returned tt
    else (if is_owner actor by then returned tt else throw forbidden 403)

unfoldable pub assert_guest_can_read_run :
    AuthUserContext → Option ℕ → RunStatus → Outcome (Unit {0})
assert_guest_can_read_run actor by s =
    if not (is_guest actor)
    then returned tt
    else (if is_owner actor by
        then returned tt
        else (if is_some by && has_status guest_archive_statuses s
            then returned tt
            else throw forbidden 403))
