-- ===== src/Guest/Policy/Laws.antt =====
-- The answers of `admitStart`.
use content_chain.Prelude.{ℕ, ◌≡◌, refl, Bool, true, false, not, ◌&&◌, ◌||◌, none, some, arith, leb}
use content_chain.Shared.Enums.{RunTaskType, has_task_type}
use content_chain.Shared.Exception.{
  returned, throw, guest_type_not_allowed, guest_type_quota_exceeded,
}
use content_chain.Shared.Actor.{AuthUserContext, Env}
use content_chain.Guest.Quota.{Counters, RedisClient, ok, try_admit_daily_run}
use content_chain.Guest.Policy.{
  guest_task_types, is_guest, releasable, admitted, admit_guest, admit_start,
}
use content_chain.Runs.Prisma.{PrismaClient}
use content_chain.Runs.Repository.{count_by_user_and_type}
use content_chain.Runs.World.{World}

-- The policy holds for guests of a server in demo mode.
abbrev pub is_limited : Env → AuthUserContext → Bool
is_limited env actor = is_guest actor && env.demo_mode

module _ (db : PrismaClient) (redis : RedisClient) (env : Env) (now : ℕ) (actor : AuthUserContext)
    (type : RunTaskType) (w : World) where
  abbrev pub used : ℕ
  used = count_by_user_and_type db actor.id type w.table

  pub admit_start_free :
      is_limited env actor ≡ false → admit_start db redis env now actor type w ≡ (returned none, w)
  unfolding admit_start
  admit_start_free free =
      let pass : (not (is_guest actor) || not env.demo_mode) ≡ true = ground arith in rw pass refl

  limited : is_limited env actor ≡ true → (not (is_guest actor) || not env.demo_mode) ≡ false
  limited demo = ground arith

  pub admit_start_bars :
      is_limited env actor ≡ true
      → has_task_type guest_task_types type ≡ false
      → admit_start db redis env now actor type w ≡ (throw guest_type_not_allowed 403, w)
  unfolding admit_start admit_guest
  admit_start_bars demo barred = rw (limited demo, barred) refl

  pub admit_start_limits :
      is_limited env actor ≡ true
      → has_task_type guest_task_types type ≡ true
      → leb 1 used ≡ true
      → admit_start db redis env now actor type w ≡ (throw guest_type_quota_exceeded 403, w)
  unfolding admit_start admit_guest
  admit_start_limits demo allowed again = rw (limited demo, allowed, again) refl

  pub admit_start_lets_in :
      (c : Counters)
      → is_limited env actor ≡ true
      → has_task_type guest_task_types type ≡ true
      → leb 1 used ≡ false
      → try_admit_daily_run redis env.guest_global_cap_per_day now w.quota ≡ (ok, c)
      → admit_start db redis env now actor type w
        ≡ (returned (some releasable), record w { quota = c })
  unfolding admit_start admit_guest admitted
  admit_start_lets_in c demo allowed first let_in = rw (limited demo, allowed, first, let_in) refl
