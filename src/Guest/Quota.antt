-- ===== src/Guest/Quota.antt =====
-- apps/api/src/runs/infrastructure/quota/ioredis-guest-quota.adapter.ts, over the counters of Redis.
-- A counter's key is its prefix with the day, and for ratings the user; a missing key counts as 0.
pub mod Laws
use content_chain.Prelude.{
  ℕ, ◌+◌, ◌-◌, ◌*◌, ◌/◌, max, ◌≡◌, Bool, true, false, ◌&&◌, Option, none, some, if◌then◌else◌, ◌==◌,
}
use content_chain.Prelude.Int.{ℤ, pos, increment, decrement, ltb_ℤ, is_one}

pub data Key : Type 0 where
  runs : ℕ → Key
  ratings : ℕ → ℕ → Key

abbrev pub same_key : Key → Key → Bool
same_key (runs d) (runs e) = d == e
same_key (ratings u d) (ratings v e) = u == v && d == e
same_key _ _ = false

abbrev pub Counters : Type 0
Counters = Key → ℤ

abbrev pub with_value : Key → ℤ → Counters → Counters
with_value k v c j = if same_key k j then v else c j

-- Redis: `none` is a command that is rejected, and is taken to have changed nothing.
pub record RedisClient : Type 0 where
  pub incr : Key → Counters → Option Counters
  pub decr : Key → Counters → Option Counters
  pub pexpire : Key → ℕ → Counters → Option Counters
  pub incr_lem :
      (k : Key) (c d : Counters) → incr k c ≡ some d → d ≡ with_value k (increment (c k)) c
  pub decr_lem :
      (k : Key) (c d : Counters) → decr k c ≡ some d → d ≡ with_value k (decrement (c k)) c
  pub pexpire_lem : (k : Key) (ms : ℕ) (c d : Counters) → pexpire k ms c ≡ some d → d ≡ c

pub data GuestQuotaAdmitResult : Type 0 where
  ok exceeded unavailable : GuestQuotaAdmitResult

abbrev pub day_ms : ℕ
day_ms = 86400000

-- `now.toISOString().slice(0, 10)` names the day of a date.
abbrev pub utc_date_key : ℕ → ℕ
utc_date_key now = now / day_ms

unfoldable pub ms_until_next_midnight : ℕ → ℕ
ms_until_next_midnight now = max 1 ((now / day_ms + 1) * day_ms - now)

module _ (redis : RedisClient) where
  -- `if (value === 1) await this.redis.pexpire(...)`
  expire_first : Key → ℕ → Counters → Option Counters
  expire_first k now c =
      if is_one (c k) then redis.pexpire k (ms_until_next_midnight now) c else some c

  -- `if (value > cap) { await this.redis.decr(key); return exceeded }`, with its `catch`.
  refuse : Key → Counters → Option Counters → GuestQuotaAdmitResult × Counters
  refuse k c none = (unavailable, c)
  refuse k c (some d) = (exceeded, d)

  judge : Key → ℕ → ℤ → Counters → Option Counters → GuestQuotaAdmitResult × Counters
  unfolding refuse
  judge k cap value c none = (unavailable, c)
  judge k cap value c (some d) =
      if ltb_ℤ (pos cap) value then refuse k d (redis.decr k d) else (ok, d)

  counted : Key → ℕ → ℕ → Counters → Option Counters → GuestQuotaAdmitResult × Counters
  unfolding judge expire_first
  counted k cap now c none = (unavailable, c)
  counted k cap now c (some d) = judge k cap (d k) d (expire_first k now d)

  unfoldable pub try_incr : Key → ℕ → ℕ → Counters → GuestQuotaAdmitResult × Counters
  unfolding counted
  try_incr k cap now c = counted k cap now c (redis.incr k c)

  unfoldable pub try_admit_daily_run : ℕ → ℕ → Counters → GuestQuotaAdmitResult × Counters
  try_admit_daily_run cap now c = try_incr (runs (utc_date_key now)) cap now c

  unfoldable pub try_admit_daily_rating : ℕ → ℕ → ℕ → Counters → GuestQuotaAdmitResult × Counters
  try_admit_daily_rating user cap now c = try_incr (ratings user (utc_date_key now)) cap now c

  released : Counters → Option Counters → Counters
  released c none = c
  released c (some d) = d

  unfoldable pub release_daily_run : ℕ → Counters → Counters
  unfolding released
  release_daily_run now c = released c (redis.decr (runs (utc_date_key now)) c)
