-- ===== src/Guest/Quota/Laws.antt =====
-- What one admission does to its counter, and how many a day's cap lets through.
use content_chain.Prelude.{
  ℕ, suc, ◌+◌, ◌≤◌, max, ◌≡◌, refl, sym, ap, ◌∙◌, ◌≢◌, ◌⊎◌, inl, inr, true, List, [], ◌∷◌, Option,
  none, some, arith, ==_refl, Bool-cases, Option-cases,
}
use content_chain.Prelude.Int.{ℤ, pos, increment, decrement, ltb_ℤ, is_one}
use content_chain.Guest.Quota.{
  Key, runs, ratings, same_key, Counters, RedisClient, GuestQuotaAdmitResult, ok, exceeded,
  unavailable, ms_until_next_midnight, expire_first, refuse, judge, try_incr, utc_date_key,
  try_admit_daily_run, release_daily_run, released,
}

same_key_refl : (k : Key) → same_key k k ≡ true
same_key_refl (runs d) = ==_refl d
same_key_refl (ratings u d) = ground (arith, ==_refl u, ==_refl d)

-- The number of admissions that are let through, of those asked for at the given times; each call
-- comes with the client as it answers that call.
pub admissions : Key → ℕ → List (RedisClient × ℕ) → Counters → ℕ
admissions k cap [] c = 0
admissions k cap ((redis, now) ∷ later) c =
    let (a, c') = try_incr redis k cap now c in
    let rest = admissions k cap later c' in
    elim a [ ok ↦ suc rest | exceeded ↦ rest | unavailable ↦ rest ]

module _ (redis : RedisClient) (k : Key) (cap : ℕ) where
  value-incr : (c d : Counters) → redis.incr k c ≡ some d → d k ≡ increment (c k)
  value-incr c d e = ap (λ (f : Counters). f k) (redis.incr_lem k c d e) ∙ rw (same_key_refl k) refl

  pub value-decr : (c d : Counters) → redis.decr k c ≡ some d → d k ≡ decrement (c k)
  value-decr c d e = ap (λ (f : Counters). f k) (redis.decr_lem k c d e) ∙ rw (same_key_refl k) refl

  expire_first-cases :
      (now : ℕ) (c : Counters)
      → (expire_first redis k now c ≡ none) ⊎ (expire_first redis k now c ≡ some c)
  unfolding expire_first
  expire_first-cases now c = elim (Bool-cases (is_one (c k))) [
    | inr more ↦ rw more (inr refl)
    | inl one ↦ rw one (elim (Option-cases (redis.pexpire k (ms_until_next_midnight now) c)) [
      | inl failed ↦ inl failed
      | inr (d, done) ↦ inr (done ∙ ap some (redis.pexpire_lem k _ c d done))
    ])
  ]

  -- The counter stood at `n`; what an admission may answer, with the counter then.
  abbrev Counts : ℕ → GuestQuotaAdmitResult × Counters → Type 0
  Counts n (a, c) =
      (m : ℕ) × (c k ≡ pos m)
      × (((a ≡ ok) × (m ≡ n + 1) × (m ≤ cap)) ⊎ ((a ≢ ok) × (n ≤ m) × (m ≤ n + 1)))

  refuse-Counts :
      (n : ℕ) (d : Counters) → d k ≡ pos (suc n) → Counts n (refuse redis k d (redis.decr k d))
  unfolding refuse
  refuse-Counts n d up = elim (Option-cases (redis.decr k d)) [
    | inl failed ↦ rw failed (suc n, up, inr (λ x. cc, omega arith, omega arith))
    | inr (u, down) ↦
        rw down (n, value-decr d u down ∙ ap decrement up, inr (λ x. cc, omega arith, omega arith))
  ]

  judge-Counts :
      (n : ℕ) (value : ℤ) (d : Counters) (o : Option Counters)
      → value ≡ pos (suc n)
      → d k ≡ pos (suc n)
      → (o ≡ none) ⊎ (o ≡ some d)
      → Counts n (judge redis k cap value d o)
  unfolding judge
  judge-Counts n value d o v up (inl failed) =
      rw failed (suc n, up, inr (λ x. cc, omega arith, omega arith))
  judge-Counts n value d o v up (inr done) =
      rw (done, v)
        (elim (Bool-cases (ltb_ℤ (pos cap) (pos (suc n)))) [
          | inr within ↦ rw within (suc n, up, inl (refl, omega arith, ground arith))
          | inl over ↦ rw over (refuse-Counts n d up)
        ])

  -- From a counter that is not negative, an admission lets the caller through only when the
  -- counter, counted up, is within the cap. It leaves the counter as it was or one higher, and one
  -- higher when it lets the caller through.
  pub try_incr-Counts :
      (now n : ℕ) (c : Counters)
      → c k ≡ pos n
      → let (a, d) = try_incr redis k cap now c in
        (m : ℕ) × (d k ≡ pos m)
        × (((a ≡ ok) × (m ≡ n + 1) × (m ≤ cap)) ⊎ ((a ≢ ok) × (n ≤ m) × (m ≤ n + 1)))
  unfolding try_incr
  try_incr-Counts now n c e = elim (Option-cases (redis.incr k c)) [
    | inl failed ↦ rw failed (n, e, inr (λ x. cc, omega arith, omega arith))
    | inr (d, counted_up) ↦
        let up : d k ≡ pos (suc n) = value-incr c d counted_up ∙ ap increment e in
        rw counted_up (judge-Counts n (d k) d _ up up (expire_first-cases now d))
  ]

module _ (k : Key) (cap : ℕ) where
  admissions_from :
      (calls : List (RedisClient × ℕ)) (n : ℕ) (c : Counters)
      → c k ≡ pos n
      → admissions k cap calls c + n ≤ max cap n
  unfolding admissions
  admissions_from [] n c e = omega arith
  admissions_from ((redis, now) ∷ later) n c e =
      let (m, e', outcome) = try_incr-Counts redis k cap now n c e in
      ground (arith, admissions_from later m (try_incr redis k cap now c).1 e')

  -- From a counter at zero, at whatever times the calls come, and whichever commands Redis rejects
  -- in each of them, a day's cap lets at most its number of admissions through, as long as the
  -- counter is changed by admissions alone: no admission is given back, and the key does not expire.
  pub admissions-le-cap :
      (calls : List (RedisClient × ℕ)) (c : Counters) → c k ≡ pos 0 → admissions k cap calls c ≤ cap
  admissions-le-cap calls c e = omega (arith, admissions_from calls 0 c e)

try_incr_ok :
    (redis : RedisClient) (k : Key) (cap now n : ℕ) (c d : Counters)
    → c k ≡ pos n
    → try_incr redis k cap now c ≡ (ok, d)
    → d k ≡ pos (suc n)
try_incr_ok redis k cap now n c d e let_in =
    let (m, at_m, why) = try_incr-Counts redis k cap now n c e in
    let first : (try_incr redis k cap now c).0 ≡ ok = rw let_in refl in
    let last : d k ≡ pos m =
      ap (λ (p : GuestQuotaAdmitResult × Counters). p.1 k) (sym let_in) ∙ at_m in
    elim why [
      | inl (_, up, _) ↦ last ∙ ap pos (omega (arith, up))
      | inr (refused, _, _) ↦ absurd (refused first)
    ]

-- An admission that is given back on the same day leaves the day's counter as it was, provided that
-- Redis counts down.
pub release_daily_run-try_admit_daily_run :
    (redis : RedisClient) (cap now later n : ℕ) (c d e : Counters)
    → utc_date_key later ≡ utc_date_key now
    → c (runs (utc_date_key now)) ≡ pos n
    → try_admit_daily_run redis cap now c ≡ (ok, d)
    → redis.decr (runs (utc_date_key now)) d ≡ some e
    → release_daily_run redis later d (runs (utc_date_key now)) ≡ pos n
unfolding release_daily_run try_admit_daily_run released
release_daily_run-try_admit_daily_run redis cap now later n c d e same at_n let_in down =
    let up = try_incr_ok redis (runs (utc_date_key now)) cap now n c d at_n let_in in
    rw (same, down) (value-decr redis (runs (utc_date_key now)) cap d e down ∙ ap decrement up)
