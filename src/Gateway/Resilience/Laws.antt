-- ===== src/Gateway/Resilience/Laws.antt =====
-- How often a model is called and how long that takes at most, and when the attempts stop.
use content_chain.Prelude.{
  ℕ, zero, suc, ◌+◌, ◌-◌, ◌*◌, ◌≤◌, ◌≡◌, refl, ap, ◌⊎◌, inl, inr, true, false, Option, none, some,
  arith, if◌then◌else◌, ◌==◌, ==_refl, Bool-cases, get_or,
}
use content_chain.Gateway.Resilience.{
  http_exception, RetryPolicy, is_retryable_http_error, compute_backoff_delay_ms, Answer, answered,
  failed_with, run_with_timeout, AttemptResult, go_on, refused, assert_no_fallback_cycle, try_from,
  try_alias, settle, checked, execute_with_retry_and_fallback,
}

abbrev pub longest_wait : RetryPolicy → ℕ
longest_wait retry = get_or retry.max_delay_ms 8000

compute_backoff_delay_ms-le :
    (attempt : ℕ) (retry : RetryPolicy)
    → compute_backoff_delay_ms attempt retry ≤ longest_wait retry
unfolding compute_backoff_delay_ms
compute_backoff_delay_ms-le attempt retry = omega arith

run_with_timeout-le :
    {A : Type 0} (t : ℕ) (call : ℕ × Answer A) → (run_with_timeout (some (suc t)) call).0 ≤ suc t
run_with_timeout-le t (takes, answer) = ground arith

-- Why the attempts ended with no value: none was left, or the last error is one that is not retried.
abbrev pub Ended : {A : Type 0} → RetryPolicy → ℕ → ℕ → Option (Answer A) → Type 0
Ended retry most n (some (answered v)) = Unit
Ended retry most n (some (failed_with e)) =
    (n ≡ most) ⊎ (is_retryable_http_error e retry.on_status ≡ false)
Ended retry most n none = n ≡ most

module _ {A W : Type 0} (run_once : ℕ → ℕ → W → (ℕ × Answer A) × W) (retry : RetryPolicy) where
  abbrev call_at : ℕ → ℕ → W → ℕ × Answer A
  call_at alias attempt w = run_with_timeout retry.timeout_ms (run_once alias attempt w).0

  abbrev wait_at : ℕ → ℕ → ℕ
  wait_at left attempt = if left == 0 then 0 else compute_backoff_delay_ms attempt retry

  abbrev rest_at : ℕ → ℕ → ℕ → ℕ → W → AttemptResult A W
  rest_at alias left attempt spent w =
      let (takes, answer) = call_at alias attempt w in
      try_from run_once retry alias left (suc attempt) (some answer)
        (spent + takes + wait_at left attempt) (run_once alias attempt w).1

  abbrev stop_at : ℕ → ℕ → ℕ → W → AttemptResult A W
  stop_at alias attempt spent w =
      let (takes, answer) = call_at alias attempt w in
      record {
        outcome = some answer;
        attempts = attempt;
        spent = spent + takes;
        world = (run_once alias attempt w).1;
      }

  wait_at-le : (left attempt : ℕ) → wait_at left attempt ≤ longest_wait retry
  wait_at-le left attempt = ground (arith, compute_backoff_delay_ms-le attempt retry)

  -- One round of the loop stops with its answer, or goes on after a retryable error.
  abbrev Round : ℕ → ℕ → ℕ → ℕ → W → AttemptResult A W → Type 0
  Round alias left attempt spent w r =
      let (takes, answer) = call_at alias attempt w in
      ((r.outcome ≡ some answer)
        × (r.attempts ≡ attempt)
        × (r.spent ≡ spent + takes)
        × ((n : ℕ) → Ended retry n attempt (some answer)))
      ⊎ (r ≡ rest_at alias left attempt spent w)

  go_on-cases :
      (answer : Answer A) (stop rest : AttemptResult A W)
      → ((go_on run_once retry answer stop rest ≡ stop)
          × ((n m : ℕ) → Ended retry n m (some answer)))
        ⊎ (go_on run_once retry answer stop rest ≡ rest)
  unfolding go_on
  go_on-cases (answered v) stop rest = inl (refl, λ n m. tt)
  go_on-cases (failed_with x) stop rest =
      elim (Bool-cases (is_retryable_http_error x retry.on_status)) [
        | inl again ↦ inr (rw again refl)
        | inr over ↦ inl (rw over refl, λ n m. inr over)
      ]

  round :
      (alias left attempt spent : ℕ) (last : Option (Answer A)) (w : W)
      → Round alias left attempt spent w
          (try_from run_once retry alias (suc left) attempt last spent w)
  unfolding try_from
  round alias left attempt spent last w =
      elim (go_on-cases (call_at alias attempt w).1 (stop_at alias attempt spent w)
        (rest_at alias left attempt spent w)) [
          | inr on ↦ inr on
          | inl (stops, why) ↦ inl (
            ap (λ r. r.outcome) stops,
            ap (λ r. r.attempts) stops,
            ap (λ r. r.spent) stops,
            λ n. why n attempt,
          )
        ]

  -- The most time that a number of attempts takes: the deadlines, and a wait between two attempts.
  abbrev pub longest : ℕ → ℕ → ℕ
  longest t zero = 0
  longest t (suc zero) = t
  longest t (suc (suc n)) = t + longest_wait retry + longest t (suc n)

  try_from-spent :
      (alias left attempt t spent : ℕ) (last : Option (Answer A)) (w : W)
      → retry.timeout_ms ≡ some (suc t)
      → (try_from run_once retry alias left attempt last spent w).spent
        ≤ spent + longest (suc t) left
  unfolding try_from
  try_from-spent alias zero attempt t spent last w e = omega arith
  try_from-spent alias (suc left) attempt t spent last w e =
      let in_time : (call_at alias attempt w).0 ≤ suc t = rw e (run_with_timeout-le t _) in
      elim (round alias left attempt spent last w) [
        | inl (_, _, at, _) ↦ more left at in_time
        | inr on ↦ rw on (
            go left in_time
              (try_from-spent alias left (suc attempt) t _ _ (run_once alias attempt w).1 e))
      ]
    where
      more :
          (n : ℕ) {r takes : ℕ}
          → r ≡ spent + takes
          → takes ≤ suc t
          → r ≤ spent + longest (suc t) (suc n)
      more zero at h = omega (arith, at, h)
      more (suc n) at h = omega (arith, at, h)

      go :
          (n : ℕ) {r takes : ℕ}
          → takes ≤ suc t
          → r ≤ spent + takes + wait_at n attempt + longest (suc t) n
          → r ≤ spent + longest (suc t) (suc n)
      go zero h k = omega (arith, h, k)
      go (suc n) h k = omega (arith, h, k, wait_at-le (suc n) attempt)

  try_from-attempts :
      (alias left attempt spent : ℕ) (last : Option (Answer A)) (w : W)
      → 1 ≤ attempt
      → let r = try_from run_once retry alias left attempt last spent w in
        r.attempts + 1 ≤ attempt + left
  unfolding try_from
  try_from-attempts alias zero attempt spent last w h = omega (arith, h)
  try_from-attempts alias (suc left) attempt spent last w h =
      elim (round alias left attempt spent last w) [
        | inl (_, at, _, _) ↦ omega (arith, at)
        | inr on ↦ rw on (
            omega (
              arith,
              h,
              try_from-attempts alias left (suc attempt) _ _ (run_once alias attempt w).1
                  (omega arith),
            ))
      ]

  ends_at : (a : Answer A) (n most : ℕ) → n ≡ most → Ended retry most n (some a)
  ends_at (answered v) n most e = tt
  ends_at (failed_with x) n most e = inl e

  try_from-Ended :
      (alias left attempt spent most : ℕ) (last : Option (Answer A)) (w : W)
      → most + 1 ≡ attempt + left
      → (left ≡ 0 → Ended retry most (attempt - 1) last)
      → let r = try_from run_once retry alias left attempt last spent w in
        Ended retry most r.attempts r.outcome
  unfolding try_from
  try_from-Ended alias zero attempt spent most last w h e = e refl
  try_from-Ended alias (suc left) attempt spent most last w h e =
      elim (round alias left attempt spent last w) [
        | inl (is, at, _, why) ↦ rw (is, at) (why most)
        | inr on ↦ rw on (
            try_from-Ended alias left (suc attempt) _ most _ (run_once alias attempt w).1
              (omega (arith, h))
              (λ none_left. ends_at _ (suc attempt - 1) most (omega (arith, h, none_left))))
      ]

  -- With a deadline, a model is tried at most as often as the policy says; when the attempts end
  -- without a value, they were as many as the policy allows, or the last error is one that is not
  -- retried; and no more time passes than the deadlines and the longest waits between attempts add
  -- up to.
  pub try_alias_bounds :
      (alias t : ℕ) (w : W)
      → retry.timeout_ms ≡ some (suc t)
      → let r = try_alias run_once retry alias w in
        (r.attempts ≤ retry.max_attempts)
        × Ended retry retry.max_attempts r.attempts r.outcome
        × (r.spent ≤ longest (suc t) retry.max_attempts)
  unfolding try_alias
  try_alias_bounds alias t w e = (
    omega (arith, try_from-attempts alias retry.max_attempts 1 0 none w (omega arith)),
    try_from-Ended alias retry.max_attempts 1 0 retry.max_attempts none w (omega arith)
        (λ h. omega (arith, h)),
    omega (arith, try_from-spent alias retry.max_attempts 1 t 0 none w e),
  )

  settle-le :
      (alias t : ℕ) (fallback : Option ℕ) (primary : AttemptResult A W) (last : Option (Answer A))
      → retry.timeout_ms ≡ some (suc t)
      → primary.attempts ≤ retry.max_attempts
      → primary.spent ≤ longest (suc t) retry.max_attempts
      → let (_, r) = settle run_once retry alias fallback primary last in
        (r.attempts ≤ 2 * retry.max_attempts) × (r.spent ≤ 2 * longest (suc t) retry.max_attempts)
  unfolding settle
  settle-le alias t fallback primary (some (answered v)) e p q =
      (omega (arith, p), omega (arith, q))
  settle-le alias t none primary none e p q = (omega (arith, p), omega (arith, q))
  settle-le alias t none primary (some (failed_with x)) e p q = (omega (arith, p), omega (arith, q))
  settle-le alias t (some other) primary none e p q =
      let (p', _, q') = try_alias_bounds other t primary.world e in
      (omega (arith, p, p'), omega (arith, q, q'))
  settle-le alias t (some other) primary (some (failed_with x)) e p q =
      let (p', _, q') = try_alias_bounds other t primary.world e in
      (omega (arith, p, p'), omega (arith, q, q'))

  -- With a deadline, a request makes at most twice the attempts of the policy, and takes at most
  -- twice the time of one model. A model that is its own fallback is refused with status 400, and
  -- no provider is called.
  pub execute_bounds :
      (alias t : ℕ) (fallback : Option ℕ) (w : W)
      → retry.timeout_ms ≡ some (suc t)
      → let (o, r) = execute_with_retry_and_fallback run_once retry alias fallback w in
        (r.attempts ≤ 2 * retry.max_attempts)
        × (r.spent ≤ 2 * longest (suc t) retry.max_attempts)
        × (fallback ≡ some alias → (o ≡ refused (http_exception 400 true)) × (r.world ≡ w))
  unfolding execute_with_retry_and_fallback checked assert_no_fallback_cycle
  execute_bounds alias t none w e =
      let (p, _, q) = try_alias_bounds alias t w e in
      let (p', q') = settle-le alias t none (try_alias run_once retry alias w) _ e p q in
      (p', q', λ h. cc)
  execute_bounds alias t (some other) w e = elim (Bool-cases (other == alias)) [
    | inl same ↦ rw same (omega arith, omega arith, λ h. (refl, refl))
    | inr differ ↦
        let (p, _, q) = try_alias_bounds alias t w e in
        let (p', q') = settle-le alias t (some other) (try_alias run_once retry alias w) _ e p q in
        rw differ (p', q', λ h. ground (arith, ==_refl alias))
  ]
