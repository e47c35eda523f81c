-- ===== src/Gateway/Resilience.antt =====
-- apps/ai-provider-gateway/src/chat/resilience and chat/helpers/retry-policy.ts: a call of a model,
-- with retries, exponential backoff, a deadline for each attempt, and a second model to fall back on.
pub mod Laws
use Prim.Native.String.{String}
use content_chain.Prelude.{
  ℕ, zero, suc, ◌+◌, ◌-◌, ◌*◌, ◌^◌, min, ◌≡◌, Bool, true, false, not, ◌&&◌, List, [], ◌∷◌, Option,
  none, some, if◌then◌else◌, ◌==◌, ltb, get_or, includes,
}

-- What is thrown: an HttpException with its status and whether its response has a `code`, or
-- another value.
pub data Failure : Type 0 where
  http_exception : ℕ → Bool → Failure
  other_error : String → Failure

pub record RetryPolicy : Type 0 where
  pub max_attempts : ℕ
  pub on_status : List ℕ
  pub timeout_ms : Option ℕ
  pub initial_delay_ms : Option ℕ
  pub max_delay_ms : Option ℕ

-- RETRY_POLICY_DEFAULTS.
abbrev pub default_on_status : List ℕ
default_on_status = 429 ∷ 500 ∷ 502 ∷ 503 ∷ 504 ∷ []

abbrev pub retry_policy_defaults : RetryPolicy
retry_policy_defaults = record {
  max_attempts = 3;
  on_status = default_on_status;
  timeout_ms = some 30000;
  initial_delay_ms = some 500;
  max_delay_ms = some 8000;
}

-- The policy of a model as it is configured, each part of it optional.
unfoldable pub build_retry_policy_from_resolved :
    Option ℕ → Option (List ℕ) → Option ℕ → RetryPolicy
build_retry_policy_from_resolved attempts statuses timeout = record retry_policy_defaults {
  max_attempts = get_or attempts 3;
  on_status = get_or statuses default_on_status;
  timeout_ms = elim timeout [ none ↦ some 30000 | some t ↦ some t ];
}

unfoldable pub is_retryable_http_error : Failure → List ℕ → Bool
is_retryable_http_error (other_error message) statuses = false
is_retryable_http_error (http_exception status code) statuses = includes statuses status

unfoldable pub compute_backoff_delay_ms : ℕ → RetryPolicy → ℕ
compute_backoff_delay_ms attempt retry =
    min (get_or retry.max_delay_ms 8000) (get_or retry.initial_delay_ms 500 * 2 ^ (attempt - 1))

pub data Answer (A : Type 0) : Type 0 where
  answered : A → Answer A
  failed_with : Failure → Answer A

-- The error of a deadline: PROVIDER_TIMEOUT, 504.
abbrev pub timed_out : Failure
timed_out = http_exception 504 true

-- A call settles after a time; against a deadline it has until then. The deadline 0 is none.
abbrev pub run_with_timeout : {A : Type 0} → Option ℕ → ℕ × Answer A → ℕ × Answer A
run_with_timeout none (takes, answer) = (takes, answer)
run_with_timeout (some zero) (takes, answer) = (takes, answer)
run_with_timeout (some (suc t)) (takes, answer) =
    if ltb takes (suc t) then (takes, answer) else (suc t, failed_with timed_out)

-- The result of the attempts on one model: the value or the last error, the number of attempts, the
-- time that passed with the waits between them, and the providers' state then.
pub record AttemptResult (A W : Type 0) : Type 0 where
  pub outcome : Option (Answer A)
  pub attempts : ℕ
  pub spent : ℕ
  pub world : W

-- The response of a request: what the caller gets or is thrown.
pub data Execution (A : Type 0) : Type 0 where
  -- The value, the model that gave it, the attempts in all, and whether it is the fallback.
  executed : A → ℕ → ℕ → Bool → Execution A
  refused : Failure → Execution A

-- Who fails over to itself gets VALIDATION_FAILED, 400.
unfoldable pub assert_no_fallback_cycle : ℕ → Option ℕ → Option Failure
assert_no_fallback_cycle primary none = none
assert_no_fallback_cycle primary (some fallback) =
    if fallback == primary then some (http_exception 400 true) else none

-- The error when both models have failed: that of the primary if it has a code, else
-- PROVIDER_UNAVAILABLE, 502.
unfoldable pub to_exhausted_exception : {A : Type 0} → Option (Answer A) → Failure
to_exhausted_exception (some (failed_with (http_exception status true))) =
    http_exception status true
to_exhausted_exception _ = http_exception 502 true

-- `throw primary.error`; without an attempt there is no error to name.
abbrev pub last_error : {A : Type 0} → Option (Answer A) → Failure
last_error (some (failed_with e)) = e
last_error _ = other_error "undefined"

module _ {A W : Type 0} (run_once : ℕ → ℕ → W → (ℕ × Answer A) × W) (retry : RetryPolicy) where
  -- A round stops with a value, or at an error that is not retried.
  go_on : Answer A → AttemptResult A W → AttemptResult A W → AttemptResult A W
  go_on (answered v) stop rest = stop
  go_on (failed_with e) stop rest = if is_retryable_http_error e retry.on_status then rest else stop

  -- The loop of `tryAlias`, with the attempts that are left, the number of the next one, and the
  -- last error.
  unfoldable pub try_from : ℕ → ℕ → ℕ → Option (Answer A) → ℕ → W → AttemptResult A W
  unfolding go_on
  try_from alias zero attempt last spent w = record {
    outcome = last;
    attempts = attempt - 1;
    spent = spent;
    world = w;
  }
  try_from alias (suc left) attempt last spent w =
      let (call, w') = run_once alias attempt w in
      let (takes, answer) = run_with_timeout retry.timeout_ms call in
      let wait = if left == 0 then 0 else compute_backoff_delay_ms attempt retry in
      let rest = try_from alias left (suc attempt) (some answer) (spent + takes + wait) w' in
      let stop : AttemptResult A W = record {
        outcome = some answer;
        attempts = attempt;
        spent = spent + takes;
        world = w';
      } in
      go_on answer stop rest

  unfoldable pub try_alias : ℕ → W → AttemptResult A W
  try_alias alias w = try_from alias retry.max_attempts 1 none 0 w

  -- What follows the attempts on the fallback.
  settle_fallback : ℕ → AttemptResult A W → AttemptResult A W → Option (Answer A) → Execution A
  settle_fallback alias primary fallback (some (answered v)) =
      executed v alias (primary.attempts + fallback.attempts) true
  settle_fallback alias primary fallback _ = refused (to_exhausted_exception primary.outcome)

  -- What follows the attempts on the primary.
  settle : ℕ → Option ℕ → AttemptResult A W → Option (Answer A) → Execution A × AttemptResult A W
  unfolding settle_fallback
  settle alias fallback primary (some (answered v)) =
      (executed v alias primary.attempts false, primary)
  settle alias none primary last = (refused (last_error last), primary)
  settle alias (some other) primary last =
      let second = try_alias other primary.world in
      (
        settle_fallback other primary second second.outcome,
        record second {
          attempts = primary.attempts + second.attempts;
          spent = primary.spent + second.spent;
        },
      )

  checked : ℕ → Option ℕ → W → Option Failure → Execution A × AttemptResult A W
  unfolding settle
  checked alias fallback w (some e) =
      (refused e, record { outcome = none; attempts = 0; spent = 0; world = w })
  checked alias fallback w none =
      let primary = try_alias alias w in settle alias fallback primary primary.outcome

  -- The response, with the attempts and the time in all.
  unfoldable pub execute_with_retry_and_fallback :
      ℕ → Option ℕ → W → Execution A × AttemptResult A W
  unfolding checked
  execute_with_retry_and_fallback alias fallback w =
      checked alias fallback w (assert_no_fallback_cycle alias fallback)
