-- ===== src/Shared/Exception.antt =====
-- apps/api/src/shared/exceptions/domain.exception.ts: an exception is a code and a status.
-- Errors of other classes that the code tells apart are codes too.
-- A call that may throw returns an `Outcome`; state that was written before a throw stays written.
use Prim.Native.String.{String}
use content_chain.Prelude.{◌⊎◌, inl, inr, ℕ, ◌≡◌, refl, Bool, true, false, List, Option}

-- An entry of `details`.
pub record Issue : Type 0 where
  pub path : String
  pub message : String

pub data ErrorCode : Type 0 where
  conflict run_not_found run_not_reviewable forbidden review_locked : ErrorCode
  run_not_cancelable hitl_required hitl_invalid_selection : ErrorCode
  guest_type_not_allowed guest_type_quota_exceeded guest_global_quota_exceeded : ErrorCode
  too_many_requests context_incomplete validation_failed : ErrorCode
  -- The message and the details of an answer that is not what was asked for.
  structured_output_invalid : String → List Issue → ErrorCode
  -- An LlmGatewayError, by its `gatewayCode` and `retryable`.
  gateway_error : Option String → Bool → ErrorCode
  -- An error with the name AbortError.
  abort_error : ErrorCode
  -- Another `Error`, such as one thrown by the database client.
  plain_error : ErrorCode

pub record DomainException : Type 0 where
  pub code : ErrorCode
  pub http_status : ℕ

-- apps/api/src/shared/llm/is-abort-error.ts
abbrev pub is_abort_error : DomainException → Bool
is_abort_error e = elim e.code [ abort_error ↦ true | _ ↦ false ]

pub data Outcome {ℓ} (A : Type ℓ) : Type ℓ where
  returned : A → Outcome A
  thrown : DomainException → Outcome A

abbrev pub throw {ℓ} : {A : Type ℓ} → ErrorCode → ℕ → Outcome A
throw c n = thrown (record { code = c; http_status = n })

-- `if (!ok) throw new DomainException(...)`
abbrev pub require : Bool → ErrorCode → ℕ → Outcome (Unit {0})
require true c n = returned tt
require false c n = throw c n

-- A client call that rejects, with no status of its own.
abbrev pub rejected {ℓ} : {A : Type ℓ} → Outcome A
rejected = throw plain_error 500

infixl 5 ◌>>=◌ ◌>>◌
abbrev pub ◌>>=◌ {ℓ κ} : {A : Type ℓ} {B : Type κ} → Outcome A → (A → Outcome B) → Outcome B
returned a >>= f = f a
thrown e >>= f = thrown e

abbrev pub ◌>>◌ {κ} : {B : Type κ} → Outcome (Unit {0}) → Outcome B → Outcome B
m >> k = m >>= λ _. k

pub Outcome-cases {ℓ} :
    {A : Type ℓ} (o : Outcome A)
    → ((e : DomainException) × (o ≡ thrown e)) ⊎ ((a : A) × (o ≡ returned a))
Outcome-cases (thrown e) = inl (e, refl)
Outcome-cases (returned a) = inr (a, refl)
