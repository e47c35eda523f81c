-- ===== src/Shared/Llm/Hop.antt =====
-- apps/api/src/shared/llm/llm-hop.ts: one question to the gateway, asked again while that may help.
pub mod Laws
use Prim.Native.String.{String, ◌++◌}
use content_chain.Prelude.{
  ℕ, zero, suc, ◌+◌, Bool, true, false, ◌||◌, not, List, [], ◌∷◌, Option, none, some, if◌then◌else◌,
  ◌==◌,
}
use content_chain.Shared.Exception.{
  Issue, structured_output_invalid, gateway_error, abort_error, plain_error, DomainException,
  is_abort_error, Outcome, returned, thrown, throw,
}
use content_chain.Shared.Llm.ParseJson.{Text, Schema, parse_llm_json}

abbrev pub max_gateway_attempts : ℕ
max_gateway_attempts = 3

-- `isHopRetryable`, with `isRetryable` of runs/domain/is-retryable.ts at a gateway's reason.
abbrev pub is_hop_retryable : DomainException → Bool
is_hop_retryable e = elim e.code [
  | structured_output_invalid message details ↦ true
  | gateway_error code retryable ↦ retryable
  | _ ↦ false
]

-- The last answer that was not what was asked for: its message and details.
abbrev pub ParseError : Type 0
ParseError = Option (String × List Issue)

abbrev pub last_parse_error : DomainException → ParseError → ParseError
last_parse_error e before = elim e.code [
  | structured_output_invalid message details ↦ some (message, details)
  | _ ↦ before
]

pub data LogLevel : Type 0 where
  info error : LogLevel

pub record HopLog : Type 0 where
  pub level : LogLevel
  pub message : String
  pub request_id : Option ℕ

-- The gateway, the log of runs, and what the code takes from the language's own library. A request
-- identifier is a number.
pub record HopServices (W : Type 0) : Type 0 where
  pub chat : String → W → Outcome (Text × ℕ) × W
  pub append_log : HopLog → W → Outcome (Unit {0}) × W
  -- `input.signal.aborted`
  pub is_aborted : W → Bool
  -- `String(n)` and `JSON.stringify(details)`
  pub number_text : ℕ → String
  pub stringify : List Issue → String
  -- `error.message` and, of a gateway's error, `error.gatewayRequestId`
  pub message_of : DomainException → String
  pub request_id_of : DomainException → Option ℕ

module _ {W : Type 0} (services : HopServices W) where
  abbrev issues_text : List Issue → String
  issues_text [] = ""
  issues_text (i ∷ is) = " Issues: " ++ services.stringify (i ∷ is) ++ "."

  unfoldable pub repair_suffix : String → List Issue → ℕ → String
  repair_suffix message details attempt =
      "\n\n---\nThe previous reply failed structured-output validation ("
      ++ message
      ++ ")."
      ++ issues_text details
      ++ " Return ONLY JSON that satisfies the original task. No markdown, no commentary. (repair "
      ++ services.number_text attempt
      ++ ")"

  unfoldable pub hop_user_content : String → ParseError → ℕ → String
  unfolding repair_suffix
  hop_user_content content none attempt = content
  hop_user_content content (some (message, details)) attempt =
      if attempt == 1 then content else content ++ repair_suffix message details attempt

  -- Errors of other classes have no message in the log.
  unfoldable pub hop_error_log_message : String → ℕ → DomainException → String
  hop_error_log_message step attempt e =
      let prefix =
        "LLM hop " ++ step ++ " failed (attempt " ++ services.number_text attempt ++ ")" in
      elim e.code [ plain_error ↦ prefix | _ ↦ prefix ++ ": " ++ services.message_of e ]

  module _ {Json A : Type 0} (schema : Schema Json A) (step content : String) where
    -- The answer of a round with the gateway's identifier of the request, as far as it came.
    abbrev pub HopRound : Type 0
    HopRound = Outcome (A × ℕ) × (Option ℕ × W)

    unfoldable pub logged : A → ℕ → Outcome (Unit {0}) × W → HopRound
    logged a id (returned _, w) = (returned (a, id), (some id, w))
    logged a id (thrown e, w) = (thrown e, (some id, w))

    unfoldable pub read : Outcome A → ℕ → W → HopRound
    unfolding logged
    read (thrown e) id w = (thrown e, (some id, w))
    read (returned a) id w = logged a id (
        services.append_log
          (record { level = info; message = "LLM hop " ++ step; request_id = some id }) w)

    unfoldable pub received : Outcome (Text × ℕ) × W → HopRound
    unfolding read
    received (thrown e, w) = (thrown e, (none, w))
    received (returned (text, id), w) = read (parse_llm_json schema text) id w

    -- The `try`.
    unfoldable pub attempt_chat : ParseError → ℕ → W → HopRound
    unfolding received hop_user_content
    attempt_chat before attempt w =
        if services.is_aborted w
        then (throw abort_error 500, (none, w))
        else received (services.chat (hop_user_content content before attempt) w)

    -- The log entry of a failure; an abort has none.
    unfoldable pub log_failure : ℕ → DomainException → Option ℕ → W → Outcome (Unit {0}) × W
    unfolding hop_error_log_message
    log_failure attempt e id w =
        if is_abort_error e
        then (returned tt, w)
        else services.append_log
            (record {
              level = error;
              message = hop_error_log_message step attempt e;
              request_id = elim e.code [
                | gateway_error code retryable ↦ services.request_id_of e
                | _ ↦ id
              ];
            })
            w

    -- The end of the `catch`, after its log entry: the error, or the next round.
    unfoldable pub retried :
        (ParseError → W → Outcome (A × ℕ) × W)
        → ℕ
        → DomainException
        → ParseError
        → Outcome (Unit {0}) × W
        → Outcome (A × ℕ) × W
    retried next attempt e before (thrown x, w) = (thrown x, w)
    retried next attempt e before (returned _, w) =
        if not (is_hop_retryable e) || attempt == max_gateway_attempts
        then (thrown e, w)
        else next (last_parse_error e before) w

    unfoldable pub after_round :
        (ParseError → W → Outcome (A × ℕ) × W) → ℕ → ParseError → HopRound → Outcome (A × ℕ) × W
    unfolding retried log_failure
    after_round next attempt before (returned a, (id, w)) = (returned a, w)
    after_round next attempt before (thrown e, (id, w)) =
        retried next attempt e before (log_failure attempt e id w)

    -- The rounds that are left, from this attempt on. The loop ends in the last round, so the answer
    -- with no round left is never given.
    unfoldable pub rounds : ℕ → ℕ → ParseError → W → Outcome (A × ℕ) × W
    unfolding after_round attempt_chat
    rounds zero attempt before w = (throw plain_error 500, w)
    rounds (suc left) attempt before w =
        after_round (rounds left (attempt + 1)) attempt before (attempt_chat before attempt w)

    unfoldable pub chat_json : W → Outcome (A × ℕ) × W
    unfolding rounds
    chat_json w = rounds max_gateway_attempts 1 none w
