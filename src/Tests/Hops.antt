-- ===== src/Tests/Hops.antt =====
-- A gateway whose second answer is in a fenced block.
use content_chain.Prelude.{
  ℕ, ◌+◌, ◌%◌, ◌≡◌, refl, false, [], ◌∷◌, ◌++◌, Option, none, some, leb, if◌then◌else◌,
}
use content_chain.Shared.Exception.{returned}
use content_chain.Shared.Llm.ParseJson.{Text, Schema, trim, parse_llm_json}
use content_chain.Shared.Llm.ParseJson.Laws.{block, parse_llm_json-block}
use content_chain.Shared.Llm.Hop.{HopServices, chat_json}
use content_chain.Shared.Llm.Hop.Laws.{Asked, chat_json-Asked}

-- A number is written with one digit.
abbrev digits : Text → Option ℕ
digits (c ∷ []) = if leb 48 c then some (c % 48) else none
digits _ = none

abbrev schema : Schema ℕ ℕ
schema = record { json_parse = digits; safe_parse = λ n. some n; issues = λ n. [] }

parse_llm_json-block_example :
    parse_llm_json schema ((72 ∷ 105 ∷ []) ++ block (55 ∷ 10 ∷ []) (33 ∷ [])) ≡ returned 7
unfolding trim
parse_llm_json-block_example =
    parse_llm_json-block schema (72 ∷ 105 ∷ []) (55 ∷ 10 ∷ []) (33 ∷ []) 7 7 refl refl refl refl

-- The services count the questions.
abbrev gateway : HopServices ℕ
gateway = record {
  chat = λ asked n. (returned (if leb 1 n then block (55 ∷ []) [] else 72 ∷ 105 ∷ [], n), n + 1);
  append_log = λ l n. (returned tt, n);
  is_aborted = λ n. false;
  number_text = λ n. "n";
  stringify = λ issues. "[]";
  message_of = λ e. "failed";
  request_id_of = λ e. none;
}

chat_json-Asked_example :
    let (o, n) = chat_json gateway schema "IdeationAgent" "Write." 0 in
    Asked gateway schema "IdeationAgent" "Write." (λ n. n) (λ c n. refl) (λ l n. (refl, refl)) 3 o n
chat_json-Asked_example =
    chat_json-Asked gateway schema "IdeationAgent" "Write." (λ n. n) (λ c n. refl)
      (λ l n. (refl, refl)) 0
