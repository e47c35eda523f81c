-- ===== src/Shared/Llm/ParseJson.antt =====
-- apps/api/src/shared/llm/parse-llm-json.ts. A text is here the list of its UTF-16 code units.
pub mod Laws
use content_chain.Prelude.{
  ℕ, ◌+◌, Bool, true, false, ◌&&◌, ◌||◌, List, [], ◌∷◌, ◌++◌, Option, none, some, if◌then◌else◌,
  ◌==◌, leb, includes,
}
use content_chain.Shared.Exception.{Issue, structured_output_invalid, Outcome, returned, throw}

abbrev pub Text : Type 0
Text = List ℕ

-- White space, as `trim` and `\s` know it.
abbrev pub is_space : ℕ → Bool
is_space c =
    (leb 9 c && leb c 13)
    || (leb 8192 c && leb c 8202)
    || includes (32 ∷ 160 ∷ 5760 ∷ 8232 ∷ 8233 ∷ 8239 ∷ 8287 ∷ 12288 ∷ 65279 ∷ []) c

unfoldable pub trim_start : Text → Text
trim_start [] = []
trim_start (c ∷ cs) = let rest = trim_start cs in if is_space c then rest else c ∷ cs

-- `rest` with `c` before it, unless that is white space at the end of the text.
abbrev pub unless_blank : ℕ → Text → Text
unless_blank c [] = if is_space c then [] else c ∷ []
unless_blank c (d ∷ ds) = c ∷ d ∷ ds

unfoldable pub trim_end : Text → Text
trim_end [] = []
trim_end (c ∷ cs) = unless_blank c (trim_end cs)

unfoldable pub trim : Text → Text
unfolding trim_start trim_end
trim cs = trim_end (trim_start cs)

-- Three back quotes.
abbrev pub fence : Text
fence = 96 ∷ 96 ∷ 96 ∷ []

-- What follows a fence at the head of the text.
abbrev pub after_fence : Text → Option Text
after_fence (a ∷ b ∷ c ∷ rest) = if (a == 96) && (b == 96) && (c == 96) then some rest else none
after_fence _ = none

-- What the fence at hand gives, or else the split of the rest with `c` before it.
abbrev pub or_split : Option Text → ℕ → Option (Text × Text) → Option (Text × Text)
or_split (some rest) c later = some ([], rest)
or_split none c (some (before, rest)) = some (c ∷ before, rest)
or_split none c none = none

-- The text before the first fence and the text after it.
unfoldable pub split_fence : Text → Option (Text × Text)
split_fence [] = none
split_fence (c ∷ cs) = or_split (after_fence (c ∷ cs)) c (split_fence cs)

-- `(?:json)?`, in either case.
abbrev pub is_letter : ℕ → ℕ → Bool
is_letter small c = (c == small) || (c + 32 == small)

unfoldable pub without_json : Text → Text
without_json (a ∷ b ∷ c ∷ d ∷ rest) =
    if is_letter 106 a && is_letter 115 b && is_letter 111 c && is_letter 110 d
    then rest
    else a ∷ b ∷ c ∷ d ∷ rest
without_json cs = cs

abbrev pub inside_of : Option (Text × Text) → Option Text
inside_of none = none
inside_of (some (inside, after)) = some inside

-- From the text behind the first fence.
unfoldable pub group_of : Option (Text × Text) → Option Text
unfolding split_fence without_json
group_of none = none
group_of (some (before, rest)) = inside_of (split_fence (without_json rest))

-- The group of the match: what stands between the first two fences.
unfoldable pub fenced : Text → Option Text
unfolding group_of
fenced cs = group_of (split_fence cs)

abbrev pub or_text : Option Text → Text → Text
or_text none d = d
or_text (some t) d = t

unfoldable pub extract_json_text : Text → Text
unfolding trim fenced
extract_json_text raw = let trimmed = trim raw in trim (or_text (fenced trimmed) trimmed)

-- `JSON.parse`, which gives nothing where it throws, and the schema.
pub record Schema (Json A : Type 0) : Type 0 where
  pub json_parse : Text → Option Json
  pub safe_parse : Json → Option A
  -- `result.error.issues`, for what does not fit.
  pub issues : Json → List Issue

abbrev pub fitted : {A : Type 0} → Option A → List Issue → Outcome A
fitted (some a) issues = returned a
fitted none issues =
    throw (structured_output_invalid "LLM output failed schema validation" issues) 500

unfoldable pub parsed : {Json A : Type 0} → Schema Json A → Option Json → Outcome A
parsed schema none = throw (structured_output_invalid "LLM output is not valid JSON" []) 500
parsed schema (some json) = fitted (schema.safe_parse json) (schema.issues json)

unfoldable pub parse_llm_json : {Json A : Type 0} → Schema Json A → Text → Outcome A
unfolding parsed extract_json_text
parse_llm_json schema raw = parsed schema (schema.json_parse (extract_json_text raw))
