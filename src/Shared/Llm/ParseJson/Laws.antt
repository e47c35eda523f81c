-- ===== src/Shared/Llm/ParseJson/Laws.antt =====
-- An answer in a fenced block is read as what the block holds.
use content_chain.Prelude.{
  ℕ, ◌≡◌, refl, false, [], ◌∷◌, ◌++◌, none, some, arith, ◌==◌, includes, Bool-cases, inl, inr,
}
use content_chain.Shared.Exception.{returned}
use content_chain.Shared.Llm.ParseJson.{
  Text, is_space, trim_start, unless_blank, trim_end, trim, after_fence, split_fence, without_json,
  group_of, fenced, extract_json_text, Schema, parsed, parse_llm_json,
}

trim_start-append :
    (b : Text) (c : ℕ) (r : Text)
    → is_space c ≡ false
    → trim_start (b ++ c ∷ r) ≡ trim_start b ++ c ∷ r
unfolding trim_start
trim_start-append [] c r e = rw e refl
trim_start-append (x ∷ b) c r e = elim (Bool-cases (is_space x)) [
  | inl blank ↦ rw blank (trim_start-append b c r e)
  | inr ink ↦ rw ink refl
]

trim_end-head : (c : ℕ) (r : Text) → is_space c ≡ false → unless_blank c r ≡ c ∷ r
trim_end-head c [] e = rw e refl
trim_end-head c (d ∷ r) e = refl

unless_blank-append :
    (x : ℕ) (b : Text) (c : ℕ) (r : Text) → unless_blank x (b ++ c ∷ r) ≡ x ∷ b ++ c ∷ r
unless_blank-append x [] c r = refl
unless_blank-append x (y ∷ b) c r = refl

trim_end-append :
    (b : Text) (c : ℕ) (r : Text) → is_space c ≡ false → trim_end (b ++ c ∷ r) ≡ b ++ c ∷ trim_end r
unfolding trim_end
trim_end-append [] c r e = trim_end-head c (trim_end r) e
trim_end-append (x ∷ b) c r e =
    rw (trim_end-append b c r e) (unless_blank-append x b c (trim_end r))

after_fence-other : (x : ℕ) (ys : Text) → (x == 96) ≡ false → after_fence (x ∷ ys) ≡ none
after_fence-other x [] e = refl
after_fence-other x (y ∷ []) e = refl
after_fence-other x (y ∷ z ∷ zs) e = rw e refl

-- A text without back quotes, before a fence.
split_fence-append :
    (b r : Text) → includes b 96 ≡ false → split_fence (b ++ 96 ∷ 96 ∷ 96 ∷ r) ≡ some (b, r)
unfolding split_fence
split_fence-append [] r e = refl
split_fence-append (x ∷ b) r e =
    let other : (x == 96) ≡ false = ground arith in
    rw (after_fence-other x (b ++ 96 ∷ 96 ∷ 96 ∷ r) other, split_fence-append b r (ground arith))
      refl

includes-trim_start : (b : Text) (c : ℕ) → includes b c ≡ false → includes (trim_start b) c ≡ false
unfolding trim_start
includes-trim_start [] c e = refl
includes-trim_start (x ∷ b) c e = ground (arith, includes-trim_start b c)

-- `json` in small letters, and a line feed.
abbrev pub json_line : Text → Text
json_line p = 106 ∷ 115 ∷ 111 ∷ 110 ∷ 10 ∷ p

abbrev pub block : Text → Text → Text
block p after = 96 ∷ 96 ∷ 96 ∷ json_line (p ++ 96 ∷ 96 ∷ 96 ∷ after)

trim-block :
    (before p after : Text)
    → trim (before ++ block p after) ≡ trim_start before ++ block p (trim_end after)
unfolding trim
trim-block before p after =
    let body = 96 ∷ 96 ∷ json_line p in
    rw
      (
        trim_start-append before 96 (body ++ 96 ∷ 96 ∷ 96 ∷ after) refl,
        trim_end-append (trim_start before) 96 (body ++ 96 ∷ 96 ∷ 96 ∷ after) refl,
        trim_end-append body 96 (96 ∷ 96 ∷ after) refl,
        trim_end-append (96 ∷ []) 96 after refl,
      )
      refl

fenced-block :
    (before p after : Text)
    → includes before 96 ≡ false
    → includes p 96 ≡ false
    → fenced (before ++ block p after) ≡ some (10 ∷ p)
unfolding fenced group_of without_json
fenced-block before p after quiet clean =
    rw
      (
        split_fence-append before (json_line (p ++ 96 ∷ 96 ∷ 96 ∷ after)) quiet,
        split_fence-append (10 ∷ p) after clean,
      )
      refl

-- The text of a block marked as JSON is its content, trimmed, whatever stands around the block; the
-- content and what precedes the block hold no back quote.
pub extract_json_text-block :
    (before p after : Text)
    → includes before 96 ≡ false
    → includes p 96 ≡ false
    → extract_json_text (before ++ block p after) ≡ trim p
unfolding extract_json_text trim trim_start
extract_json_text-block before p after quiet clean =
    rw
      (
        trim-block before p after,
        fenced-block (trim_start before) p (trim_end after) (includes-trim_start before 96 quiet)
            clean,
      )
      refl

module _ {Json A : Type 0} (schema : Schema Json A) where
  -- A value that is printed, without any back quote, so that the schema reads it back, put in a
  -- block marked as JSON with any text after the block and any without back quotes before it, is
  -- what the answer is read as.
  pub parse_llm_json-block :
      (before p after : Text) (json : Json) (a : A)
      → includes before 96 ≡ false
      → includes p 96 ≡ false
      → schema.json_parse (trim p) ≡ some json
      → schema.safe_parse json ≡ some a
      → parse_llm_json schema (before ++ block p after) ≡ returned a
  unfolding parse_llm_json parsed
  parse_llm_json-block before p after json a quiet clean reads fits =
      rw (extract_json_text-block before p after quiet clean, reads, fits) refl
