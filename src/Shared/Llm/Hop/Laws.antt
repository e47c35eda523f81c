-- ===== src/Shared/Llm/Hop/Laws.antt =====
-- How often the gateway is asked, and what the answer is.
use Prim.Native.String.{String}
use content_chain.Prelude.{
  ℕ, zero, suc, ◌+◌, ◌≤◌, ◌≡◌, refl, subst, ◌∙◌, true, Option, none, arith, ◌==◌, Bool-cases, inl,
  inr,
}
use content_chain.Shared.Exception.{DomainException, is_abort_error, Outcome, returned, thrown}
use content_chain.Shared.Llm.ParseJson.{Text, Schema, parse_llm_json}
use content_chain.Shared.Llm.Hop.{
  HopServices, HopLog, ParseError, HopRound, is_hop_retryable, logged, read, received, attempt_chat,
  log_failure, retried, after_round, rounds, chat_json, hop_user_content, last_parse_error,
}

module _ {W Json A : Type 0} (services : HopServices W) (schema : Schema Json A)
    (step content : String) (count : W → ℕ)
    (chats : (c : String) (w : W) → count (services.chat c w).1 ≡ count w + 1)
    (logs : (l : HopLog) (w : W)
      → (count (services.append_log l w).1 ≡ count w)
        × ((services.append_log l w).0 ≡ returned tt)) where
  -- The value was read from an answer of the gateway, whose identifier stands with it.
  abbrev pub Parsed : A → ℕ → Type 0
  Parsed a id =
      (asked : String) × (text : Text) × (w : W) × (w' : W) × (services.chat asked w
        ≡ (returned (text, id), w'))
      × (parse_llm_json schema text ≡ returned a)

  -- At most `n` questions, up to the count `n`; as many, if the error is one to ask again for.
  abbrev pub Asked : ℕ → Outcome (A × ℕ) → W → Type 0
  Asked n (returned (a, id)) w = Parsed a id × (count w ≤ n)
  Asked n (thrown e) w = (count w ≤ n) × (is_hop_retryable e ≡ true → count w ≡ n)

  abbrev AskedRound : ℕ → HopRound services schema step content → Type 0
  AskedRound n (o, (id, w)) = Asked n o w

  logged-Asked :
      (a : A) (id n : ℕ) (q : Outcome (Unit {0}) × W)
      → Parsed a id
      → count q.1 ≡ n
      → q.0 ≡ returned tt
      → AskedRound n (logged services schema step content a id q)
  unfolding logged
  logged-Asked a id n (returned _, w) p same quiet = (p, omega (arith, same))
  logged-Asked a id n (thrown e, w) p same quiet = cc

  received-Asked :
      (asked : String) (w : W) (q : Outcome (Text × ℕ) × W)
      → services.chat asked w ≡ q
      → count q.1 ≡ count w + 1
      → AskedRound (count w + 1) (received services schema step content q)
  unfolding received
  received-Asked asked w (thrown e, w') said more = (omega (arith, more), λ x. more)
  received-Asked asked w (returned (text, id), w') said more =
      read-Asked (parse_llm_json schema text) refl
    where
      read-Asked :
          (o : Outcome A)
          → parse_llm_json schema text ≡ o
          → AskedRound (count w + 1) (read services schema step content o id w')
      read-Asked (thrown e) p = (omega (arith, more), λ x. more)
      read-Asked (returned a) p =
          logged-Asked a id (count w + 1) _ (asked, text, w, w', said, p) ((logs _ w').0 ∙ more)
            (logs _ w').1

  attempt_chat-Asked :
      (before : ParseError) (attempt : ℕ) (w : W)
      → AskedRound (count w + 1) (attempt_chat services schema step content before attempt w)
  unfolding attempt_chat
  attempt_chat-Asked before attempt w = elim (Bool-cases (services.is_aborted w)) [
    | inl stop ↦ rw stop (omega arith, λ x. cc)
    | inr live ↦
        rw live
          (received-Asked (hop_user_content services content before attempt) w _ refl (chats _ w))
  ]

  log_failure-kept :
      (attempt : ℕ) (e : DomainException) (id : Option ℕ) (w : W)
      → let q = log_failure services schema step content attempt e id w in
        (count q.1 ≡ count w) × (q.0 ≡ returned tt)
  unfolding log_failure
  log_failure-kept attempt e id w = elim (Bool-cases (is_abort_error e)) [
    | inl stop ↦ rw stop (refl, refl)
    | inr other ↦ rw other (logs _ w)
  ]

  abbrev Next : ℕ → (ParseError → W → Outcome (A × ℕ) × W) → Type 0
  Next left next =
      (before : ParseError) (w : W) → let (o, w') = next before w in Asked (count w + left) o w'

  retried-Asked :
      (next : ParseError → W → Outcome (A × ℕ) × W) (left attempt n : ℕ) (e : DomainException)
      (before : ParseError) (q : Outcome (Unit {0}) × W)
      → attempt + left ≡ 3
      → (count q.1 ≤ n) × (is_hop_retryable e ≡ true → count q.1 ≡ n)
      → q.0 ≡ returned tt
      → Next left next
      → let (o, w') = retried services schema step content next attempt e before q in
        Asked (n + left) o w'
  unfolding retried
  retried-Asked next left attempt n e before (thrown x, w) sum (most, again) quiet f = cc
  retried-Asked next left attempt n e before (returned _, w) sum (most, again) quiet f =
      elim (Bool-cases (is_hop_retryable e)) [
        | inr final ↦ rw final (omega (arith, most), λ x. cc)
        | inl worth ↦ elim (Bool-cases (attempt == 3)) [
          | inl last ↦ rw (worth, last) (omega (arith, most), λ x. ground (arith, again worth))
          | inr more ↦
              rw (worth, more)
                (subst
                  (λ m. let (o, w') = next (last_parse_error e before) w in Asked (m + left) o w')
                  (again worth) (f (last_parse_error e before) w))
        ]
      ]

  after_round-Asked :
      (next : ParseError → W → Outcome (A × ℕ) × W) (left attempt n : ℕ) (before : ParseError)
      (q : HopRound services schema step content)
      → attempt + left ≡ 3
      → AskedRound n q
      → Next left next
      → let (o, w') = after_round services schema step content next attempt before q in
        Asked (n + left) o w'
  unfolding after_round
  after_round-Asked next left attempt n before (returned (a, i), (id, w)) sum (p, most) f =
      (p, omega (arith, most))
  after_round-Asked next left attempt n before (thrown e, (id, w)) sum (most, again) f =
      let (same, quiet) = log_failure-kept attempt e id w in
      retried-Asked next left attempt n e before _ sum
        (omega (arith, same, most), λ x. same ∙ again x) quiet f

  rounds-Asked :
      (left attempt : ℕ)
      → attempt + left ≡ 4
      → Next left (rounds services schema step content left attempt)
  unfolding rounds
  rounds-Asked zero attempt sum before w = (omega arith, λ x. cc)
  rounds-Asked (suc left) attempt sum before w =
      let (o, w') = rounds services schema step content (suc left) attempt before w in
      subst (λ m. Asked m o w') (omega arith)
        (after_round-Asked (rounds services schema step content left (attempt + 1)) left attempt
          (count w + 1) before (attempt_chat services schema step content before attempt w)
          (omega (arith, sum)) (attempt_chat-Asked before attempt w)
          (rounds-Asked left (attempt + 1) (omega (arith, sum))))

  -- Where each question is counted, and the log takes its entries: the gateway is asked at most three
  -- times. A value that is returned was read from one of the gateway's answers. An error that is
  -- worth another question is thrown only after the third.
  pub chat_json-Asked :
      (w : W) → let (o, w') = chat_json services schema step content w in Asked (count w + 3) o w'
  unfolding chat_json
  chat_json-Asked w = rounds-Asked 3 1 refl none w
