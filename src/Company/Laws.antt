-- ===== src/Company/Laws.antt =====
-- What is stored of the company is complete, and its audiences can be told apart.
use content_chain.Prelude.{
  ◌≡◌, refl, ap, subst, ◌∙◌, sym, ◌≢◌, ◌⊎◌, inl, inr, Bool, true, false, List, [], ◌∷◌, some, arith,
  ==_iff, ==_refl, Bool-cases, find, Has, All, All-Has,
}
use content_chain.Shared.Exception.{Outcome, returned, thrown}
use content_chain.Shared.Llm.ParseJson.{Text}
use content_chain.Company.{
  AudienceProfile, CompanyContext, PartialCompanyContext, GateSection, identity, offer, voice, cta,
  audience, has_items, section_filled, missing_sections, is_complete, merge_company_context,
  same_text, seen_text, normalize_audience_name, names_unique, assert_company_context_writable,
  with_effective_audience, saved_context, put_company_context, patch_company_context,
}

same_text_refl : (s : Text) → same_text s s ≡ true
same_text_refl [] = refl
same_text_refl (c ∷ s) = rw (==_refl c, same_text_refl s) refl

same_text_eq : (s t : Text) → same_text s t ≡ true → s ≡ t
same_text_eq [] [] e = refl
same_text_eq [] (b ∷ t) e = cc
same_text_eq (a ∷ s) [] e = cc
same_text_eq (a ∷ s) (b ∷ t) e = ground (arith, same_text_eq s t, ==_iff a b)

module _ (to_lower_case : Text → Text) where
  abbrev pub key : AudienceProfile → Text
  key p = normalize_audience_name to_lower_case p.name

  -- No profile has the name of an earlier one; names that are nothing but blanks do not count.
  abbrev pub NamesApart : List AudienceProfile → Type 0
  NamesApart [] = Unit
  NamesApart (p ∷ ps) = All (λ q. has_items (key q) ≡ true → key q ≢ key p) ps × NamesApart ps

  abbrev Unseen : List Text → List AudienceProfile → Type 0
  Unseen seen ps = All (λ q. has_items (key q) ≡ true → seen_text seen (key q) ≡ false) ps

  seen_tail :
      (k : Text) (seen : List Text) (ps : List AudienceProfile)
      → Unseen (k ∷ seen) ps
      → Unseen seen ps
  seen_tail k seen [] h = tt
  seen_tail k seen (p ∷ ps) (h, hs) = (λ e. ground (arith, h e), seen_tail k seen ps hs)

  apart_of_Unseen :
      (k : Text) (seen : List Text) (ps : List AudienceProfile)
      → Unseen (k ∷ seen) ps
      → All (λ q. has_items (key q) ≡ true → key q ≢ k) ps
  apart_of_Unseen k seen [] h = tt
  apart_of_Unseen k seen (p ∷ ps) (h, hs) = (
    λ e same.
        let shown : same_text k (key p) ≡ true = rw same (same_text_refl k) in ground (arith, h e),
    apart_of_Unseen k seen ps hs,
  )

  apart_of_blank :
      (k : Text) (ps : List AudienceProfile)
      → has_items k ≡ false
      → All (λ q. has_items (key q) ≡ true → key q ≢ k) ps
  apart_of_blank k [] blank = tt
  apart_of_blank k (p ∷ ps) blank =
      (λ e same. ground (arith, sym e ∙ ap has_items same ∙ blank), apart_of_blank k ps blank)

  names_unique-Apart :
      (seen : List Text) (ps : List AudienceProfile)
      → names_unique to_lower_case seen ps ≡ true
      → NamesApart ps × Unseen seen ps
  unfolding names_unique
  names_unique-Apart seen [] e = (tt, tt)
  names_unique-Apart seen (p ∷ ps) e = elim (Bool-cases (has_items (key p))) [
    | inl named ↦
        let fresh : seen_text seen (key p) ≡ false = ground (arith, named, e) in
        let rest : names_unique to_lower_case (key p ∷ seen) ps ≡ true = ground (arith, named, e) in
        let (apart, unseen) = names_unique-Apart (key p ∷ seen) ps rest in
        (
          (apart_of_Unseen (key p) seen ps unseen, apart),
          (λ h. fresh, seen_tail (key p) seen ps unseen),
        )
    | inr blank ↦
        let rest : names_unique to_lower_case seen ps ≡ true = ground (arith, blank, e) in
        let (apart, unseen) = names_unique-Apart seen ps rest in
        ((apart_of_blank (key p) ps blank, apart), (λ h. ground (arith, h, blank), unseen))
  ]

  -- Every section is filled, and the names of the audiences are apart.
  abbrev pub Writable : {E : Type 0} → CompanyContext E → Type 0
  Writable c = ((g : GateSection) → section_filled g c ≡ true) × NamesApart c.profiles

  is_complete-filled :
      {E : Type 0} (c : CompanyContext E)
      → is_complete c ≡ true
      → (g : GateSection) → section_filled g c ≡ true
  unfolding is_complete missing_sections
  is_complete-filled c e identity = ground arith
  is_complete-filled c e offer = ground arith
  is_complete-filled c e voice = ground arith
  is_complete-filled c e cta = ground arith
  is_complete-filled c e audience = ground arith

  assert-Writable :
      {E : Type 0} (c : CompanyContext E)
      → assert_company_context_writable to_lower_case c ≡ returned tt
      → Writable c
  unfolding assert_company_context_writable
  assert-Writable c e =
      let full : is_complete c ≡ true = ground arith in
      let unique : names_unique to_lower_case [] c.profiles ≡ true = ground arith in
      (is_complete-filled c full, (names_unique-Apart [] c.profiles unique).0)

  find_own :
      (ps : List AudienceProfile) (p : AudienceProfile)
      → NamesApart ps
      → Has p ps
      → has_items (key p) ≡ true
      → find (λ q. same_text (key q) (key p)) ps ≡ some p
  find_own [] p apart here named = elim here [ ]
  find_own (q ∷ ps) p (differ, apart) (inl e) named =
      rw (ap (λ (r : AudienceProfile). same_text (key r) (key p)) (sym e) ∙ same_text_refl (key p))
        (ap some (sym e))
  find_own (q ∷ ps) p (differ, apart) (inr later) named =
      elim (Bool-cases (same_text (key q) (key p))) [
        | inl same ↦
            absurd (All-Has _ ps p differ later named (sym (same_text_eq (key q) (key p) same)))
        | inr other ↦ rw other (find_own ps p apart later named)
      ]

  -- In a context that may be stored, with every section that the gate asks for filled and the names
  -- apart, a brief that names an audience whose name is not blank, in whatever case and with
  -- whatever blanks around, has exactly that audience in effect.
  pub with_effective_audience-named :
      {E : Type 0} (c : CompanyContext E) (p : AudienceProfile) (brief_audience : Text)
      → Writable c
      → Has p c.profiles
      → has_items (key p) ≡ true
      → normalize_audience_name to_lower_case brief_audience ≡ key p
      → with_effective_audience to_lower_case c (some brief_audience)
        ≡ record c { profiles = p ∷ [] }
  unfolding with_effective_audience
  with_effective_audience-named c p brief_audience (full, apart) here named same =
      let needle = normalize_audience_name to_lower_case brief_audience in
      let filled : has_items needle ≡ true = ap has_items same ∙ named in
      let found : find (λ q. same_text (key q) needle) c.profiles ≡ some p =
        subst (λ k. find (λ q. same_text (key q) k) c.profiles ≡ some p) (sym same)
          (find_own c.profiles p apart here named) in
      rw (filled, found) refl

-- The requests that change the context.
pub data Request (E : Type 0) : Type 0 where
  puts : CompanyContext E → Request E
  patches : PartialCompanyContext E → Request E

module _ {E : Type 0} (to_lower_case : Text → Text) (accepts : CompanyContext E → Bool) where
  abbrev pub after_request : Request E → CompanyContext E → CompanyContext E
  after_request (puts c) before = (put_company_context to_lower_case accepts c before).1
  after_request (patches part) before = (patch_company_context to_lower_case accepts part before).1

  unfoldable pub after_requests : List (Request E) → CompanyContext E → CompanyContext E
  after_requests [] before = before
  after_requests (r ∷ rest) before = after_requests rest (after_request r before)

  -- The context as it was, or one that may be stored.
  abbrev pub Kept : CompanyContext E → CompanyContext E → Type 0
  Kept before after = (after ≡ before) ⊎ Writable to_lower_case after

  saved_context-Kept :
      (c before : CompanyContext E) (o : Outcome (Unit {0}))
      → assert_company_context_writable to_lower_case c ≡ o
      → Kept before (saved_context to_lower_case accepts c o before).1
  unfolding saved_context
  saved_context-Kept c before (thrown e) checked = inl refl
  saved_context-Kept c before (returned _) checked = elim (Bool-cases (accepts c)) [
    | inl taken ↦ rw taken (inr (assert-Writable to_lower_case c checked))
    | inr refused ↦ rw refused (inl refl)
  ]

  after_request-Kept :
      (r : Request E) (before : CompanyContext E) → Kept before (after_request r before)
  unfolding put_company_context patch_company_context
  after_request-Kept (puts c) before = saved_context-Kept c before _ refl
  after_request-Kept (patches part) before =
      saved_context-Kept (merge_company_context before part) before _ refl

  -- Whatever puts and patches follow one another, and whichever of them the database takes, the
  -- context is the first one, or it has every section filled and no two audiences of one name, up to
  -- case and the blanks around.
  pub after_requests-Kept :
      (l : List (Request E)) (before : CompanyContext E) → Kept before (after_requests l before)
  unfolding after_requests
  after_requests-Kept [] before = inl refl
  after_requests-Kept (r ∷ rest) before = elim (after_requests-Kept rest (after_request r before)) [
    | inr writable ↦ inr writable
    | inl same ↦ elim (after_request-Kept r before) [
      | inl first ↦ inl (same ∙ first)
      | inr writable ↦ inr (subst (Writable to_lower_case) (sym same) writable)
    ]
  ]
