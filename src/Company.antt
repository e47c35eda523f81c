-- ===== src/Company.antt =====
-- apps/api/src/company-context/domain and application: what is known of the company, when it may be
-- stored, and which audience a run sees. Texts are lists of UTF-16 code units.
pub mod Laws
use content_chain.Prelude.{
  ℕ, Bool, true, false, not, ◌&&◌, ◌||◌, List, [], ◌∷◌, Option, none, some, if◌then◌else◌, ◌==◌,
  get_or, all, filter, find, is_some,
}
use content_chain.Shared.Exception.{
  Outcome, returned, thrown, throw, require, rejected, validation_failed, ◌>>◌,
}
use content_chain.Shared.Llm.ParseJson.{Text, trim}

pub record OfferItem : Type 0 where
  pub name : Text
  pub benefit : List Text
  pub description : Text

pub record CtaItem : Type 0 where
  pub label : Text
  pub target : Option Text

pub record AudienceProfile : Type 0 where
  pub name : Text
  pub description : Text

-- `extras` are only stored.
pub record CompanyContext (E : Type 0) : Type 0 where
  pub identity_name : Text
  pub identity_description : Text
  pub offer_items : List OfferItem
  pub we_do : Text
  pub we_dont : Text
  pub cta_items : List CtaItem
  pub profiles : List AudienceProfile
  pub extras : Option E

pub record PartialCompanyContext (E : Type 0) : Type 0 where
  pub identity_name : Option Text
  pub identity_description : Option Text
  pub offer_items : Option (List OfferItem)
  pub we_do : Option Text
  pub we_dont : Option Text
  pub cta_items : Option (List CtaItem)
  pub profiles : Option (List AudienceProfile)
  -- Absent, or the value that takes its place, `null` included.
  pub extras : Option (Option E)

pub data GateSection : Type 0 where
  identity offer voice cta audience : GateSection

abbrev pub gate_sections : List GateSection
gate_sections = identity ∷ offer ∷ voice ∷ cta ∷ audience ∷ []

abbrev pub has_items : {A : Type 0} → List A → Bool
has_items [] = false
has_items (a ∷ rest) = true

unfoldable pub non_empty : Text → Bool
unfolding trim
non_empty value = has_items (trim value)

unfoldable pub is_complete_offer_item : OfferItem → Bool
unfolding non_empty
is_complete_offer_item item =
    non_empty item.name
    && non_empty item.description
    && has_items item.benefit
    && all non_empty item.benefit

unfoldable pub is_complete_cta_item : CtaItem → Bool
unfolding non_empty
is_complete_cta_item item = non_empty item.label

unfoldable pub is_complete_audience_profile : AudienceProfile → Bool
unfolding non_empty
is_complete_audience_profile profile = non_empty profile.name && non_empty profile.description

unfoldable pub section_filled : {E : Type 0} → GateSection → CompanyContext E → Bool
unfolding is_complete_offer_item is_complete_cta_item is_complete_audience_profile
section_filled identity c = non_empty c.identity_name && non_empty c.identity_description
section_filled offer c = has_items c.offer_items && all is_complete_offer_item c.offer_items
section_filled voice c = non_empty c.we_do && non_empty c.we_dont
section_filled cta c = has_items c.cta_items && all is_complete_cta_item c.cta_items
section_filled audience c = has_items c.profiles && all is_complete_audience_profile c.profiles

-- `missing` of `isComplete`; `complete` says that it is empty.
unfoldable pub missing_sections : {E : Type 0} → CompanyContext E → List GateSection
unfolding section_filled
missing_sections c = filter (λ section. not (section_filled section c)) gate_sections

unfoldable pub is_complete : {E : Type 0} → CompanyContext E → Bool
unfolding missing_sections
is_complete c = not (has_items (missing_sections c))

unfoldable pub merge_company_context :
    {E : Type 0} → CompanyContext E → PartialCompanyContext E → CompanyContext E
merge_company_context current part = record {
  identity_name = get_or part.identity_name current.identity_name;
  identity_description = get_or part.identity_description current.identity_description;
  offer_items = get_or part.offer_items current.offer_items;
  we_do = get_or part.we_do current.we_do;
  we_dont = get_or part.we_dont current.we_dont;
  cta_items = get_or part.cta_items current.cta_items;
  profiles = get_or part.profiles current.profiles;
  extras = get_or part.extras current.extras;
}

abbrev pub same_text : Text → Text → Bool
same_text [] [] = true
same_text (a ∷ s) (b ∷ t) = a == b && same_text s t
same_text _ _ = false

-- `seen.has(key)`
abbrev pub seen_text : List Text → Text → Bool
seen_text [] key = false
seen_text (k ∷ ks) key = same_text k key || seen_text ks key

abbrev pub one_or_none : Option AudienceProfile → List AudienceProfile
one_or_none (some match) = match ∷ []
one_or_none none = []

-- `to_lower_case` is `String.prototype.toLowerCase`; `accepts` tells whether the database takes a
-- write.
module _ (to_lower_case : Text → Text) where
  unfoldable pub normalize_audience_name : Text → Text
  unfolding trim
  normalize_audience_name value = to_lower_case (trim value)

  -- The loop of `assertAudienceProfileNamesUnique`; false is its throw.
  unfoldable pub names_unique : List Text → List AudienceProfile → Bool
  unfolding normalize_audience_name
  names_unique seen [] = true
  names_unique seen (p ∷ ps) =
      let key = normalize_audience_name p.name in
      let rest = names_unique (if has_items key then key ∷ seen else seen) ps in
      if has_items key && seen_text seen key then false else rest

  unfoldable pub assert_company_context_writable :
      {E : Type 0} → CompanyContext E → Outcome (Unit {0})
  unfolding is_complete names_unique
  assert_company_context_writable c =
      require (is_complete c) validation_failed 400
      >> require (names_unique [] c.profiles) validation_failed 400

  unfoldable pub with_effective_audience :
      {E : Type 0} → CompanyContext E → Option Text → CompanyContext E
  unfolding normalize_audience_name
  with_effective_audience c none = record c { profiles = [] }
  with_effective_audience c (some brief_audience) =
      let needle = normalize_audience_name brief_audience in
      record c {
        profiles =
            if has_items needle
            then one_or_none
                (find (λ p. same_text (normalize_audience_name p.name) needle) c.profiles)
            else [];
      }

  module _ {E : Type 0} (accepts : CompanyContext E → Bool) where
    -- `repository.put`, after the check has passed, with the completeness of what was saved.
    unfoldable pub saved_context :
        CompanyContext E
        → Outcome (Unit {0})
        → CompanyContext E
        → Outcome (CompanyContext E × Bool) × CompanyContext E
    unfolding is_complete
    saved_context c (thrown e) before = (thrown e, before)
    saved_context c (returned _) before =
        if accepts c then (returned (c, is_complete c), c) else (rejected, before)

    unfoldable pub put_company_context :
        CompanyContext E → CompanyContext E → Outcome (CompanyContext E × Bool) × CompanyContext E
    unfolding saved_context assert_company_context_writable
    put_company_context c before = saved_context c (assert_company_context_writable c) before

    unfoldable pub patch_company_context :
        PartialCompanyContext E
        → CompanyContext E
        → Outcome (CompanyContext E × Bool) × CompanyContext E
    unfolding put_company_context merge_company_context
    patch_company_context part before =
        put_company_context (merge_company_context before part) before
