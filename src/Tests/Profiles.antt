-- ===== src/Tests/Profiles.antt =====
-- A company with one audience, and two requests that change it.
use content_chain.Prelude.{ℕ, ◌≡◌, refl, inl, [], ◌∷◌, List, none, some, true}
use content_chain.Shared.Llm.ParseJson.{Text, trim, trim_start, trim_end}
use content_chain.Company.{
  AudienceProfile, CompanyContext, PartialCompanyContext, GateSection, identity, offer, voice, cta,
  audience, normalize_audience_name, section_filled, non_empty, is_complete_offer_item,
  is_complete_cta_item, is_complete_audience_profile, with_effective_audience,
}
use content_chain.Company.Laws.{
  Request, puts, patches, after_requests, Kept, Writable, after_requests-Kept,
  with_effective_audience-named,
}

abbrev word : Text
word = 65 ∷ []

abbrev drivers : AudienceProfile
drivers = record { name = 68 ∷ []; description = word }

abbrev company : CompanyContext ℕ
company = record {
  identity_name = word;
  identity_description = word;
  offer_items = record { name = word; benefit = word ∷ []; description = word } ∷ [];
  we_do = word;
  we_dont = word;
  cta_items = record { label = word; target = none } ∷ [];
  profiles = drivers ∷ [];
  extras = none;
}

abbrev no_change : PartialCompanyContext ℕ
no_change = record {
  identity_name = none;
  identity_description = none;
  offer_items = none;
  we_do = none;
  we_dont = none;
  cta_items = none;
  profiles = none;
  extras = none;
}

company-filled : (g : GateSection) → section_filled g company ≡ true
unfolding section_filled non_empty is_complete_offer_item is_complete_cta_item
    is_complete_audience_profile trim trim_start trim_end
company-filled identity = refl
company-filled offer = refl
company-filled voice = refl
company-filled cta = refl
company-filled audience = refl

company-Writable : Writable (λ t. t) company
company-Writable = (company-filled, (tt, tt))

with_effective_audience-named_example :
    with_effective_audience (λ t. t) company (some (32 ∷ 68 ∷ [])) ≡ company
unfolding normalize_audience_name trim trim_start trim_end
with_effective_audience-named_example =
    with_effective_audience-named (λ t. t) company drivers (32 ∷ 68 ∷ []) company-Writable
      (inl refl) refl refl

abbrev requests : List (Request ℕ)
requests = puts company ∷ patches (record no_change { we_do = some [] }) ∷ []

after_requests-Kept_example :
    Kept (λ t. t) (λ c. true) company (after_requests (λ t. t) (λ c. true) requests company)
after_requests-Kept_example = after_requests-Kept (λ t. t) (λ c. true) requests company
