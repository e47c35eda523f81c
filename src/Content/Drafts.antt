-- ===== src/Content/Drafts.antt =====
-- apps/api/src/content/infrastructure/graph/nodes: drafts as the model gives them, what a refinement
-- keeps of the old outline, and the message of a failed run.
use Prim.Native.String.{String, ◌++◌}
use content_chain.Prelude.{ℕ, List, [], ◌∷◌, Option, none, some}
use content_chain.Content.Types.{
  PageOutlineSectionRole, PageOutlineSection, PageOutline, VerifierVerdict,
}

-- A section and an outline as the model gives them, identifiers and roles being optional.
pub record DraftSection : Type 0 where
  pub id : Option ℕ
  pub heading : String
  pub summary : String
  pub role : Option PageOutlineSectionRole

pub record DraftOutline : Type 0 where
  pub title : String
  pub sections : List DraftSection

-- `parts.join(separator)`
unfoldable pub join : String → List String → String
join separator [] = ""
join separator (x ∷ []) = x
join separator (x ∷ y ∷ xs) = x ++ separator ++ join separator (y ∷ xs)

-- The issues of one kind, when there are any.
abbrev pub issue_part : String → List String → List String → List String
issue_part name [] rest = rest
issue_part name (x ∷ xs) rest = (name ++ join "; " (x ∷ xs)) ∷ rest

abbrev pub joined_or : List String → String
joined_or [] = "ConsistencyVerifier failed"
joined_or (x ∷ xs) = join " | " (x ∷ xs)

abbrev pub context_issues_of : Option VerifierVerdict → List String
context_issues_of none = []
context_issues_of (some v) = v.context_issues

abbrev pub language_issues_of : Option VerifierVerdict → List String
language_issues_of none = []
language_issues_of (some v) = v.language_issues

-- The section at the same place of the outline that is refined.
abbrev pub head_of : List PageOutlineSection → Option PageOutlineSection
head_of [] = none
head_of (s ∷ ss) = some s

abbrev pub tail_of : List PageOutlineSection → List PageOutlineSection
tail_of [] = []
tail_of (s ∷ ss) = ss

abbrev pub id_or : Option ℕ → Option PageOutlineSection → ℕ → ℕ
id_or (some given) old fresh = given
id_or none (some s) fresh = s.id
id_or none none fresh = fresh

abbrev pub role_or :
    Option PageOutlineSectionRole → Option PageOutlineSection → Option PageOutlineSectionRole
role_or (some given) old = some given
role_or none (some s) = s.role
role_or none none = none

abbrev pub old_sections : Option PageOutline → List PageOutlineSection
old_sections none = []
old_sections (some o) = o.sections

abbrev pub old_id : Option PageOutline → ℕ → ℕ
old_id none fresh = fresh
old_id (some o) fresh = o.id
