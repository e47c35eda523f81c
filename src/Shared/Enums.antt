-- ===== src/Shared/Enums.antt =====
-- packages/shared/src/branded/enums.ts: the closed sets of the contract, and their guards.
use content_chain.Prelude.{Bool, true, false, ◌||◌, List, [], ◌∷◌}

pub data UserRole : Type 0 where
  admin user guest : UserRole

pub data RunStatus : Type 0 where
  queued running interrupted awaiting_hitl completed failed cancelled : RunStatus

-- SocialTaskType and ContentTaskType together.
pub data RunTaskType : Type 0 where
  post_ideas post_content post_ideas_then_content : RunTaskType
  reel_ideas reel_script reel_ideas_then_scripts : RunTaskType
  page_copy page_outline_then_copy : RunTaskType

pub data RunPlatform : Type 0 where
  linkedin facebook instagram web : RunPlatform

pub data ContentKind : Type 0 where
  blog service_page landing : ContentKind

pub data ContentLanguage : Type 0 where
  pl en : ContentLanguage

abbrev pub is_social_task_type : RunTaskType → Bool
is_social_task_type page_copy = false
is_social_task_type page_outline_then_copy = false
is_social_task_type _ = true

abbrev pub is_content_task_type : RunTaskType → Bool
is_content_task_type page_copy = true
is_content_task_type page_outline_then_copy = true
is_content_task_type _ = false

-- `===` on the string unions.
abbrev pub same_role : UserRole → UserRole → Bool
same_role admin admin = true
same_role user user = true
same_role guest guest = true
same_role _ _ = false

abbrev pub same_status : RunStatus → RunStatus → Bool
same_status queued queued = true
same_status running running = true
same_status interrupted interrupted = true
same_status awaiting_hitl awaiting_hitl = true
same_status completed completed = true
same_status failed failed = true
same_status cancelled cancelled = true
same_status _ _ = false

abbrev pub same_task_type : RunTaskType → RunTaskType → Bool
same_task_type post_ideas post_ideas = true
same_task_type post_content post_content = true
same_task_type post_ideas_then_content post_ideas_then_content = true
same_task_type reel_ideas reel_ideas = true
same_task_type reel_script reel_script = true
same_task_type reel_ideas_then_scripts reel_ideas_then_scripts = true
same_task_type page_copy page_copy = true
same_task_type page_outline_then_copy page_outline_then_copy = true
same_task_type _ _ = false

-- `Array.prototype.includes` on statuses.
abbrev pub has_status : List RunStatus → RunStatus → Bool
has_status [] s = false
has_status (x ∷ xs) s = same_status x s || has_status xs s

abbrev pub has_task_type : List RunTaskType → RunTaskType → Bool
has_task_type [] t = false
has_task_type (x ∷ xs) t = same_task_type x t || has_task_type xs t
