-- ===== src/Shared/Actor.antt =====
-- apps/api/src/shared: the caller of a use case, and the settings that the use cases read
-- (shared/types/auth-user-context.ts, shared/config/env.schema.ts). A duration is in milliseconds.
use content_chain.Prelude.{ℕ, Bool}
use content_chain.Shared.Enums.{UserRole}

pub record AuthUserContext : Type 0 where
  pub id : ℕ
  pub role : UserRole

pub record Env : Type 0 where
  pub demo_mode : Bool
  pub guest_global_cap_per_day : ℕ
  pub guest_rating_cap_per_day : ℕ
  pub review_ttl : ℕ
  pub max_concurrent_runs : ℕ
