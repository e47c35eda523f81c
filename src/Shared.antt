-- ===== src/Shared.antt =====
-- packages/shared and apps/api/src/shared.
pub mod Enums
pub mod Exception
pub mod Actor
pub mod Llm
