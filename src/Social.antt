-- ===== src/Social.antt =====
-- apps/api/src/social: the pipeline that writes posts and reels.
pub mod Types
pub mod Graph
pub mod Facade
pub mod Executor
