-- ===== src/Content.antt =====
-- apps/api/src/content: the pipeline that writes pages.
pub mod Types
pub mod Drafts
pub mod Graph
pub mod Facade
pub mod Executor
