-- ===== src/Shared/Llm.antt =====
-- apps/api/src/shared/llm: how the language model is asked, and how its answer is read.
pub mod ParseJson
pub mod Hop
