-- ===== src/Gateway.antt =====
-- apps/ai-provider-gateway/src: the service that calls the language models.
pub mod Resilience
pub mod EmbeddingCircuit
