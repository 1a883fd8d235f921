-- ===== src/Ingestion.antt =====
-- cmd/ingestion: the batcher, and the pipelines that run over it.
pub mod Batcher
pub mod Pipeline
pub mod Config
mod Tests
