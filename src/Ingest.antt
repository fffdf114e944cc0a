-- ===== src/Ingest.antt =====
-- server/oseye/ingest: the validation of a batch, and the stream that it belongs to.
pub mod Validator
pub mod Service
pub mod Normalizer
