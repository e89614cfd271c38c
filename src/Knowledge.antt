-- ===== src/Knowledge.antt =====
-- The knowledge base: the division of documents.
pub mod Chunker
