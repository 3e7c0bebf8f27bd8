-- ===== src/Embedding.antt =====
-- backend/src/embedding: the generations of a document's embeddings, and the chunks they are made of.
pub mod Generation
pub mod Chunker
