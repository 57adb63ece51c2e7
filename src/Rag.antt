-- ===== src/Rag.antt =====
-- ai/src/rag.ts: the splitter of documents, the vector store and the pipeline over both.
pub mod Splitter
pub mod Store
pub mod Pipeline
mod Tests
