-- ===== src/Corpus.antt =====
-- apps/web/modules/corpus: what is written to the corpus, and the guard against raw values.
pub mod Patterns
pub mod Redaction
pub mod Recurrence
pub mod Record
pub mod Seed
