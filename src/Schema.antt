-- ===== src/Schema.antt =====
-- packages/db/schema: the closed unions and the rows that the pipeline reads and writes. Identifiers,
-- hashes and dates of the database are texts and milliseconds; a column that may be null is an `Option`.
mod Unions
mod CorpusRows
mod ClientRows
pub use Unions.*
pub use CorpusRows.*
pub use ClientRows.*
