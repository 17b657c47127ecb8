-- ===== src/Seeding.antt =====
-- packages/db/scripts/seed-rules.ts: the rules of the published rulesets, from files to the corpus.
pub mod Extract
pub mod Plan
pub mod Writing
