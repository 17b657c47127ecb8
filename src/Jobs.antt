-- ===== src/Jobs.antt =====
-- apps/web/jobs: the queues and the runners of their jobs.
pub mod Registry
pub mod Ledger
pub mod Drain
pub mod Handler
