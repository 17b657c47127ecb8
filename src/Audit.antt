-- ===== src/Audit.antt =====
-- apps/web/modules/audit: what an audit reports of a sample.
pub mod Coverage
pub mod Score
pub mod Validate
