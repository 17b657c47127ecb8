-- ===== src/Ingestion.antt =====
-- apps/web/modules/ingestion: amounts, shapes of values and the rows of an extraction.
pub mod Money
pub mod Shape
pub mod Normalise
pub mod Tabular
pub mod Receive
