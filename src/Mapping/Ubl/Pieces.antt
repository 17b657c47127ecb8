-- ===== src/Mapping/Ubl/Pieces.antt =====
-- apps/web/modules/mapping/ubl.ts, its helpers: the elements that the reader finds in what each writes.
pub mod Tags
pub mod Writes
pub mod Terms
pub mod Amounts
pub mod Lines
