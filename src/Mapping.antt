-- ===== src/Mapping.antt =====
-- apps/web/modules/mapping: profiles, their use, and the specification identifiers.
pub mod Apply
pub mod Profile
pub mod SpecIdentifiers
pub mod Ubl
