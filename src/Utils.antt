-- ===== src/Utils.antt =====
-- The helpers under utils/.
pub mod Store
pub mod Metadata
pub mod Select
pub mod Kinds
