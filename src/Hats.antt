-- ===== src/Hats.antt =====
-- src/queries/hats.rs.
pub mod EquipLimiter
