-- ===== src/Player.antt =====
-- src/player.rs: the context flags that the plugin reports.
pub mod ContextFlags
