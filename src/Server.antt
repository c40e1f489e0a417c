-- ===== src/Server.antt =====
-- src/server2.rs: the connections of the players and what they share.
pub mod CommentBind
pub mod PendingHatUnlocks
pub mod MapLocks
pub mod Delivery
pub mod MapTracking
pub mod Reports
pub mod PluginVersion
