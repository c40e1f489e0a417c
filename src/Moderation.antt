-- ===== src/Moderation.antt =====
-- src/queries/moderation.rs and src/moderation_http.rs: who may moderate a map, its bans, and the
-- handlers of the admin pages.
pub mod Tables
pub mod Handling
pub mod Handlers
pub mod Bans
pub mod Admins
pub mod Standing
pub mod Requests
mod Tests
