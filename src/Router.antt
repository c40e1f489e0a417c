-- ===== src/Router.antt =====
-- src/router.rs: the messages, how they are framed on the wire, and the context a player reports.
pub mod Values
pub mod Request
pub mod Response
pub mod Wire
pub mod Context
