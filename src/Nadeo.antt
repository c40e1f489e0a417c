-- ===== src/Nadeo.antt =====
-- src/nadeo.rs: the client of Nadeo's services, and the caches in front of it.
pub mod Admission
pub mod Records
pub mod Gbx
