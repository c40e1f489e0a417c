-- ===== src/Wayfinder.antt =====
-- src/queries/listed_maps.rs and src/queries/custom_map_aux_specs.rs: the specs that mappers
-- upload, the map that each is bound to, and what a bound map has of its spec.
pub mod Tables
pub mod Bindings
pub mod Specs
pub mod Hats
pub mod Attempts
pub mod Pickups
pub mod Consistency
pub mod Reach
pub mod Guarantees
mod Tests
