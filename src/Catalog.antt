-- ===== src/Catalog.antt =====
-- src/queries.rs and the parsers of src/queries/: the catalogs that a map's spec lists.
pub mod Slugs
pub mod Entries
pub mod Hats
pub mod Collectibles
pub mod Minigames
pub mod Values
mod Tests
use dd2_server.Prelude.{Bool, Option, none, some, List, String}

-- What the parsers read of a `serde_json::Value`.
pub record Json (Value : Type 0) : Type 0 where
  pub get : String → Value → Option Value
  pub as_array : Value → Option (List Value)
  pub as_bool : Value → Option Bool
  pub as_str : Value → Option String
  pub is_object : Value → Bool

pub data CatalogValidationError : Type 0 where
  blank_slug : (catalog : String) → CatalogValidationError
  duplicate_slug : (catalog slug : String) → CatalogValidationError
  duplicate_record_uid : (uid : String) → CatalogValidationError

abbrev pub or_else : {A : Type 0} → Option A → Option A → Option A
or_else none b = b
or_else (some a) b = some a

abbrev pub and_then : {A B : Type 0} → Option A → (A → Option B) → Option B
and_then none f = none
and_then (some a) f = f a

abbrev pub unwrap_or : {A : Type 0} → Option A → A → A
unwrap_or none a = a
unwrap_or (some a) b = a
