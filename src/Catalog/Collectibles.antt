-- ===== src/Catalog/Collectibles.antt =====
-- src/queries/collectibles.rs: the collectibles that a map's spec lists. An `i64` is kept by its
-- bits.
pub mod Laws
use dd2_server.Prelude.{
  ℕ, ◌+◌, Bool, true, false, not, ◌&&◌, ◌||◌, Option, none, some, List, [], ◌∷◌, String,
  if◌then◌else◌, string_eq, eq_ignore_ascii_case, Result, ok, err,
}
use dd2_server.Prelude.HashSet
use dd2_server.Prelude.HashSet.{HashSet}
use dd2_server.Prelude.Text.{is_empty, trim}
use dd2_server.Catalog.{Json, or_else, and_then, unwrap_or, CatalogValidationError, duplicate_slug}
use dd2_server.Catalog.Slugs.{slug_or_default, display_name}
use dd2_server.Catalog.Entries.{Step, ignored, refused, listed, parse_entries}

pub record CatalogCollectible : Type 0 where
  pub slug : String
  pub name : String
  pub pickup : String
  pub collect_on_unlock : Bool
  pub has_zone : Bool
  pub gated_by : Option String
  pub unlock_score : Option ℕ

-- What the parser reads of a number: as an `i64`, a `u64` or an `f64`, each turned into an `i64`.
pub record Numbers (V : Type 0) : Type 0 where
  pub as_i64 : V → Option ℕ
  pub as_u64 : V → Option ℕ
  pub as_f64 : V → Option ℕ

abbrev pub is_some : {A : Type 0} → Option A → Bool
is_some none = false
is_some (some a) = true

abbrev pub is_some_and : {A : Type 0} → Option A → (A → Bool) → Bool
is_some_and none p = false
is_some_and (some a) p = p a

-- What an omitted, known or unknown `pickup` says: whether to collect on unlock, and by a zone.
-- The code compares its ASCII lowercase.
unfoldable pub legacy_paths : Bool → Option String → Option (Bool × Bool)
legacy_paths marker none = some (false, not marker)
legacy_paths marker (some pickup) =
    if is_empty pickup || eq_ignore_ascii_case pickup "zone"
    then some (false, true)
    else if eq_ignore_ascii_case pickup "grant"
    then some (true, false)
    else none

unfoldable pub collect_paths : Bool → Bool → Option (Bool × Bool) → Option (Bool × Bool × String)
collect_paths canonical_collect canonical_zone none = none
collect_paths canonical_collect canonical_zone (some (legacy_collect, legacy_zone)) =
    let collect_on_unlock = canonical_collect || legacy_collect in
    let has_zone = canonical_zone || legacy_zone in
    if not collect_on_unlock && not has_zone
    then none
    else some (collect_on_unlock, has_zone, (if collect_on_unlock then "grant" else "zone"))

unfoldable pub gate : String → Option String
gate s = if is_empty s then none else some s

module _ {V : Type 0} (json : Json V) where
  abbrev pub array_of : V → Option (List V)
  array_of v = or_else (json.as_array v) (
      or_else (and_then (json.get "items" v) json.as_array)
        (and_then (json.get "games" v) json.as_array))

  unfoldable pub collectible_array : V → Option (List V)
  collectible_array spec =
      or_else (and_then (json.get "collectibles" spec) array_of)
        (and_then (json.get "collectables" spec) array_of)

  unfoldable pub parse_collect_paths : V → Option (Bool × Bool × String)
  parse_collect_paths item =
      let canonical_collect = and_then (json.get "collectOnUnlock" item) json.as_bool in
      let canonical_marker =
        is_some (json.get "collectOnUnlock" item) || is_some (json.get "zone" item) in
      let legacy_pickup =
        and_then (and_then (json.get "pickup" item) json.as_str) (λ s. some (trim s)) in
      collect_paths (unwrap_or canonical_collect false)
        (is_some_and (json.get "zone" item) json.is_object)
        (legacy_paths canonical_marker legacy_pickup)

  unfoldable pub parse_gated_by : V → Option String
  parse_gated_by item = gate (
      trim (
        unwrap_or
          (and_then (or_else (json.get "gated_by" item) (json.get "gatedBy" item)) json.as_str) ""))

module _ {V : Type 0} (json : Json V) (numbers : Numbers V) where
  unfoldable pub parse_unlock_score : V → Option ℕ
  parse_unlock_score item =
      and_then (or_else (json.get "unlock_score" item) (json.get "unlockScore" item))
        (λ v. or_else (numbers.as_i64 v) (or_else (numbers.as_u64 v) (numbers.as_f64 v)))

  abbrev pub collectible : V → String → Bool × Bool × String → CatalogCollectible
  collectible item slug (collect_on_unlock, has_zone, pickup) = record {
    slug = slug;
    name = display_name json item slug;
    pickup = pickup;
    collect_on_unlock = collect_on_unlock;
    has_zone = has_zone;
    gated_by = parse_gated_by json item;
    unlock_score = parse_unlock_score item;
  }

  abbrev pub with_slug :
      HashSet String
      → V
      → Bool × Bool × String
      → Result CatalogValidationError String
      → Step CatalogCollectible
  with_slug seen item paths (err error) = refused error
  with_slug seen item paths (ok slug) =
      if HashSet.member slug seen
      then refused (duplicate_slug "collectible" slug)
      else listed slug (collectible item slug paths)

  -- An entry that nothing collects is ignored before its slug is read.
  abbrev pub with_paths :
      HashSet String → ℕ → V → Option (Bool × Bool × String) → Step CatalogCollectible
  with_paths seen next_default item none = ignored
  with_paths seen next_default item (some paths) =
      with_slug seen item paths
        (slug_or_default json "collectible" "Collectible-" next_default (json.get "slug" item))

  unfoldable pub collectible_step : HashSet String → ℕ → V → Step CatalogCollectible
  collectible_step seen next_default item =
      if not (json.is_object item)
      then ignored
      else with_paths seen next_default item (parse_collect_paths json item)

  abbrev pub collectibles_of :
      Option (List V) → Result CatalogValidationError (List CatalogCollectible)
  collectibles_of none = ok []
  collectibles_of (some items) = parse_entries "Collectible-" collectible_step items [] 1

  unfoldable pub parse_catalog_collectibles :
      V → Result CatalogValidationError (List CatalogCollectible)
  parse_catalog_collectibles spec = collectibles_of (collectible_array json spec)
