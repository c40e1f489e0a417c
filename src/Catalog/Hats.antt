-- ===== src/Catalog/Hats.antt =====
-- src/queries/hats.rs: the hats that a map's spec lists.
pub mod Uids
pub mod Laws
use dd2_server.Prelude.{
  ℕ, Bool, true, false, not, ◌&&◌, ◌||◌, Option, none, some, List, [], ◌∷◌, String, if◌then◌else◌,
  string_eq, Result, ok, err, ◌>>=◌,
}
use dd2_server.Prelude.HashSet
use dd2_server.Prelude.HashSet.{HashSet}
use dd2_server.Prelude.Text.{is_empty, trim}
use dd2_server.Catalog.{
  Json, or_else, and_then, unwrap_or, CatalogValidationError, duplicate_slug, duplicate_record_uid,
}
use dd2_server.Catalog.Slugs.{slug_or_default, display_name}
use dd2_server.Catalog.Entries.{Step, ignored, refused, unlisted, listed, parse_entries}

pub record CatalogHat : Type 0 where
  pub slug : String
  pub name : String
  pub finish_this_map : Bool
  pub record_uids : List String

-- What one value among the uids comes to.
pub data UidStep : Type 0 where
  skipped : UidStep
  repeated new : (uid : String) → UidStep

unfoldable pub uid_step : HashSet String → Option String → UidStep
uid_step seen none = skipped
uid_step seen (some text) =
    let uid = trim text in
    if is_empty uid then skipped else if HashSet.member uid seen then repeated uid else new uid

abbrev pub no_uids : List String → Bool
no_uids [] = true
no_uids (uid ∷ uids) = false

module _ {V : Type 0} (json : Json V) where
  abbrev pub items_or_games : V → Option (List V)
  items_or_games v =
      or_else (and_then (json.get "items" v) json.as_array)
        (and_then (json.get "games" v) json.as_array)

  -- A bare array, or an object with the entries under `items` or `games`.
  unfoldable pub hats_array : V → Option (List V)
  hats_array spec =
      and_then (json.get "hats" spec) (λ v. or_else (json.as_array v) (items_or_games v))

  unfoldable pub distinct_uids :
      List V → HashSet String → Result CatalogValidationError (List String)
  distinct_uids [] seen = ok []
  distinct_uids (v ∷ values) seen = elim (uid_step seen (json.as_str v)) [
    | skipped ↦ distinct_uids values seen
    | repeated uid ↦ err (duplicate_record_uid uid)
    | new uid ↦ distinct_uids values (uid ∷ seen) >>= λ uids. ok (uid ∷ uids)
  ]

  abbrev pub uids_of : Option (List V) → Result CatalogValidationError (List String)
  uids_of none = ok []
  uids_of (some values) = distinct_uids values []

  abbrev pub finish_field : V → Bool
  finish_field unlock =
      unwrap_or
        (and_then (or_else (json.get "finishThisMap" unlock) (json.get "finish_this_map" unlock))
          json.as_bool)
        false

  abbrev pub record_uids_field : V → Option (List V)
  record_uids_field unlock =
      and_then (or_else (json.get "recordUids" unlock) (json.get "record_uids" unlock))
        json.as_array

  abbrev pub unlock_fields : Option V → Result CatalogValidationError (Bool × List String)
  unlock_fields none = ok (false, [])
  unlock_fields (some unlock) =
      uids_of (record_uids_field unlock) >>= λ uids. ok (finish_field unlock, uids)

  unfoldable pub parse_unlock : V → Result CatalogValidationError (Bool × List String)
  parse_unlock item = unlock_fields (json.get "unlock" item)

  -- An entry with no condition is left out.
  abbrev pub unlockable :
      V → String → Result CatalogValidationError (Bool × List String) → Step CatalogHat
  unlockable item slug (err error) = refused error
  unlockable item slug (ok (finish, uids)) =
      if not finish && no_uids uids
      then unlisted slug
      else listed slug (record {
        slug = slug;
        name = display_name json item slug;
        finish_this_map = finish;
        record_uids = uids;
      })

  abbrev pub hat_with_slug :
      HashSet String → V → Result CatalogValidationError String → Step CatalogHat
  hat_with_slug seen item (err error) = refused error
  hat_with_slug seen item (ok slug) =
      if HashSet.member slug seen
      then refused (duplicate_slug "hat" slug)
      else unlockable item slug (parse_unlock item)

  unfoldable pub hat_step : HashSet String → ℕ → V → Step CatalogHat
  hat_step seen next_default item =
      if not (json.is_object item)
      then ignored
      else hat_with_slug seen item
          (slug_or_default json "hat" "Hat-" next_default (json.get "slug" item))

  abbrev pub hats_of : Option (List V) → Result CatalogValidationError (List CatalogHat)
  hats_of none = ok []
  hats_of (some items) = parse_entries "Hat-" hat_step items [] 1

  unfoldable pub parse_catalog_hats : V → Result CatalogValidationError (List CatalogHat)
  parse_catalog_hats spec = hats_of (hats_array spec)
