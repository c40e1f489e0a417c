-- ===== src/Wayfinder/Hats.antt =====
-- src/queries/hats.rs: the unlock and the change of a hat on a map, and what a player is told.
pub mod Unlocks
pub mod Equipped
pub mod Handled
pub mod Frames
pub mod Locks
use dd2_server.Prelude.{
  ℕ, Bool, true, false, not, ◌&&◌, ◌||◌, Option, none, some, List, [], ◌∷◌, String, ◌==◌, nat_eq,
  string_eq, option_eq, pair_eq, Result, ok, err, if◌then◌else◌, all,
}
use dd2_server.Prelude.HashMap
use dd2_server.Prelude.Text.{is_empty}
use dd2_server.Catalog.{Json}
use dd2_server.Catalog.Collectibles.{Numbers}
use dd2_server.Catalog.Hats.{CatalogHat}
use dd2_server.Wayfinder.Tables.{SpecRow, Binding, Catalogs, Db, is_some}
use dd2_server.Wayfinder.Bindings.{is_materialized, resolve_bound_spec, verified_binding_spec_id}

-- What Nadeo's records say of a player on a map, or of what else is asked, and whether the unlock
-- of a hat may be validated now.
pub record OfficialRecordVerifier : Type 0 where
  pub has_recent_official_record : ℕ → String → Result String Bool
  pub has_official_record : ℕ → String → Result String Bool
  pub allow_unlock_validation : ℕ → String → String → Bool

pub record OnMapRow : Type 0 where
  pub hat_key : String
  pub finish_this_map : Bool
  pub record_uids : List String

abbrev pub same_bool : Bool → Bool → Bool
same_bool true b = b
same_bool false b = not b

abbrev pub same_uids : List String → List String → Bool
same_uids [] [] = true
same_uids [] (uid ∷ uids) = false
same_uids (uid ∷ uids) [] = false
same_uids (uid ∷ uids) (uid' ∷ uids') = uid == uid' && same_uids uids uids'

-- `PartialEq` of the rows.
abbrev pub same_row : OnMapRow → OnMapRow → Bool
same_row row row' =
    row.hat_key == row'.hat_key
    && (same_bool row.finish_this_map row'.finish_this_map
        && same_uids row.record_uids row'.record_uids)

-- An error counts as a refusal.
abbrev pub is_valid : Result String Bool → Bool
is_valid (ok valid) = valid
is_valid (err error) = false

abbrev pub has_no_uid : List String → Bool
has_no_uid [] = true
has_no_uid (uid ∷ uids) = false

unfoldable pub validate_hat_unlock : OfficialRecordVerifier → ℕ → String → OnMapRow → Bool
validate_hat_unlock v user_id map_uid row =
    if not row.finish_this_map && has_no_uid row.record_uids
    then false
    else if row.finish_this_map && not (is_valid (v.has_recent_official_record user_id map_uid))
    then false
    else all (λ uid. is_valid (v.has_official_record user_id uid)) row.record_uids

unfoldable pub find_hat : String → List CatalogHat → Option CatalogHat
find_hat slug [] = none
find_hat slug (hat ∷ hats) = if hat.slug == slug then some hat else find_hat slug hats

abbrev pub hats_in : Option Catalogs → List CatalogHat
hats_in none = []
hats_in (some catalogs) = catalogs.hats

-- `hat_key` is the key of a slug on a map, from their MD5.
abbrev pub row_of :
    (String → String → String) → String → String → Option CatalogHat → Option OnMapRow
row_of hat_key map_uid slug none = none
row_of hat_key map_uid slug (some hat) = some (record {
  hat_key = hat_key map_uid slug;
  finish_this_map = hat.finish_this_map;
  record_uids = hat.record_uids;
})

module _ {V : Type 0} where
  -- `SELECT … FROM hat_on_map WHERE map_uid = $1 AND slug = $2`.
  unfoldable pub on_map_row : (String → String → String) → String → String → Db V → Option OnMapRow
  unfolding find_hat
  on_map_row hat_key map_uid slug db =
      row_of hat_key map_uid slug (find_hat slug (hats_in (HashMap.get map_uid db.on_map)))

  unfoldable pub already_unlocked : ℕ → String → Db V → Bool
  already_unlocked user_id key db = is_some (HashMap.get (user_id, key) db.unlocks)

  abbrev pub insert_unlock : ℕ → String → String → String → Option (String × String) → Db V → Db V
  insert_unlock user_id key map_uid slug (some old) db = db
  insert_unlock user_id key map_uid slug none db = record db {
    unlocks = HashMap.insert (user_id, key) (map_uid, slug) db.unlocks;
  }

  -- The transaction that ends an unlock: the hat must still be what was validated.
  abbrev pub write_unlock : ℕ → String → String → OnMapRow → Option OnMapRow → Db V → Bool × Db V
  write_unlock user_id map_uid slug row none db = (false, db)
  write_unlock user_id map_uid slug row (some locked_row) db =
      if not (same_row locked_row row) then (false, db) else (
        true,
        insert_unlock user_id locked_row.hat_key map_uid slug
            (HashMap.get (user_id, locked_row.hat_key) db.unlocks) db,
      )

  -- The row of the unlock, joined with the hat on the map.
  unfoldable pub has_unlocked : (String → String → String) → ℕ → String → String → Db V → Bool
  unfolding find_hat
  has_unlocked hat_key user_id map_uid slug db =
      HashMap.get (user_id, hat_key map_uid slug) db.unlocks == some (map_uid, slug)
      && is_some (find_hat slug (hats_in (HashMap.get map_uid db.on_map)))

  abbrev pub put_on : ℕ → String → String → Db V → Option String × Db V
  put_on user_id map_uid slug db =
      if HashMap.get (map_uid, user_id) db.equipped == some slug
      then (none, db)
      else (some slug, record db { equipped = HashMap.insert (map_uid, user_id) slug db.equipped })

  abbrev pub unequip : ℕ → String → Option String → Db V → Option String × Db V
  unequip user_id map_uid none db = (none, db)
  unequip user_id map_uid (some worn) db =
      (some "", record db { equipped = HashMap.remove (map_uid, user_id) db.equipped })

module _ {V : Type 0} (json : Json V) (numbers : Numbers V) (hash : V → String) where
  abbrev pub is_of_spec : ℕ → SpecRow V → Option Binding → Bool
  is_of_spec spec_id source none = false
  is_of_spec spec_id source (some binding) =
      binding.spec_id == spec_id
      && is_some binding.author_verified_at
      && (binding.verified_author_id == some source.user_id
          && is_materialized json numbers hash source binding)

  abbrev pub is_of_source : ℕ → Option (SpecRow V) → Option Binding → Bool
  is_of_source spec_id none o = false
  is_of_source spec_id (some source) o = is_of_spec spec_id source o

  -- src/queries/listed_maps.rs: the rows are locked until the transaction ends.
  unfoldable pub lock_materialized_spec : String → ℕ → Db V → Bool
  lock_materialized_spec map_uid spec_id db =
      is_of_source spec_id (HashMap.get spec_id db.specs) (HashMap.get map_uid db.bindings)

module _ {V : Type 0} (json : Json V) (numbers : Numbers V) (hash : V → String)
    (hat_key : String → String → String) where
  unfoldable pub materialized_row : String → ℕ → String → Db V → Option OnMapRow
  unfolding on_map_row
  materialized_row map_uid spec_id slug db =
      if is_some (resolve_bound_spec json numbers hash map_uid spec_id db)
      then on_map_row hat_key map_uid slug db
      else none

  unfoldable pub lock_materialized_row : String → ℕ → String → Db V → Option OnMapRow
  unfolding lock_materialized_spec on_map_row
  lock_materialized_row map_uid spec_id slug db =
      if lock_materialized_spec json numbers hash map_uid spec_id db
      then on_map_row hat_key map_uid slug db
      else none

  abbrev pub unlock_row :
      OfficialRecordVerifier → ℕ → String → String → ℕ → Db V → Db V → Option OnMapRow → Bool × Db V
  unlock_row v user_id map_uid slug spec_id before db none = (false, db)
  unlock_row v user_id map_uid slug spec_id before db (some row) =
      if already_unlocked user_id row.hat_key before
      then (true, db)
      else if not (v.allow_unlock_validation user_id map_uid slug)
      then (false, db)
      else if not (validate_hat_unlock v user_id map_uid row)
      then (false, db)
      else write_unlock user_id map_uid slug row (lock_materialized_row map_uid spec_id slug db) db

  -- `before` is what the checks read, `db` what the transaction meets after Nadeo has answered.
  unfoldable pub report_unlock :
      OfficialRecordVerifier → ℕ → String → String → ℕ → Db V → Db V → Bool × Db V
  unfolding materialized_row already_unlocked validate_hat_unlock lock_materialized_row
  report_unlock v user_id map_uid slug spec_id before db =
      unlock_row v user_id map_uid slug spec_id before db
        (materialized_row map_uid spec_id slug before)

  abbrev pub equip : ℕ → String → String → Option Binding → Db V → Option String × Db V
  equip user_id map_uid slug none db = (none, db)
  equip user_id map_uid slug (some binding) db =
      if not (lock_materialized_spec json numbers hash map_uid binding.spec_id db)
      then (none, db)
      else if not (has_unlocked hat_key user_id map_uid slug db)
      then (none, db)
      else put_on user_id map_uid slug db

  -- The slug that is pushed to the map where something has changed, with the player's id and name.
  unfoldable pub report_equip : ℕ → String → String → Db V → Option String × Db V
  unfolding lock_materialized_spec has_unlocked
  report_equip user_id map_uid slug db =
      if is_empty slug
      then unequip user_id map_uid (HashMap.get (map_uid, user_id) db.equipped) db
      else equip user_id map_uid slug (HashMap.get map_uid db.bindings) db
