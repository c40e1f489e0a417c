-- ===== src/Wayfinder/Pickups.antt =====
-- src/queries/collectibles.rs: the collectibles that players unlock and collect on a map, and the
-- log of what was collected first. An `f32` is kept by its bits.
pub mod Logged
mod Tests
use dd2_server.Prelude.{
  ℕ, ◌/◌, ◌%◌, ◌^◌, Bool, true, false, not, ◌&&◌, ◌||◌, Option, none, some, List, [], ◌∷◌, String,
  ◌==◌, nat_eq, string_eq, pair_eq, leb, if◌then◌else◌,
}
use dd2_server.Prelude.HashMap
use dd2_server.Prelude.HashMap.{HashMap}
use dd2_server.Catalog.{Json}
use dd2_server.Catalog.Collectibles.{Numbers, CatalogCollectible}
use dd2_server.Wayfinder.Tables.{Catalogs, Db}
use dd2_server.Wayfinder.Hats.{lock_materialized_spec}

-- `collectible_progress`, and `collectible_collect_log`: each by a user and a key, which is unique
-- in both.
pub record Progress : Type 0 where
  pub map_uid : String
  pub slug : String
  pub unlocked_at : Option ℕ
  pub collected_at : Option ℕ

pub record LogRow : Type 0 where
  pub map_uid : String
  pub slug : String
  pub collected_at : ℕ
  pub pos_x : ℕ
  pub pos_y : ℕ
  pub pos_z : ℕ
  pub source : String

pub record Pickups : Type 0 where
  pub progress : HashMap (ℕ × String) Progress
  pub log : HashMap (ℕ × String) LogRow

pub record OnMapRow : Type 0 where
  pub collectible_key : String
  pub collect_on_unlock : Bool
  pub has_zone : Bool

unfoldable pub find_collectible : String → List CatalogCollectible → Option CatalogCollectible
find_collectible slug [] = none
find_collectible slug (item ∷ items) =
    if item.slug == slug then some item else find_collectible slug items

abbrev pub collectibles_in : Option Catalogs → List CatalogCollectible
collectibles_in none = []
collectibles_in (some catalogs) = catalogs.collectibles

abbrev pub row_of : String → Option CatalogCollectible → Option OnMapRow
row_of key none = none
row_of key (some item) = some (record {
  collectible_key = key;
  collect_on_unlock = item.collect_on_unlock;
  has_zone = item.has_zone;
})

unfoldable pub collect_log_source : String → Option String
collect_log_source raw = if (raw == "zone") || (raw == "grant") then some raw else none

-- The bits of 1.0e6.
abbrev collect_position_limit : ℕ
collect_position_limit = 1232348160

-- Finite, so that the exponent's bits are not all set, and at most the limit without the sign: such
-- numbers are ordered as their bits are.
abbrev pub is_plausible : ℕ → Bool
is_plausible value =
    not (value / 2 ^ 23 % 2 ^ 8 == 255) && leb (value % 2 ^ 31) collect_position_limit

unfoldable pub collect_position_is_plausible : ℕ → ℕ → ℕ → Bool
collect_position_is_plausible x y z = is_plausible x && (is_plausible y && is_plausible z)

abbrev pub source_allowed : String → OnMapRow → Bool
source_allowed source row =
    if source == "grant"
    then row.collect_on_unlock
    else if source == "zone"
    then row.has_zone
    else false

-- `COALESCE`.
abbrev pub or_now : Option ℕ → ℕ → Option ℕ
or_now none now = some now
or_now (some t) now = some t

abbrev pub with_unlock : String → String → ℕ → Option Progress → Progress
with_unlock map_uid slug now none = record {
  map_uid = map_uid;
  slug = slug;
  unlocked_at = some now;
  collected_at = none;
}
with_unlock map_uid slug now (some row) = record row { unlocked_at = or_now row.unlocked_at now }

abbrev pub with_collect : String → String → ℕ → Option Progress → Progress
with_collect map_uid slug now none = record {
  map_uid = map_uid;
  slug = slug;
  unlocked_at = some now;
  collected_at = some now;
}
with_collect map_uid slug now (some row) = record row {
  unlocked_at = or_now row.unlocked_at now;
  collected_at = or_now row.collected_at now;
}

abbrev pub was_collected : Option Progress → Option ℕ
was_collected none = none
was_collected (some row) = row.collected_at

-- `ON CONFLICT DO NOTHING`.
abbrev pub insert_log :
    ℕ × String → LogRow → Option LogRow → HashMap (ℕ × String) LogRow → HashMap (ℕ × String) LogRow
insert_log at row (some old) log = log
insert_log at row none log = HashMap.insert at row log

abbrev pub log_first :
    ℕ × String → LogRow → Option ℕ → HashMap (ℕ × String) LogRow → HashMap (ℕ × String) LogRow
log_first at row (some collected_at) log = log
log_first at row none log = insert_log at row (HashMap.get at log) log

unfoldable pub record_collect_transition : ℕ × String → LogRow → Pickups → Pickups
record_collect_transition at row pickups =
    let previous = HashMap.get at pickups.progress in
    record {
      progress =
          HashMap.insert at (with_collect row.map_uid row.slug row.collected_at previous)
            pickups.progress;
      log = log_first at row (was_collected previous) pickups.log;
    }

abbrev pub unlock_row : ℕ → String → String → ℕ → Option OnMapRow → Pickups → Pickups
unlock_row user_id map_uid slug now none pickups = pickups
unlock_row user_id map_uid slug now (some row) pickups =
    let at : ℕ × String = (user_id, row.collectible_key) in
    record pickups {
      progress =
          HashMap.insert at (with_unlock map_uid slug now (HashMap.get at pickups.progress))
            pickups.progress;
    }

-- `entry` is the row that a first collection logs.
abbrev pub collect_row : ℕ → LogRow → Option OnMapRow → Pickups → Pickups
collect_row user_id entry none pickups = pickups
collect_row user_id entry (some row) pickups =
    if not (source_allowed entry.source row)
    then pickups
    else record_collect_transition (user_id, row.collectible_key) entry pickups

-- `collectible_key` is the key of a slug on a map, from their MD5.
module _ {V : Type 0} (json : Json V) (numbers : Numbers V) (hash : V → String)
    (collectible_key : String → String → String) where
  unfoldable pub lock_materialized_row : String → ℕ → String → Db V → Option OnMapRow
  unfolding lock_materialized_spec find_collectible
  lock_materialized_row map_uid spec_id slug db =
      if not (lock_materialized_spec json numbers hash map_uid spec_id db)
      then none
      else row_of (collectible_key map_uid slug)
          (find_collectible slug (collectibles_in (HashMap.get map_uid db.on_map)))

  unfoldable pub report_unlock : ℕ → String → String → ℕ → ℕ → Db V → Pickups → Pickups
  unfolding lock_materialized_row
  report_unlock user_id map_uid slug spec_id now db pickups =
      unlock_row user_id map_uid slug now (lock_materialized_row map_uid spec_id slug db) pickups

  abbrev pub collect_from : ℕ → ℕ → LogRow → Option String → Db V → Pickups → Pickups
  collect_from user_id spec_id entry none db pickups = pickups
  collect_from user_id spec_id entry (some source) db pickups =
      if not (collect_position_is_plausible entry.pos_x entry.pos_y entry.pos_z)
      then pickups
      else collect_row user_id (record entry { source = source })
          (lock_materialized_row entry.map_uid spec_id entry.slug db) pickups

  unfoldable pub report_collect : ℕ → ℕ → LogRow → Db V → Pickups → Pickups
  unfolding collect_log_source collect_position_is_plausible record_collect_transition
      lock_materialized_row
  report_collect user_id spec_id entry db pickups =
      collect_from user_id spec_id entry (collect_log_source entry.source) db pickups
