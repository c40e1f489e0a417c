-- ===== src/Wayfinder/Pickups/Tests.antt =====
-- A player who collects a coin: src/queries/collectibles.rs.
use dd2_server.Prelude.{
  ◌≡◌, refl, true, false, some, none, [], ◌∷◌, String, nat_eq, string_eq, pair_eq, option_eq,
}
use dd2_server.Prelude.HashMap
use dd2_server.Catalog.{unwrap_or, and_then}
use dd2_server.Catalog.Values.{Value, text, object, close, field, get, as_str, json, no_numbers}
use dd2_server.Catalog.Collectibles.{CatalogCollectible}
use dd2_server.Wayfinder.Tables.{Db}
use dd2_server.Wayfinder.Hats.{lock_materialized_spec}
use dd2_server.Wayfinder.Pickups.{
  LogRow, Pickups, find_collectible, collect_log_source, collect_position_is_plausible,
  record_collect_transition, lock_materialized_row, report_unlock, report_collect,
}
use dd2_server.Wayfinder.Pickups.Logged.{IsLogged, Reach, Reach-IsLogged}

abbrev hash : Value → String
hash v = unwrap_or (and_then (get "title" v) as_str) ""

abbrev key : String → String → String
key map_uid slug = "key"

abbrev coin : CatalogCollectible
coin = record {
  slug = "coin";
  name = "coin";
  pickup = "zone";
  collect_on_unlock = false;
  has_zone = true;
  gated_by = none;
  unlock_score = none;
}

abbrev bound : Db Value
bound = record {
  specs =
      (
        7,
        record {
          user_id = 1;
          name_id = "tower";
          spec = object (field "title" (text "tower") close);
          hit_counter = 0;
          listing_threshold = 25;
          created_at = 10;
          updated_at = 20;
        },
      )
      ∷ [];
  next_id = 8;
  bindings =
      (
        "map",
        record {
          spec_id = 7;
          verified_author_id = some 1;
          author_verified_at = some 100;
          materialized_spec_updated_at = some 20;
          materialized_spec_hash = some "tower";
        },
      )
      ∷ [];
  catalogs = [];
  on_map = ("map", record { games = []; collectibles = coin ∷ []; hats = [] }) ∷ [];
  equipped = [];
  unlocks = [];
}

abbrev nothing : Pickups
nothing = record { progress = []; log = [] }

-- At 0.0, 1.0 and -2.0.
abbrev found : LogRow
found = record {
  map_uid = "map";
  slug = "coin";
  collected_at = 200;
  pos_x = 0;
  pos_y = 1065353216;
  pos_z = 3221225472;
  source = "zone";
}

abbrev unlocked : Pickups
unlocked = report_unlock json no_numbers hash key 5 "map" "coin" 7 150 bound nothing

abbrev collected : Pickups
collected = report_collect json no_numbers hash key 5 7 found bound unlocked

logs_coin : HashMap.get (5, "key") collected.log ≡ some found
unfolding HashMap.get HashMap.insert report_unlock report_collect lock_materialized_row
    lock_materialized_spec find_collectible collect_log_source collect_position_is_plausible
    record_collect_transition
logs_coin = refl

-- A position at infinity is not logged.
unplaced :
    report_collect json no_numbers hash key 5 7 (record found { pos_x = 2139095040 }) bound nothing
    ≡ nothing
unfolding report_collect collect_log_source collect_position_is_plausible
unplaced = refl

Reach-IsLogged_example :
    IsLogged (HashMap.get (5, "key") collected.progress) (HashMap.get (5, "key") collected.log)
Reach-IsLogged_example =
    Reach-IsLogged json no_numbers hash key
      (Reach.collects 5 7 found bound (Reach.unlocks 5 "map" "coin" 7 150 bound Reach.start))
      (5, "key")
