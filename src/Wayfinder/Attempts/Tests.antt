-- ===== src/Wayfinder/Attempts/Tests.antt =====
-- A player at a sprint: src/queries/minigames.rs.
use dd2_server.Prelude.{
  ◌≡◌, refl, true, some, none, List, [], ◌∷◌, String, nat_eq, string_eq, pair_eq, option_eq,
}
use dd2_server.Prelude.HashMap
use dd2_server.Catalog.{unwrap_or, and_then}
use dd2_server.Catalog.Values.{Value, text, object, close, field, get, as_str, json, no_numbers}
use dd2_server.Catalog.Minigames.{CatalogGame}
use dd2_server.Wayfinder.Tables.{Db}
use dd2_server.Wayfinder.Hats.{lock_materialized_spec}
use dd2_server.Wayfinder.Attempts.{Scores, find_game, games_in}
use dd2_server.Wayfinder.Attempts.Laws.{
  Try, IsRow, accepted, reported, row_in, report_attempt-IsRow,
}

abbrev hash : Value → String
hash v = unwrap_or (and_then (get "title" v) as_str) ""

abbrev key : String → String → String
key map_uid slug = "key"

abbrev sprint : CatalogGame
sprint = record { slug = "race"; kind = "Sprint"; name = "race"; lower_is_better = true }

abbrev bound : Db Value
bound = record {
  specs =
      (
        7,
        record {
          user_id = 1;
          name_id = "tower";
          spec = object (field "title" (text "tower") close);
          hit_counter = 0;
          listing_threshold = 25;
          created_at = 10;
          updated_at = 20;
        },
      )
      ∷ [];
  next_id = 8;
  bindings =
      (
        "map",
        record {
          spec_id = 7;
          verified_author_id = some 1;
          author_verified_at = some 100;
          materialized_spec_updated_at = some 20;
          materialized_spec_hash = some "tower";
        },
      )
      ∷ [];
  catalogs = [];
  on_map = ("map", record { games = sprint ∷ []; collectibles = []; hats = [] }) ∷ [];
  equipped = [];
  unlocks = [];
}

abbrev unplayed : Scores
unplayed = record { attempts = []; pbs = [] }

-- The last first: a slower finish, a finish, and a try that was given up.
abbrev tries : List Try
tries = ("finish", 70) ∷ ("finish", 50) ∷ ("fail", 20) ∷ []

locked : lock_materialized_spec json no_numbers hash "map" 7 bound ≡ true
unfolding lock_materialized_spec HashMap.get
locked = refl

known : find_game "race" (games_in (HashMap.get "map" bound.on_map)) ≡ some sprint
unfolding find_game HashMap.get
known = refl

new : row_in json no_numbers hash key 5 "map" "race" 7 bound unplayed ≡ none
unfolding HashMap.get
new = refl

report_attempt-IsRow_example : IsRow true (accepted tries) (
    row_in json no_numbers hash key 5 "map" "race" 7 bound
      (reported json no_numbers hash key 5 "map" "race" 7 bound tries unplayed))
report_attempt-IsRow_example =
    report_attempt-IsRow json no_numbers hash key 5 "map" "race" 7 bound sprint locked known tries
      unplayed new
