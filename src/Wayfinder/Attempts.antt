-- ===== src/Wayfinder/Attempts.antt =====
-- src/queries/minigames.rs: the attempts at a map's minigames and the best score of each player. An
-- `i64` is kept by its bits. No count reaches its bound.
pub mod Laws
mod Tests
use dd2_server.Prelude.{
  ℕ, ◌+◌, ◌^◌, Bool, true, false, not, ◌&&◌, ◌||◌, Option, none, some, List, [], ◌∷◌, String, ◌==◌,
  nat_eq, string_eq, pair_eq, ltb, leb, if◌then◌else◌,
}
use dd2_server.Prelude.HashMap
use dd2_server.Prelude.HashMap.{HashMap}
use dd2_server.Catalog.{Json}
use dd2_server.Catalog.Collectibles.{Numbers}
use dd2_server.Catalog.Minigames.{CatalogGame}
use dd2_server.Wayfinder.Tables.{Catalogs, Db}
use dd2_server.Wayfinder.Hats.{lock_materialized_spec}

pub record Attempt : Type 0 where
  pub user_id : ℕ
  pub minigame_key : String
  pub elapsed_ms : ℕ
  pub status : String

pub record Pb : Type 0 where
  pub score : ℕ
  pub finish_count : ℕ
  pub attempt_count : ℕ

-- `minigame_attempt`, the last first, and `minigame_pb` by its unique key.
pub record Scores : Type 0 where
  pub attempts : List Attempt
  pub pbs : HashMap (ℕ × String) Pb

abbrev pub is_negative : ℕ → Bool
is_negative elapsed_ms = leb (2 ^ 63) elapsed_ms

unfoldable pub find_game : String → List CatalogGame → Option CatalogGame
find_game slug [] = none
find_game slug (game ∷ games) = if game.slug == slug then some game else find_game slug games

abbrev pub games_in : Option Catalogs → List CatalogGame
games_in none = []
games_in (some catalogs) = catalogs.games

-- The upsert that counts an attempt; the score of a new row is a placeholder.
abbrev pub attempted : Option Pb → Pb
attempted none = record { score = 0; finish_count = 0; attempt_count = 1 }
attempted (some pb) = record pb { attempt_count = pb.attempt_count + 1 }

-- `finish_count = 0 OR ($4 AND score > $1) OR (NOT $4 AND score < $1)`, of scores that are not
-- negative.
unfoldable pub is_better : Bool → ℕ → Pb → Bool
is_better lower_is_better elapsed_ms pb =
    (pb.finish_count == 0)
    || ((lower_is_better && ltb elapsed_ms pb.score)
        || (not lower_is_better && ltb pb.score elapsed_ms))

unfoldable pub finished : Bool → ℕ → Pb → Pb
unfolding is_better
finished lower_is_better elapsed_ms pb =
    if is_better lower_is_better elapsed_ms pb
    then record pb { score = elapsed_ms; finish_count = pb.finish_count + 1 }
    else record pb { finish_count = pb.finish_count + 1 }

-- What an accepted attempt makes of the player's row.
unfoldable pub played : Bool → String → ℕ → Option Pb → Pb
unfolding finished
played lower_is_better status elapsed_ms o =
    if status == "finish" then finished lower_is_better elapsed_ms (attempted o) else attempted o

-- `minigame_key` is the key of a slug on a map, from their MD5.
module _ (minigame_key : String → String → String) where
  abbrev pub write_attempt : ℕ → String → String → ℕ → String → Option CatalogGame → Scores → Scores
  write_attempt user_id map_uid slug elapsed_ms status none scores = scores
  write_attempt user_id map_uid slug elapsed_ms status (some game) scores =
      let key = minigame_key map_uid slug in
      record {
        attempts =
            record {
              user_id = user_id;
              minigame_key = key;
              elapsed_ms = elapsed_ms;
              status = status;
            }
            ∷ scores.attempts;
        pbs =
            HashMap.insert (user_id, key)
              (played (game.kind == "Sprint") status elapsed_ms
                (HashMap.get (user_id, key) scores.pbs))
              scores.pbs;
      }

  unfoldable pub report_attempt :
      {V : Type 0}
      → Json V
      → Numbers V
      → (V → String)
      → ℕ
      → String
      → String
      → ℕ
      → ℕ
      → String
      → Db V
      → Scores
      → Scores
  unfolding find_game lock_materialized_spec played
  report_attempt json numbers hash user_id map_uid slug spec_id elapsed_ms status db scores =
      if (status == "finish") && is_negative elapsed_ms
      then scores
      else if not (lock_materialized_spec json numbers hash map_uid spec_id db)
      then scores
      else write_attempt user_id map_uid slug elapsed_ms status
          (find_game slug (games_in (HashMap.get map_uid db.on_map))) scores
