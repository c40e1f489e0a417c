-- ===== src/Catalog/Minigames.antt =====
-- src/queries/minigames.rs: the minigames that a map's spec lists. An `i64` is kept by its bits.
pub mod Laws
use dd2_server.Prelude.{
  ℕ, ◌+◌, ◌%◌, ◌^◌, Bool, true, false, not, ◌||◌, Option, none, some, List, [], ◌∷◌, String,
  if◌then◌else◌, string_eq, nat_eq, ◌==◌, Result, ok, err, ◌>>=◌,
}
use dd2_server.Prelude.HashMap
use dd2_server.Prelude.HashMap.{HashMap}
use dd2_server.Prelude.HashSet
use dd2_server.Prelude.HashSet.{HashSet}
use dd2_server.Prelude.Text.{is_empty, trim, join}
use dd2_server.Catalog.{Json, or_else, and_then, unwrap_or, CatalogValidationError, duplicate_slug}
use dd2_server.Catalog.Slugs.{slug_or_default}
use dd2_server.Catalog.Collectibles.{Numbers}

pub record CatalogGame : Type 0 where
  pub slug : String
  pub kind : String
  pub name : String
  pub lower_is_better : Bool

unfoldable pub map_kind_str : String → Option (String × Bool)
map_kind_str k =
    if k == "Sprint" || (k == "TimeTrial" || k == "PuzzleLocations")
    then some ("Sprint", true)
    else if k == "Survival" || (k == "TimeOffGround" || k == "KingOfTheHill")
    then some ("Survival", false)
    else if k == "Darts" || k == "JumpAccuracy"
    then some ("Darts", false)
    else if k == "HighJump" || k == "JumpHigh"
    then some ("HighJump", false)
    else if k == "LongJump"
    then some ("LongJump", false)
    else if k == "MaxAvgSpeed"
    then some ("MaxAvgSpeed", false)
    else none

unfoldable pub map_kind_int : ℕ → Option (String × Bool)
map_kind_int t =
    if t == 1
    then some ("Sprint", true)
    else if t == 2
    then some ("HighJump", false)
    else if t == 3
    then some ("Darts", false)
    else if t == 4
    then some ("MaxAvgSpeed", false)
    else if t == 5
    then some ("Survival", false)
    else if t == 6
    then some ("Sprint", true)
    else none

-- A blank or missing kind is no kind.
abbrev pub kind_text : Option String → Option String
kind_text none = none
kind_text (some k) = if is_empty (trim k) then none else some (trim k)

abbrev pub by_text : Option String → Option (String × Bool) → Option (String × Bool)
by_text none by_type = by_type
by_text (some k) by_type = map_kind_str k

unfoldable pub new_slug : HashSet String → String → Result CatalogValidationError String
new_slug seen slug =
    if HashSet.member slug seen then err (duplicate_slug "minigame" slug) else ok slug

module _ {V : Type 0} (json : Json V) (numbers : Numbers V) where
  -- A text `kind` goes before a number `type`, also where it is unknown.
  unfoldable pub map_kind_from_game : V → Option (String × Bool)
  unfolding map_kind_str map_kind_int
  map_kind_from_game game = by_text (kind_text (and_then (json.get "kind" game) json.as_str)) (
      and_then
        (and_then (json.get "type" game)
          (λ v. or_else (numbers.as_i64 v) (or_else (numbers.as_u64 v) (numbers.as_f64 v))))
        map_kind_int)

  abbrev pub game_of : V → String × Bool → String → CatalogGame
  game_of game (kind, lower_is_better) slug = record {
    slug = slug;
    kind = kind;
    name = unwrap_or (and_then (json.get "name" game) json.as_str) "";
    lower_is_better = lower_is_better;
  }

  -- The number of the next game of a kind, as a `u32`.
  abbrev pub next_of : String → HashMap String ℕ → ℕ
  next_of kind kind_counts = (unwrap_or (HashMap.get kind kind_counts) 0 + 1) % 2 ^ 32

  -- What an object is listed as, if its kind is known.
  unfoldable pub known_kind : V → Option (String × Bool)
  unfolding map_kind_from_game
  known_kind game = if not (json.is_object game) then none else map_kind_from_game game

  abbrev pub slug_of : String → ℕ → V → Result CatalogValidationError String
  slug_of kind next game =
      slug_or_default json "minigame" (join kind "-") next (json.get "slug" game)

  unfoldable pub parse_games :
      List V → HashSet String → HashMap String ℕ → Result CatalogValidationError (List CatalogGame)
  unfolding known_kind new_slug
  parse_games [] seen kind_counts = ok []
  parse_games (game ∷ games) seen kind_counts = elim (known_kind game) [
    | none ↦ parse_games games seen kind_counts
    | some (kind, lower_is_better) ↦ slug_of kind (next_of kind kind_counts) game >>= λ slug.
        new_slug seen slug >>= λ fresh.
        parse_games games (slug ∷ seen) (HashMap.insert kind (next_of kind kind_counts) kind_counts)
        >>= λ rest. ok (game_of game (kind, lower_is_better) slug ∷ rest)
  ]

  abbrev pub games_of : Option (List V) → Result CatalogValidationError (List CatalogGame)
  games_of none = ok []
  games_of (some games) = parse_games games [] []

  unfoldable pub parse_catalog_games : V → Result CatalogValidationError (List CatalogGame)
  unfolding parse_games
  parse_catalog_games spec =
      games_of (and_then (and_then (json.get "minigames" spec) (json.get "games")) json.as_array)
