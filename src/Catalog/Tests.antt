-- ===== src/Catalog/Tests.antt =====
-- Catalogs of src/queries/hats.rs and src/queries/collectibles.rs, from specs of their own tests.
use dd2_server.Prelude.{
  ◌≡◌, refl, Bool, true, false, none, some, List, [], ◌∷◌, String, if◌then◌else◌, string_eq,
  eq_ignore_ascii_case, ok, err,
}
use dd2_server.Prelude.Text.{
  is_empty, trim, trim_start, trim_end, join, strip_prefix, parse_digits, strip_plus, parse_u32,
  write_digits, to_decimal,
}
use dd2_server.Prelude.HashSet
use dd2_server.Catalog.{duplicate_slug}
use dd2_server.Catalog.Values.{
  Value, text, boolean, array, object, Values, end, item, close, field, json, no_numbers,
}
use dd2_server.Catalog.Slugs.{trimmed_slug, slug_or_default, slug_number, next_after, display_name}
use dd2_server.Catalog.Entries.{parse_entries}
use dd2_server.Catalog.Entries.Laws.{IsCatalog}
use dd2_server.Catalog.Hats.{
  CatalogHat, uid_step, hats_array, distinct_uids, parse_unlock, hat_step, parse_catalog_hats,
}
use dd2_server.Catalog.Hats.Laws.{IsHat, parse_catalog_hats-IsCatalog}
use dd2_server.Catalog.Collectibles.{
  CatalogCollectible, legacy_paths, collect_paths, gate, collectible_array, parse_collect_paths,
  parse_gated_by, parse_unlock_score, collectible_step, parse_catalog_collectibles,
}
use dd2_server.Catalog.Collectibles.Laws.{IsCollectible, parse_catalog_collectibles-IsCatalog}
use dd2_server.Prelude.HashMap
use dd2_server.Catalog.Minigames.{
  CatalogGame, parse_catalog_games, parse_games, known_kind, map_kind_from_game, map_kind_str,
  map_kind_int, new_slug,
}
use dd2_server.Catalog.Minigames.Laws.{IsGame, parse_catalog_games-IsCatalog}

abbrev finish : Value
finish = object (field "finishThisMap" (boolean true) close)

abbrev hats_spec : Values → Value
hats_spec vs = object (field "hats" (array vs) close)

-- A default after an explicit slug of its form, and a hat with no condition.
abbrev hats : Value
hats = hats_spec (
    item (object (field "slug" (text " Hat-4 ") (field "unlock" finish close))) (
      item (object (field "slug" (text "free") close))
        (item (object (field "unlock" finish close)) end)))

abbrev hat : String → CatalogHat
hat slug = record { slug = slug; name = slug; finish_this_map = true; record_uids = [] }

hats_parsed : parse_catalog_hats json hats ≡ ok (hat "Hat-4" ∷ hat "Hat-5" ∷ [])
unfolding parse_catalog_hats hats_array hat_step parse_unlock distinct_uids uid_step trim trim_start
    trim_end is_empty join strip_prefix parse_digits strip_plus parse_u32 write_digits to_decimal
    HashSet.member trimmed_slug slug_or_default slug_number next_after display_name parse_entries
hats_parsed = refl

parse_catalog_hats-IsCatalog_example :
    IsCatalog CatalogHat.slug IsHat [] (hat "Hat-4" ∷ hat "Hat-5" ∷ [])
parse_catalog_hats-IsCatalog_example =
    parse_catalog_hats-IsCatalog json hats (hat "Hat-4" ∷ hat "Hat-5" ∷ []) hats_parsed

-- An entry that names an earlier default is refused.
abbrev twice_spec : Value
twice_spec = hats_spec (
    item (object (field "unlock" finish close))
      (item (object (field "slug" (text "Hat-1") (field "unlock" finish close))) end))

twice_refused : parse_catalog_hats json twice_spec ≡ err (duplicate_slug "hat" "Hat-1")
unfolding parse_catalog_hats hats_array hat_step parse_unlock distinct_uids uid_step trim trim_start
    trim_end is_empty join strip_prefix parse_digits strip_plus parse_u32 write_digits to_decimal
    HashSet.member trimmed_slug slug_or_default slug_number next_after display_name parse_entries
twice_refused = refl

abbrev coins : List Value
coins =
    object (field "slug" (text "coin") (field "pickup" (text "Grant") close))
    ∷ object close
    ∷ object (field "slug" (text " coin") close)
    ∷ []

abbrev coins_spec : Values → Value
coins_spec vs = object (field "collectables" (object (field "items" (array vs) close)) close)

abbrev coin : String → Bool → CatalogCollectible
coin slug granted = record {
  slug = slug;
  name = slug;
  pickup = (if granted then "grant" else "zone");
  collect_on_unlock = granted;
  has_zone = (if granted then false else true);
  gated_by = none;
  unlock_score = none;
}

abbrev two_coins : Value
two_coins = coins_spec (
    item (object (field "slug" (text "coin") (field "pickup" (text "Grant") close)))
      (item (object close) end))

coins_parsed :
    parse_catalog_collectibles json no_numbers two_coins
    ≡ ok (coin "coin" true ∷ coin "Collectible-1" false ∷ [])
unfolding parse_catalog_collectibles collectible_array collectible_step parse_collect_paths
    collect_paths legacy_paths parse_gated_by parse_unlock_score gate eq_ignore_ascii_case trim
    trim_start trim_end is_empty join strip_prefix parse_digits strip_plus parse_u32 write_digits
    to_decimal HashSet.member trimmed_slug slug_or_default slug_number next_after display_name
    parse_entries
coins_parsed = refl

parse_catalog_collectibles-IsCatalog_example :
    IsCatalog CatalogCollectible.slug IsCollectible []
      (coin "coin" true ∷ coin "Collectible-1" false ∷ [])
parse_catalog_collectibles-IsCatalog_example =
    parse_catalog_collectibles-IsCatalog json no_numbers two_coins _ coins_parsed

abbrev clashing : Value
clashing = coins_spec (
    item (object (field "slug" (text "coin") (field "pickup" (text "Grant") close)))
      (item (object close) (item (object (field "slug" (text " coin") close)) end)))

coins_read : collectible_array json clashing ≡ some coins
unfolding collectible_array
coins_read = refl

coins_refused :
    parse_catalog_collectibles json no_numbers clashing ≡ err (duplicate_slug "collectible" "coin")
unfolding parse_catalog_collectibles collectible_array collectible_step parse_collect_paths
    collect_paths legacy_paths parse_gated_by parse_unlock_score gate eq_ignore_ascii_case trim
    trim_start trim_end is_empty join strip_prefix parse_digits strip_plus parse_u32 write_digits
    to_decimal HashSet.member trimmed_slug slug_or_default slug_number next_after display_name
    parse_entries
coins_refused = refl

-- A game of a known kind, one of no kind, and one with the first free default.
abbrev games_spec : Value
games_spec = object (
    field "minigames"
      (object (
        field "games"
          (array (
            item (object (field "kind" (text "TimeTrial") (field "slug" (text "dash") close))) (
              item (object (field "kind" (text "Chess") close))
                (item (object (field "kind" (text " HighJump ") close)) end))))
          close))
      close)

abbrev game : String → String → Bool → CatalogGame
game slug kind lower = record { slug = slug; kind = kind; name = ""; lower_is_better = lower }

games_parsed :
    parse_catalog_games json no_numbers games_spec
    ≡ ok (game "dash" "Sprint" true ∷ game "HighJump-1" "HighJump" false ∷ [])
unfolding parse_catalog_games parse_games known_kind map_kind_from_game map_kind_str map_kind_int
    new_slug trim trim_start trim_end is_empty join write_digits to_decimal HashSet.member
    trimmed_slug slug_or_default HashMap.get HashMap.insert
games_parsed = refl

parse_catalog_games-IsCatalog_example :
    IsCatalog CatalogGame.slug IsGame []
      (game "dash" "Sprint" true ∷ game "HighJump-1" "HighJump" false ∷ [])
parse_catalog_games-IsCatalog_example =
    parse_catalog_games-IsCatalog json no_numbers games_spec _ games_parsed
