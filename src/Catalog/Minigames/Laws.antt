-- ===== src/Catalog/Minigames/Laws.antt =====
-- What `parse_catalog_games` of src/queries/minigames.rs accepts.
use dd2_server.Prelude.{
  ℕ, ◌≡◌, refl, Bool, true, false, ◌||◌, Option, none, some, List, [], ◌∷◌, String, string_eq,
  nat_eq, ◌==◌, Result, ok, >>=-eq-ok, arith, if◌then◌else◌, Option-cases, inl, inr,
}
use dd2_server.Prelude.HashMap.{HashMap}
use dd2_server.Prelude.HashSet
use dd2_server.Prelude.HashSet.{HashSet}
use dd2_server.Prelude.Text.{is_empty, join}
use dd2_server.Catalog.{Json, CatalogValidationError, and_then}
use dd2_server.Catalog.Slugs.Laws.{slug_or_default-named}
use dd2_server.Catalog.Hats.Uids.{IsNamed}
use dd2_server.Catalog.Collectibles.{Numbers}
use dd2_server.Catalog.Entries.Laws.{IsCatalog, nothing-IsCatalog, more-IsCatalog}
use dd2_server.Catalog.Minigames.{
  CatalogGame, map_kind_str, map_kind_int, map_kind_from_game, by_text, known_kind, new_slug,
  slug_of, next_of, game_of, parse_games, games_of, parse_catalog_games,
}

abbrev is_kind : String → Bool
is_kind k =
    k == "Sprint"
    || (k == "Survival"
        || (k == "Darts" || (k == "HighJump" || (k == "LongJump" || k == "MaxAvgSpeed"))))

-- A kind of the six, with the order of its scores: a lower score is better in a sprint alone.
abbrev pub IsKind : String × Bool → Type 0
IsKind (kind, lower_is_better) = (is_kind kind ≡ true) × (lower_is_better ≡ (kind == "Sprint"))

abbrev IsKnown : Option (String × Bool) → Type 0
IsKnown none = Unit
IsKnown (some kind) = IsKind kind

IsKnown-if :
    (b : Bool) (x y : Option (String × Bool)) → IsKnown x → IsKnown y → IsKnown (if b then x else y)
IsKnown-if true x y hx hy = hx
IsKnown-if false x y hx hy = hy

map_kind_str-IsKnown : (k : String) → IsKnown (map_kind_str k)
unfolding map_kind_str
map_kind_str-IsKnown k = search IsKnown-if depth 20 fits 4000

map_kind_int-IsKnown : (t : ℕ) → IsKnown (map_kind_int t)
unfolding map_kind_int
map_kind_int-IsKnown t = search IsKnown-if depth 20 fits 4000

by_text-IsKnown :
    (o : Option String) (p : Option (String × Bool)) → IsKnown p → IsKnown (by_text o p)
by_text-IsKnown none p h = h
by_text-IsKnown (some k) p h = map_kind_str-IsKnown k

and_then-IsKnown : (o : Option ℕ) → IsKnown (and_then o map_kind_int)
and_then-IsKnown none = tt
and_then-IsKnown (some t) = map_kind_int-IsKnown t

-- A game has a slug that is not blank, and one of the six kinds with its order.
pub record IsGame (game : CatalogGame) : Type 0 where
  pub has_slug : IsNamed game.slug
  pub has_kind : IsKind (game.kind, game.lower_is_better)

prefix_named : (kind : String) → is_empty (join kind "-") ≡ false
unfolding is_empty join
prefix_named String.[] = refl
prefix_named (String.◌∷◌ c s) = refl

new_slug-ok :
    (seen : HashSet String) (slug fresh : String)
    → new_slug seen slug ≡ ok fresh
    → HashSet.member slug seen ≡ false
unfolding new_slug
new_slug-ok seen slug fresh h = ground arith

same_games :
    (games games' : List CatalogGame)
    → ◌≡◌ {A = Result CatalogValidationError (List CatalogGame)} (ok games) (ok games')
    → games ≡ games'
same_games games games' e = cc

module _ {V : Type 0} (json : Json V) (numbers : Numbers V) where
  known_kind-IsKnown : (game : V) → IsKnown (known_kind json numbers game)
  unfolding known_kind map_kind_from_game
  known_kind-IsKnown game = search (IsKnown-if, by_text-IsKnown, and_then-IsKnown)

  parse_games-IsCatalog :
      (items : List V) (seen : HashSet String) (kind_counts : HashMap String ℕ)
      (games : List CatalogGame)
      → parse_games json numbers items seen kind_counts ≡ ok games
      → IsCatalog CatalogGame.slug IsGame seen games
  unfolding parse_games
  parse_games-IsCatalog [] seen kind_counts games e =
      rw⁻¹ (same_games [] games e) (nothing-IsCatalog CatalogGame.slug IsGame seen)
  parse_games-IsCatalog (item ∷ items) seen kind_counts games e =
      elim (Option-cases (known_kind json numbers item)) [
        | inl unknown ↦
            parse_games-IsCatalog items seen kind_counts games (rw (unknown, parse_games) at e)
        | inr ((kind, lower), known) ↦
            let (slug, named, e1) =
              >>=-eq-ok (slug_of json numbers kind (next_of json numbers kind kind_counts) item)
                (rw (known, parse_games) at e) in
            let (fresh, new, e2) = >>=-eq-ok (new_slug seen slug) e1 in
            let (rest, parsed, e3) =
              >>=-eq-ok (parse_games json numbers items (slug ∷ seen) _) e2 in
            rw⁻¹ (same_games _ games e3) (
              more-IsCatalog CatalogGame.slug IsGame seen slug
                (game_of json numbers item (kind, lower) slug) rest
                (
                  refl,
                  new_slug-ok seen slug fresh new,
                  record {
                    has_slug =
                        slug_or_default-named json "minigame" (join kind "-") _
                          (json.get "slug" item) slug (prefix_named kind) named;
                    has_kind = rw known at (known_kind-IsKnown item);
                  },
                )
                (parse_games-IsCatalog items (slug ∷ seen) _ rest parsed))
      ]

  games_of-IsCatalog :
      (o : Option (List V)) (games : List CatalogGame)
      → games_of json numbers o ≡ ok games
      → IsCatalog CatalogGame.slug IsGame [] games
  games_of-IsCatalog none games e =
      rw⁻¹ (same_games [] games e) (nothing-IsCatalog CatalogGame.slug IsGame [])
  games_of-IsCatalog (some items) games e = parse_games-IsCatalog items [] [] games e

  -- Whatever a spec holds, the minigames that are parsed from it have distinct slugs that are not
  -- blank, and each has one of six kinds, of which a sprint alone is won by the lower score.
  pub parse_catalog_games-IsCatalog :
      (spec : V) (games : List CatalogGame)
      → parse_catalog_games json numbers spec ≡ ok games
      → IsCatalog CatalogGame.slug IsGame [] games
  unfolding parse_catalog_games
  parse_catalog_games-IsCatalog spec games e = games_of-IsCatalog _ games e
