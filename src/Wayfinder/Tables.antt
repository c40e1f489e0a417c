-- ===== src/Wayfinder/Tables.antt =====
-- The tables behind src/queries/listed_maps.rs and src/queries/custom_map_aux_specs.rs. The rows of
-- the three catalogs of a spec, or of a map, are kept together.
use dd2_server.Prelude.{
  ℕ, Bool, true, false, not, ◌&&◌, Option, none, some, List, [], String, ◌==◌, nat_eq, string_eq,
  option_eq, pair_eq, any, Result, ok, ◌>>=◌,
}
use dd2_server.Prelude.HashMap
use dd2_server.Prelude.HashMap.{HashMap}
use dd2_server.Catalog.{Json, CatalogValidationError}
use dd2_server.Catalog.Minigames.{CatalogGame, parse_catalog_games}
use dd2_server.Catalog.Collectibles.{CatalogCollectible, Numbers, parse_catalog_collectibles}
use dd2_server.Catalog.Hats.{CatalogHat, parse_catalog_hats}

-- A row of `custom_map_aux_specs`. `spec_hash` is generated from `spec`, so it is no field.
pub record SpecRow (V : Type 0) : Type 0 where
  pub user_id : ℕ
  pub name_id : String
  pub spec : V
  pub hit_counter : ℕ
  pub listing_threshold : ℕ
  pub created_at : ℕ
  pub updated_at : ℕ

-- A row of `map_listing_bind`.
pub record Binding : Type 0 where
  pub spec_id : ℕ
  pub verified_author_id : Option ℕ
  pub author_verified_at : Option ℕ
  pub materialized_spec_updated_at : Option ℕ
  pub materialized_spec_hash : Option String

pub record Catalogs : Type 0 where
  pub games : List CatalogGame
  pub collectibles : List CatalogCollectible
  pub hats : List CatalogHat

-- The rows of a spec in the three catalog tables, which repeat the spec's owner and name.
pub record SpecCatalogs : Type 0 where
  pub user_id : ℕ
  pub name_id : String
  pub rows : Catalogs

-- `equipped` has the slug of the hat that a player wears on a map, `unlocks` the map and the slug
-- of a hat that a player has unlocked, by its key.
pub record Db (V : Type 0) : Type 0 where
  pub specs : HashMap ℕ (SpecRow V)
  pub next_id : ℕ
  pub bindings : HashMap String Binding
  pub catalogs : HashMap ℕ SpecCatalogs
  pub on_map : HashMap String Catalogs
  pub equipped : HashMap (String × ℕ) String
  pub unlocks : HashMap (ℕ × String) (String × String)

abbrev pub is_some : {A : Type 0} → Option A → Bool
is_some none = false
is_some (some a) = true

-- `author_verified_at IS NOT NULL AND verified_author_id = s.user_id`.
abbrev pub is_verified : {V : Type 0} → Binding → SpecRow V → Bool
is_verified binding spec =
    is_some binding.author_verified_at && (binding.verified_author_id == some spec.user_id)

abbrev pub has_slug : String → List CatalogHat → Bool
has_slug slug hats = any (λ hat. hat.slug == slug) hats

abbrev pub copied : Option SpecCatalogs → Catalogs
copied none = record { games = []; collectibles = []; hats = [] }
copied (some catalogs) = catalogs.rows

abbrev pub keep_worn : String → List CatalogHat → String × ℕ → String → Bool
keep_worn map_uid hats key slug = not (key.0 == map_uid && not (has_slug slug hats))

module _ {V : Type 0} where
  abbrev pub with_spec : Binding → Option (SpecRow V) → Option (Binding × Bool)
  with_spec binding none = none
  with_spec binding (some spec) = some (binding, is_verified binding spec)

  abbrev pub and_spec : Db V → Option Binding → Option (Binding × Bool)
  and_spec db none = none
  and_spec db (some binding) = with_spec binding (HashMap.get binding.spec_id db.specs)

  -- A map's binding joined with its spec, and whether it is verified.
  unfoldable pub binding_of : String → Db V → Option (Binding × Bool)
  binding_of map_uid db = and_spec db (HashMap.get map_uid db.bindings)

  -- The three parsers in turn: a spec that one of them refuses is refused whole.
  unfoldable pub parse_catalogs : Json V → Numbers V → V → Result CatalogValidationError Catalogs
  parse_catalogs json numbers spec = do
    games ← parse_catalog_games json numbers spec
    collectibles ← parse_catalog_collectibles json numbers spec
    hats ← parse_catalog_hats json spec
    ok (record { games = games; collectibles = collectibles; hats = hats })

  -- `replace_catalog_in_tx` of the three catalogs.
  abbrev pub replace_catalogs : ℕ → ℕ → String → Catalogs → Db V → Db V
  replace_catalogs spec_id user_id name_id catalogs db = record db {
    catalogs =
        HashMap.insert spec_id (record { user_id = user_id; name_id = name_id; rows = catalogs })
          db.catalogs;
  }

  -- `bind_map_from_catalog_in_tx` of the three catalogs: the map has their rows of the spec, and
  -- nobody there wears what is not among its hats. A hat's key is made of the map and the slug.
  unfoldable pub bind_map_from_catalog : String → ℕ → Db V → Db V
  bind_map_from_catalog map_uid spec_id db =
      let catalogs = copied (HashMap.get spec_id db.catalogs) in
      record db {
        on_map = HashMap.insert map_uid catalogs db.on_map;
        equipped = HashMap.retain (keep_worn map_uid catalogs.hats) db.equipped;
      }

  -- `purge_map_equipment_in_tx`.
  unfoldable pub purge_map_equipment : String → Db V → Db V
  purge_map_equipment map_uid db = record db {
    equipped = HashMap.retain (λ key slug. not (key.0 == map_uid)) db.equipped;
  }
