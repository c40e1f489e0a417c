-- ===== src/Wayfinder/Tests.antt =====
-- A map that is bound to a spec with one hat: src/queries/listed_maps.rs.
use dd2_server.Prelude.{
  ◌≤◌, ◌≡◌, ◌≢◌, ◌⊎◌, refl, Bool, true, false, none, some, [], ◌∷◌, String, ok, err, nat_eq,
  string_eq, pair_eq, option_eq, ◌==◌,
}
use dd2_server.Prelude.HashMap
use dd2_server.Prelude.HashSet
use dd2_server.Prelude.Text.{
  is_empty, trim, trim_start, trim_end, join, strip_prefix, parse_digits, strip_plus, parse_u32,
  write_digits, to_decimal,
}
use dd2_server.Catalog.{unwrap_or, and_then}
use dd2_server.Catalog.Values.{
  Value, text, boolean, array, object, end, item, close, field, get, as_str, json, no_numbers,
}
use dd2_server.Catalog.Slugs.{trimmed_slug, slug_or_default, slug_number, next_after, display_name}
use dd2_server.Catalog.Entries.{parse_entries}
use dd2_server.Catalog.Hats.{
  uid_step, hats_array, distinct_uids, parse_unlock, hat_step, parse_catalog_hats,
}
use dd2_server.Catalog.Collectibles.{Numbers, collectible_array, parse_catalog_collectibles}
use dd2_server.Catalog.Minigames.{parse_catalog_games, parse_games}
use dd2_server.Wayfinder.Tables.{
  SpecRow, Catalogs, Db, is_some, binding_of, parse_catalogs, bind_map_from_catalog,
}
use dd2_server.Wayfinder.Bindings.{
  BindResult, prepare_authoritative_bind, verify_author, claim, materialize, bind_anew,
  commit_authoritative_bind, endorse_anew, commit_comment_bind, verified_binding_spec_id,
  resolve_bound_spec,
}
use dd2_server.Wayfinder.Bindings.Resolved.{
  resolve_bound_spec-commit_authoritative_bind, resolve_bound_spec-commit_comment_bind,
}
use dd2_server.Wayfinder.Bindings.Authority.{
  IsAgreed, IsAuthorized, commit_authoritative_bind-prepare_authoritative_bind,
}
use dd2_server.Wayfinder.Specs.{
  SpecObject, server_error, bound_to, find_spec, get_spec, bound_maps, first_of, bound_map_uid,
  delete_custom_map_aux_spec, listing_threshold_from_spec,
}
use dd2_server.Wayfinder.Specs.Laws.{
  listing_threshold_from_spec-bounds, delete_custom_map_aux_spec-answered,
}
use dd2_server.Wayfinder.Hats.{
  OfficialRecordVerifier, validate_hat_unlock, find_hat, on_map_row, materialized_row,
  already_unlocked, lock_materialized_spec, lock_materialized_row, report_unlock, has_unlocked,
  report_equip,
}
use dd2_server.Wayfinder.Hats.Unlocks.{Outcome, report_unlock-Outcome}
use dd2_server.Wayfinder.Hats.Equipped.{IsWearable}
use dd2_server.Wayfinder.Hats.Locks.{lock_materialized_spec-resolve_bound_spec}
use dd2_server.Wayfinder.Reach.{Reach}
use dd2_server.Wayfinder.Guarantees.{IsPlayable, Reach-resolve_bound_spec, Reach-equipped}

abbrev hash : Value → String
hash v = unwrap_or (and_then (get "title" v) as_str) ""

abbrev tower : Value
tower = object (
    field "title" (text "tower") (
      field "hats"
        (array (
          item
            (object (
              field "slug" (text "cap")
                (field "unlock" (object (field "finishThisMap" (boolean true) close)) close)))
            end))
        close))

abbrev row : SpecRow Value
row = record {
  user_id = 1;
  name_id = "tower";
  spec = tower;
  hit_counter = 0;
  listing_threshold = 25;
  created_at = 10;
  updated_at = 20;
}

abbrev rows : Catalogs
rows = record {
  games = [];
  collectibles = [];
  hats = record { slug = "cap"; name = "cap"; finish_this_map = true; record_uids = [] } ∷ [];
}

abbrev unbound : Db Value
unbound = record {
  specs = (7, row) ∷ [];
  next_id = 8;
  bindings = [];
  catalogs = [];
  on_map = [];
  equipped = [];
  unlocks = [];
}

abbrev bound : Db Value
bound = record {
  specs = (7, row) ∷ [];
  next_id = 8;
  bindings =
      (
        "map",
        record {
          spec_id = 7;
          verified_author_id = some 1;
          author_verified_at = some 100;
          materialized_spec_updated_at = some 20;
          materialized_spec_hash = some "tower";
        },
      )
      ∷ [];
  catalogs = (7, record { user_id = 1; name_id = "tower"; rows = rows }) ∷ [];
  on_map = ("map", rows) ∷ [];
  equipped = [];
  unlocks = [];
}

abbrev result : BindResult
result = record { spec_id = 7; materialized = true; replaced_previous = false }

parsed : parse_catalogs json no_numbers tower ≡ ok rows
unfolding parse_catalogs parse_catalog_games parse_catalog_collectibles collectible_array
    parse_catalog_hats hats_array hat_step parse_unlock distinct_uids uid_step trim trim_start
    trim_end is_empty HashSet.member trimmed_slug slug_or_default display_name parse_entries
    parse_games strip_prefix parse_digits strip_plus parse_u32 slug_number next_after join
    write_digits to_decimal
parsed = refl

prepared : prepare_authoritative_bind (ok 1) 1 "map" 7 unbound unbound ≡ ok (some 1)
unfolding prepare_authoritative_bind verify_author binding_of HashMap.get
prepared = refl

committed :
    commit_authoritative_bind json no_numbers hash (some 1) 1 "map" 7 100 unbound
    ≡ ok (result, bound)
unfolding commit_authoritative_bind bind_anew claim materialize bind_map_from_catalog binding_of
    HashMap.get HashMap.insert HashMap.retain
committed = rw parsed refl

resolve_bound_spec-commit_authoritative_bind_example :
    resolve_bound_spec json no_numbers hash "map" 7 bound ≡ some 7
resolve_bound_spec-commit_authoritative_bind_example =
    resolve_bound_spec-commit_authoritative_bind json no_numbers hash (some 1) 1 "map" 7 100 unbound
      bound result committed

commented : commit_comment_bind json no_numbers hash "map" 7 100 unbound ≡ ok (result, bound)
unfolding commit_comment_bind endorse_anew materialize bind_map_from_catalog binding_of HashMap.get
    HashMap.insert HashMap.retain
commented = rw parsed refl

resolve_bound_spec-commit_comment_bind_example :
    resolve_bound_spec json no_numbers hash "map" 7 bound ≡ some 7
resolve_bound_spec-commit_comment_bind_example =
    resolve_bound_spec-commit_comment_bind json no_numbers hash "map" 7 100 unbound bound result
      commented

commit_authoritative_bind-prepare_authoritative_bind_example :
    IsAgreed "map" 7 unbound ⊎ IsAuthorized (ok 1) 1 7 unbound
commit_authoritative_bind-prepare_authoritative_bind_example =
    commit_authoritative_bind-prepare_authoritative_bind json no_numbers hash (ok 1) 1 "map" 7 100
      unbound unbound unbound bound (some 1) result prepared committed

abbrev editor : SpecObject Value
editor = record { remove = λ key v. v; is_empty = λ v. false }

-- A key that is not hashed.
abbrev plain_key : String → String → String
plain_key map_uid slug = join map_uid slug

reached : Reach json no_numbers hash plain_key editor bound
reached = Reach.binds (some 1) 1 "map" 7 100 result committed (Reach.start refl refl)

resolves : resolve_bound_spec json no_numbers hash "map" 7 bound ≡ some 7
unfolding resolve_bound_spec verified_binding_spec_id HashMap.get
resolves = refl

Reach-resolve_bound_spec_example : IsPlayable json no_numbers hash plain_key "map" 7 bound
Reach-resolve_bound_spec_example =
    Reach-resolve_bound_spec json no_numbers hash plain_key reached "map" 7 7 resolves

-- A number that is under the least threshold.
abbrev low : Numbers Value
low = record { as_i64 = λ v. some 3; as_u64 = λ v. none; as_f64 = λ v. none }

abbrev low_spec : Value
low_spec = object (field "listingThreshold" (text "3") close)

raised : listing_threshold_from_spec json low editor low_spec ≡ 5
unfolding listing_threshold_from_spec
raised = refl

listing_threshold_from_spec-bounds_example :
    (5 ≤ listing_threshold_from_spec json low editor low_spec)
    × (listing_threshold_from_spec json low editor low_spec ≤ 100)
listing_threshold_from_spec-bounds_example =
    listing_threshold_from_spec-bounds json low editor low_spec

-- The spec of a map is refused with the map's name.
abbrev first_listed : String → String → Bool
first_listed a b = false

kept_for_map : (delete_custom_map_aux_spec first_listed 1 "tower" 30 bound).0 ≡ err (bound_to "map")
unfolding delete_custom_map_aux_spec get_spec find_spec bound_map_uid bound_maps first_of
    HashMap.insert HashMap.get
kept_for_map = refl

delete_custom_map_aux_spec-answered_example :
    (delete_custom_map_aux_spec first_listed 1 "tower" 30 bound).0 ≢ err server_error
unfolding HashMap.get
delete_custom_map_aux_spec-answered_example =
    delete_custom_map_aux_spec-answered first_listed 1 "tower" 30 bound (refl, tt)

lock_materialized_spec-resolve_bound_spec_example :
    lock_materialized_spec json no_numbers hash "map" 7 bound
    ≡ is_some (resolve_bound_spec json no_numbers hash "map" 7 bound)
lock_materialized_spec-resolve_bound_spec_example =
    lock_materialized_spec-resolve_bound_spec json no_numbers hash "map" 7 bound

-- A player who has finished the map unlocks its hat and wears it.
abbrev verifier : OfficialRecordVerifier
verifier = record {
  has_recent_official_record = λ user_id map_uid. ok (map_uid == "map");
  has_official_record = λ user_id map_uid. err "timeout";
  allow_unlock_validation = λ user_id map_uid slug. true;
}

abbrev unlocked : Db Value
unlocked = record bound { unlocks = ((5, "mapcap"), ("map", "cap")) ∷ [] }

unlocks_cap :
    report_unlock json no_numbers hash plain_key verifier 5 "map" "cap" 7 bound bound
    ≡ (true, unlocked)
unfolding report_unlock validate_hat_unlock find_hat on_map_row materialized_row already_unlocked
    lock_materialized_spec lock_materialized_row resolve_bound_spec verified_binding_spec_id join
    HashMap.get HashMap.insert
unlocks_cap = refl

report_unlock-Outcome_example :
    Outcome json no_numbers hash plain_key verifier 5 "map" "cap" 7 bound bound
      (report_unlock json no_numbers hash plain_key verifier 5 "map" "cap" 7 bound bound)
report_unlock-Outcome_example =
    report_unlock-Outcome json no_numbers hash plain_key verifier 5 "map" "cap" 7 bound bound

abbrev after_unlock : Db Value
after_unlock = (report_unlock json no_numbers hash plain_key verifier 5 "map" "cap" 7 bound bound).1

abbrev dressed : Db Value
dressed = (report_equip json no_numbers hash plain_key 5 "map" "cap" after_unlock).1

wears_cap : HashMap.get ("map", 5) dressed.equipped ≡ some "cap"
unfolding report_equip has_unlocked is_empty report_unlock validate_hat_unlock find_hat on_map_row
    materialized_row already_unlocked lock_materialized_spec lock_materialized_row
    resolve_bound_spec verified_binding_spec_id join HashMap.get HashMap.insert
wears_cap = refl

Reach-equipped_example : IsWearable plain_key "map" 5 "cap" dressed.on_map dressed.unlocks
Reach-equipped_example =
    Reach-equipped json no_numbers hash plain_key
      (Reach.equips 5 "map" "cap" (Reach.unlocks verifier 5 "map" "cap" 7 bound reached)) "map" 5
      "cap" wears_cap
