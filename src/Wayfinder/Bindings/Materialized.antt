-- ===== src/Wayfinder/Bindings/Materialized.antt =====
-- What the materializing of src/queries/listed_maps.rs leaves, and the bind of a published comment.
use dd2_server.Prelude.{
  ℕ, ◌≡◌, ◌⊎◌, refl, ap, Bool, true, false, not, ◌&&◌, some, String, ◌==◌, beq_refl, nat_eq,
  string_eq, option_eq, pair_eq, ok, >>=-eq-ok, Bool-cases, inl, inr,
}
use dd2_server.Prelude.HashMap
use dd2_server.Prelude.HashMap.{get-insert}
use dd2_server.Catalog.{Json}
use dd2_server.Catalog.Collectibles.{Numbers}
use dd2_server.Wayfinder.Tables.{
  SpecRow, Binding, Catalogs, Db, is_verified, binding_of, parse_catalogs, replace_catalogs,
  bind_map_from_catalog, purge_map_equipment, keep_worn,
}
use dd2_server.Wayfinder.Bindings.{
  BindSpecError, BindResult, found, or_catalog, is_other, fresh_binding, is_materialized,
  is_current, stamped, materialize, endorse_anew, commit_comment_bind,
}
use dd2_server.Wayfinder.Bindings.Worn.{IsWorn, purged-IsWorn, retained-IsWorn}
use dd2_server.Wayfinder.Bindings.Results.{or_catalog-ok, ok_state, and_true, not-true, found-ok}

module _ {V : Type 0} (json : Json V) (numbers : Numbers V) (hash : V → String) where
  -- The map is bound to the spec as it is now, verified by its owner, and has the catalogs that are
  -- parsed from it, and nobody there wears another hat; nothing of another map has changed, nor any
  -- spec.
  pub record IsBound (map_uid : String) (spec_id : ℕ) (spec : SpecRow V) (start db : Db V)
      : Type 0 where
    pub row : HashMap.get spec_id start.specs ≡ some spec
    pub specs : db.specs ≡ start.specs
    pub binding : Binding
    pub bound : HashMap.get map_uid db.bindings ≡ some binding
    pub spec_is : binding.spec_id ≡ spec_id
    pub verified : is_verified binding spec ≡ true
    pub materialized : is_materialized json numbers hash spec binding ≡ true
    pub catalogs : Catalogs
    pub parsed : parse_catalogs json numbers spec.spec ≡ ok catalogs
    pub rows : HashMap.get map_uid db.on_map ≡ some catalogs
    pub other_bindings :
        (j : String)
        → (map_uid == j) ≡ false
        → HashMap.get j db.bindings ≡ HashMap.get j start.bindings
    pub other_rows :
        (j : String) → (map_uid == j) ≡ false → HashMap.get j db.on_map ≡ HashMap.get j start.on_map
    pub worn : IsWorn map_uid catalogs.hats start.equipped db.equipped
    pub unlocks : db.unlocks ≡ start.unlocks

  module _ (map_uid : String) (spec_id : ℕ) (spec : SpecRow V) (cat : Catalogs) (start : Db V)
      (binding : Binding) (row : HashMap.get spec_id start.specs ≡ some spec)
      (spec_is : (binding.spec_id == spec_id) ≡ true) (verified : is_verified binding spec ≡ true)
      (parsed : parse_catalogs json numbers spec.spec ≡ ok cat) where
    stamp : Binding
    stamp = record binding {
      materialized_spec_updated_at = some spec.updated_at;
      materialized_spec_hash = some (hash spec.spec);
    }

    stamped-IsBound :
        (db : Db V)
        → db.specs ≡ start.specs
        → HashMap.get map_uid db.on_map ≡ some cat
        → ((j : String)
            → (map_uid == j) ≡ false
            → HashMap.get j db.bindings ≡ HashMap.get j start.bindings)
        → ((j : String)
            → (map_uid == j) ≡ false
            → HashMap.get j db.on_map ≡ HashMap.get j start.on_map)
        → IsWorn map_uid cat.hats start.equipped db.equipped
        → db.unlocks ≡ start.unlocks
        → IsBound map_uid spec_id spec start
            (stamped json numbers hash map_uid spec_id spec (some binding) db)
    unfolding stamp
    stamped-IsBound db specs rows others other_rows worn unlocks = rw spec_is (record {
      row = row;
      specs = specs;
      binding = stamp;
      bound = rw (get-insert map_uid stamp db.bindings map_uid, beq_refl map_uid);
      spec_is = (nat_eq.beq_iff binding.spec_id spec_id).0 spec_is;
      verified = verified;
      materialized = rw (beq_refl spec.updated_at, beq_refl (hash spec.spec));
      catalogs = cat;
      parsed = parsed;
      rows = rows;
      other_bindings =
          λ j other. rw (get-insert map_uid stamp db.bindings j, other) (others j other);
      other_rows = other_rows;
      worn = worn;
      unlocks = unlocks;
    })

    copied-IsBound :
        (db : Db V)
        → db.specs ≡ start.specs
        → HashMap.get map_uid db.bindings ≡ some binding
        → ((j : String)
            → (map_uid == j) ≡ false
            → HashMap.get j db.bindings ≡ HashMap.get j start.bindings)
        → ((j : String)
            → (map_uid == j) ≡ false
            → HashMap.get j db.on_map ≡ HashMap.get j start.on_map)
        → IsWorn map_uid cat.hats start.equipped
            (HashMap.retain (keep_worn map_uid cat.hats) db.equipped)
        → db.unlocks ≡ start.unlocks
        → IsBound map_uid spec_id spec start (
            let db2 =
              bind_map_from_catalog map_uid spec_id
                (replace_catalogs spec_id spec.user_id spec.name_id cat db) in
            stamped json numbers hash map_uid spec_id spec (HashMap.get map_uid db2.bindings) db2)
    unfolding bind_map_from_catalog
    copied-IsBound db specs bound others other_rows worn unlocks =
        rw
          (
            get-insert spec_id
                (record { user_id = spec.user_id; name_id = spec.name_id; rows = cat }) db.catalogs
                spec_id,
            beq_refl spec_id,
            bound,
          )
          (stamped-IsBound _ specs (rw (get-insert map_uid cat db.on_map map_uid, beq_refl map_uid))
            others (λ j other. rw (get-insert map_uid cat db.on_map j, other) (other_rows j other))
            worn unlocks)

    pub materialize-IsBound :
        (purges : Bool) (db : Db V)
        → db.specs ≡ start.specs
        → HashMap.get map_uid db.bindings ≡ some binding
        → db.on_map ≡ start.on_map
        → db.equipped ≡ start.equipped
        → db.unlocks ≡ start.unlocks
        → ((j : String)
            → (map_uid == j) ≡ false
            → HashMap.get j db.bindings ≡ HashMap.get j start.bindings)
        → IsBound map_uid spec_id spec start
            (materialize json numbers hash purges map_uid spec_id spec cat db)
    unfolding materialize purge_map_equipment
    materialize-IsBound true db specs bound same worn unlocks others =
        copied-IsBound (purge_map_equipment map_uid db) specs bound others
          (λ j other. ap (HashMap.get j) same)
          (rw worn (purged-IsWorn map_uid cat.hats start.equipped)) unlocks
    materialize-IsBound false db specs bound same worn unlocks others =
        copied-IsBound db specs bound others (λ j other. ap (HashMap.get j) same)
          (rw worn (retained-IsWorn map_uid cat.hats start.equipped)) unlocks

  endorsed-IsBound :
      (map_uid : String) (spec_id now : ℕ) (db db' : Db V) (r : BindResult) (spec : SpecRow V)
      → HashMap.get spec_id db.specs ≡ some spec
      → (other : Bool)
      → endorse_anew json numbers hash other map_uid spec_id now spec db ≡ ok (r, db')
      → IsBound map_uid spec_id spec db db'
  unfolding endorse_anew
  endorsed-IsBound map_uid spec_id now db db' r spec row other e =
      let (cat, parsed, e1) = >>=-eq-ok (or_catalog (parse_catalogs json numbers spec.spec)) e in
      let claimed = fresh_binding spec_id spec.user_id now in
      rw (ok_state _ _ _ _ e1) (
        materialize-IsBound map_uid spec_id spec cat db claimed row (beq_refl spec_id)
          (beq_refl spec.user_id) (or_catalog-ok _ cat parsed) other _ refl
          (rw (get-insert map_uid claimed db.bindings map_uid, beq_refl map_uid)) refl refl refl
          (λ j apart. rw (get-insert map_uid claimed db.bindings j, apart)))

  -- A bind of the published comment that succeeds has bound the map to the spec of the comment, or
  -- found that it is.
  pub commit_comment_bind-cases :
      (map_uid : String) (spec_id now : ℕ) (db db' : Db V) (r : BindResult)
      → commit_comment_bind json numbers hash map_uid spec_id now db ≡ ok (r, db')
      → ((db' ≡ db)
          × ((spec : SpecRow V) × (HashMap.get spec_id db.specs ≡ some spec)
              × (is_current json numbers hash spec (binding_of map_uid db) ≡ true)
              × (is_other spec_id (binding_of map_uid db) ≡ false)))
        ⊎ ((spec : SpecRow V) × IsBound map_uid spec_id spec db db')
  unfolding commit_comment_bind
  commit_comment_bind-cases map_uid spec_id now db db' r e =
      let (spec, got, e1) =
        >>=-eq-ok (found BindSpecError.spec_not_found (HashMap.get spec_id db.specs)) e in
      let row = found-ok _ _ spec got in
      elim (Bool-cases (
        not (is_other spec_id (binding_of map_uid db))
        && is_current json numbers hash spec (binding_of map_uid db))) [
          | inl same ↦ inl (
            ok_state _ _ _ _ (rw same at e1),
            (spec, row, (and_true _ _ same).1, not-true _ (and_true _ _ same).0),
          )
          | inr anew ↦
              inr (spec, endorsed-IsBound map_uid spec_id now db db' r spec row _ (rw anew at e1))
        ]
