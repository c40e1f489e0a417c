-- ===== src/Wayfinder/Guarantees.antt =====
-- What holds of the tables after any run of the transactions of src/queries/listed_maps.rs,
-- src/queries/custom_map_aux_specs.rs and src/queries/hats.rs.
use dd2_server.Prelude.{
  ℕ, ◌≡◌, refl, sym, ap, ◌∙◌, Bool, true, ◌&&◌, Option, none, some, String, ◌==◌, nat_eq, string_eq,
  option_eq, pair_eq, if◌then◌else◌, Option-cases, inl, inr, arith,
}
use dd2_server.Prelude.HashMap
use dd2_server.Prelude.HashMap.{HashMap, get-insert, get-remove}
use dd2_server.Catalog.{Json}
use dd2_server.Catalog.Collectibles.{Numbers}
use dd2_server.Wayfinder.Tables.{SpecRow, Binding, Db, is_some, is_verified}
use dd2_server.Wayfinder.Specs.{SpecObject}
use dd2_server.Wayfinder.Bindings.{
  is_materialized, bound_spec, verified_binding_spec_id, resolve_bound_spec, agreeing,
}
use dd2_server.Wayfinder.Bindings.Results.{and_true}
use dd2_server.Wayfinder.Hats.Equipped.{IsWearable}
use dd2_server.Wayfinder.Consistency.{HasRows, IsConsistent}
use dd2_server.Wayfinder.Reach.{Reach, Reach-IsConsistent, Reach-IsDressed}

agreed_row :
    (verified current : Bool) (id asked spec_id : ℕ)
    → agreeing asked (if verified && current then some id else none) ≡ some spec_id
    → (id ≡ spec_id) × (current ≡ true)
agreed_row verified current id asked spec_id h = ground (arith, h)

module _ {V : Type 0} (json : Json V) (numbers : Numbers V) (hash : V → String)
    (hat_key : String → String → String) where
  -- The map is bound to this spec as it is now, and has what is parsed from a spec of its hash.
  pub record IsPlayable (map_uid : String) (spec_id : ℕ) (db : Db V) : Type 0 where
    pub spec : SpecRow V
    pub row : HashMap.get spec_id db.specs ≡ some spec
    pub rows : HasRows json numbers hash map_uid (hash spec.spec) db.on_map

  resolved :
      (map_uid : String) (asked spec_id : ℕ) (db : Db V)
      → IsConsistent json numbers hash db
      → (o : Option Binding) → HashMap.get map_uid db.bindings ≡ o
      → agreeing asked (bound_spec json numbers hash db o) ≡ some spec_id
      → IsPlayable map_uid spec_id db
  resolved map_uid asked spec_id db v none read h = absurd (cc)
  resolved map_uid asked spec_id db v (some binding) read h =
      elim (Option-cases (HashMap.get binding.spec_id db.specs)) [
        | inl gone ↦ absurd (cc (rw gone at h))
        | inr (spec, row) ↦
            let (same, current) =
              agreed_row (is_verified binding spec) (is_materialized json numbers hash spec binding)
                binding.spec_id asked spec_id (rw row at h) in
            let stamp =
              (option_eq.beq_iff binding.materialized_spec_hash (some (hash spec.spec))).0
                (and_true (binding.materialized_spec_updated_at == some spec.updated_at) _
                  current).1 in
            record {
              spec = spec;
              row = ap (λ k. HashMap.get k db.specs) (sym same) ∙ row;
              rows = v.has_rows map_uid binding read (hash spec.spec) stamp;
            }
      ]

  -- Whatever uploads, deletions and binds came, in any order: where a map resolves to a spec, the
  -- spec exists and the map's minigames, collectibles and hats are what is parsed from a spec of
  -- the hash that it has now.
  pub Reach-resolve_bound_spec :
      {object : SpecObject V} {db : Db V}
      → Reach json numbers hash hat_key object db
      → (map_uid : String) (asked spec_id : ℕ)
      → resolve_bound_spec json numbers hash map_uid asked db ≡ some spec_id
      → IsPlayable map_uid spec_id db
  unfolding resolve_bound_spec verified_binding_spec_id
  Reach-resolve_bound_spec {db} reach map_uid asked spec_id h =
      resolved map_uid asked spec_id db (Reach-IsConsistent json numbers hash hat_key reach) _ refl
        h

  -- The spec that a map is bound to exists, whatever came and in whatever order: it is never
  -- deleted.
  pub Reach-bindings :
      {object : SpecObject V} {db : Db V}
      → Reach json numbers hash hat_key object db
      → (map_uid : String) (binding : Binding) → HashMap.get map_uid db.bindings ≡ some binding
      → is_some (HashMap.get binding.spec_id db.specs) ≡ true
  Reach-bindings reach = (Reach-IsConsistent json numbers hash hat_key reach).has_spec

  -- Whatever uploads, deletions, binds, unlocks and changes of hats came, in any order: what a
  -- player wears on a map is one of the hats that the map has now, and the player has unlocked it
  -- there.
  pub Reach-equipped :
      {object : SpecObject V} {db : Db V}
      → Reach json numbers hash hat_key object db
      → (map_uid : String) (user_id : ℕ) (slug : String)
      → HashMap.get (map_uid, user_id) db.equipped ≡ some slug
      → IsWearable hat_key map_uid user_id slug db.on_map db.unlocks
  Reach-equipped reach = (Reach-IsDressed json numbers hash hat_key reach).worn
