-- ===== src/Wayfinder/Specs/Laws.antt =====
-- The threshold and the deletion of a spec of src/queries/custom_map_aux_specs.rs and src/server2.rs.
use dd2_server.Prelude.{
  ℕ, ◌≤◌, ◌≡◌, ◌≢◌, refl, Bool, true, false, Option, none, some, List, [], ◌∷◌, String, ◌==◌,
  nat_eq, string_eq, err, Bool-cases, inl, inr, arith,
}
use dd2_server.Prelude.HashMap
use dd2_server.Prelude.HashMap.{HashMap, IsUnique, insert-IsUnique}
use dd2_server.Catalog.{Json}
use dd2_server.Catalog.Collectibles.{Numbers}
use dd2_server.Wayfinder.Tables.{SpecRow, Binding, Db}
use dd2_server.Wayfinder.Specs.{
  server_error, SpecObject, clamp, i64_or_max, threshold_of, threshold_in,
  listing_threshold_from_spec, min_listing_threshold, max_listing_threshold, is_named, find_spec,
  hit, counted, get_spec, is_old, is_of, bound_maps, is_referenced, deleted, delete_spec, first_of,
  bound_map_uid, delete_if, with_catalogs, delete_custom_map_aux_spec,
}

clamp-bounds : (n : ℕ) → (min_listing_threshold ≤ clamp n) × (clamp n ≤ max_listing_threshold)
clamp-bounds n = ground arith

threshold_of-bounds :
    (i u f : Option ℕ)
    → (min_listing_threshold ≤ threshold_of i u f) × (threshold_of i u f ≤ max_listing_threshold)
threshold_of-bounds (some i) u f = clamp-bounds i
threshold_of-bounds none (some u) f = clamp-bounds (i64_or_max u)
threshold_of-bounds none none (some n) = clamp-bounds n
threshold_of-bounds none none none = omega arith

module _ {V : Type 0} (json : Json V) (numbers : Numbers V) (object : SpecObject V) where
  threshold_in-bounds :
      (o : Option V)
      → (min_listing_threshold ≤ threshold_in json numbers object o)
        × (threshold_in json numbers object o ≤ max_listing_threshold)
  threshold_in-bounds none = omega arith
  threshold_in-bounds (some raw) =
      threshold_of-bounds (numbers.as_i64 raw) (numbers.as_u64 raw) (numbers.as_f64 raw)

  -- Whatever a spec says, its listing threshold is from 5 to 100 players.
  pub listing_threshold_from_spec-bounds :
      (spec : V)
      → (5 ≤ listing_threshold_from_spec json numbers object spec)
        × (listing_threshold_from_spec json numbers object spec ≤ 100)
  unfolding listing_threshold_from_spec
  listing_threshold_from_spec-bounds spec = threshold_in-bounds (json.get "listingThreshold" spec)

module _ {V : Type 0} (user_id : ℕ) (name_id : String) where
  find_spec-named :
      (specs : HashMap ℕ (SpecRow V)) (id : ℕ) (spec : SpecRow V)
      → find_spec user_id name_id specs ≡ some (id, spec)
      → is_named user_id name_id spec ≡ true
  unfolding find_spec
  find_spec-named [] id spec h = absurd (cc)
  find_spec-named ((j, row) ∷ specs) id spec h = ground (arith, find_spec-named specs id spec)

  find_spec-get :
      (specs : HashMap ℕ (SpecRow V)) (id : ℕ) (spec : SpecRow V)
      → IsUnique specs
      → find_spec user_id name_id specs ≡ some (id, spec)
      → HashMap.get id specs ≡ some spec
  unfolding find_spec HashMap.get
  find_spec-get [] id spec u h = absurd (cc)
  find_spec-get ((j, row) ∷ specs) id spec (fresh, u) h =
      ground (arith, find_spec-get specs id spec u, nat_eq.beq_iff j id, fresh)

  no_map-unreferenced :
      (db : Db V) (id : ℕ) (spec : SpecRow V)
      → HashMap.get id db.specs ≡ some spec
      → is_named user_id name_id spec ≡ true
      → (bindings : HashMap String Binding) → bound_maps user_id name_id bindings db ≡ []
      → is_referenced id bindings ≡ false
  unfolding bound_maps is_referenced
  no_map-unreferenced db id spec row named [] none_bound = refl
  no_map-unreferenced db id spec row named ((j, b) ∷ bindings) none_bound =
      elim (Bool-cases (is_of user_id name_id (HashMap.get b.spec_id db.specs))) [
        | inl held ↦ absurd (cc (rw held at none_bound))
        | inr free ↦ elim (Bool-cases (b.spec_id == id)) [
          | inl same ↦
              let is_id = (nat_eq.beq_iff b.spec_id id).0 same in
              absurd (cc (rw (is_id, row, named) at free))
          | inr other ↦
              rw other (no_map-unreferenced db id spec row named bindings (rw free at none_bound))
        ]
      ]

first_of-none :
    (before : String → String → Bool) (maps : List String) → first_of before maps ≡ none → maps ≡ []
unfolding first_of
first_of-none before [] h = refl
first_of-none before (m ∷ maps) h = absurd (cc)

module _ {V : Type 0} (before : String → String → Bool) (user_id : ℕ) (name_id : String) where
  unbound-ok :
      (o : Option (ℕ × SpecRow V)) (db : Db V)
      → ((id : ℕ) (spec : SpecRow V) → o ≡ some (id, spec) → is_referenced id db.bindings ≡ false)
      → (with_catalogs before user_id name_id db (deleted o db)).0 ≢ err server_error
  unbound-ok none db free h = absurd (cc)
  unbound-ok (some (id, spec)) db free h = absurd (cc (rw (free id spec refl) at h))

  hit-IsUnique :
      (o : Option (ℕ × SpecRow V)) (db : Db V) → IsUnique db.specs → IsUnique (hit o db).1.specs
  hit-IsUnique none db u = u
  hit-IsUnique (some (id, spec)) db u = insert-IsUnique id (counted spec) db.specs u

  delete_if-ok :
      (bound : Option String) (db : Db V)
      → IsUnique db.specs
      → bound_map_uid before user_id name_id db ≡ bound
      → (with_catalogs before user_id name_id db (delete_if before bound user_id name_id db)).0
        ≢ err server_error
  unfolding delete_spec bound_map_uid
  delete_if-ok (some map_uid) db u read h = absurd (cc)
  delete_if-ok none db u read h =
      unbound-ok (find_spec user_id name_id db.specs) db
        (λ id spec found.
          no_map-unreferenced user_id name_id db id spec
            (find_spec-get user_id name_id db.specs id spec u found)
            (find_spec-named user_id name_id db.specs id spec found) db.bindings
            (first_of-none before (bound_maps user_id name_id db.bindings db) read))
        h

  pub delete_custom_map_aux_spec-answered :
      (now : ℕ) (db : Db V)
      → IsUnique db.specs
      → (delete_custom_map_aux_spec before user_id name_id now db).0 ≢ err server_error
  unfolding delete_custom_map_aux_spec get_spec
  delete_custom_map_aux_spec-answered now db u h =
      let read = hit (find_spec user_id name_id db.specs) db in
      elim (Bool-cases (is_old now read.0)) [
        | inl old ↦ absurd (cc (rw old at h))
        | inr young ↦
            delete_if-ok _ read.1 (hit-IsUnique (find_spec user_id name_id db.specs) db u) refl
              (rw young at h)
      ]
