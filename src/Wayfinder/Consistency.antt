-- ===== src/Wayfinder/Consistency.antt =====
-- What each transaction of src/queries/listed_maps.rs and src/queries/custom_map_aux_specs.rs keeps
-- of the specs, the bindings and the rows of a map.
use dd2_server.Prelude.{
  ℕ, ◌≡◌, refl, sym, ap, ◌∙◌, Bool, true, false, Option, none, some, [], ◌∷◌, String, ◌==◌, nat_eq,
  string_eq, option_eq, Result, ok, err, if◌then◌else◌, Bool-cases, inl, inr, arith, Eq,
}
use dd2_server.Prelude.HashMap
use dd2_server.Prelude.HashMap.{HashMap, get-insert, get-remove}
use dd2_server.Catalog.{Json, CatalogValidationError}
use dd2_server.Catalog.Collectibles.{Numbers}
use dd2_server.Wayfinder.Tables.{
  SpecRow, SpecCatalogs, Binding, Catalogs, Db, is_some, parse_catalogs, replace_catalogs,
}
use dd2_server.Wayfinder.Specs.{
  SpecObject, SpecTaskError, find_spec, hit, counted, upserted, deleted, is_referenced, stored_if,
  listing_threshold_from_spec,
}
use dd2_server.Wayfinder.Bindings.Results.{and_true, some_row}
use dd2_server.Wayfinder.Bindings.Materialized.{IsBound}

kept :
    {A : Type 0} (same : Bool) (a : A) (o : Option A)
    → is_some o ≡ true
    → is_some (if same then some a else o) ≡ true
kept true a o h = refl
kept false a o h = h

some_insert :
    {K A : Type 0} ⦃e : Eq K⦄ (k j : K) (a : A) (m : HashMap K A)
    → is_some (HashMap.get j m) ≡ true
    → is_some (HashMap.get j (HashMap.insert k a m)) ≡ true
some_insert k j a m h = rw (get-insert k a m j) (kept (k == j) a (HashMap.get j m) h)

unreferenced :
    (spec_id : ℕ) (map_uid : String) (binding : Binding) (bindings : HashMap String Binding)
    → is_referenced spec_id bindings ≡ false
    → HashMap.get map_uid bindings ≡ some binding
    → (binding.spec_id == spec_id) ≡ false
unfolding is_referenced HashMap.get
unreferenced spec_id map_uid binding [] free h = absurd (cc)
unreferenced spec_id map_uid binding ((j, b) ∷ bindings) free h =
    ground (arith, unreferenced spec_id map_uid binding bindings)

other_id : (a b : ℕ) → (a == b) ≡ false → (b == a) ≡ false
other_id a b h = ground (arith, nat_eq.beq_iff a b, nat_eq.beq_iff b a)

pub ok_db : {A : Type 0} (a b : A) → ◌≡◌ {A = Result SpecTaskError A} (ok b) (ok a) → a ≡ b
ok_db a b e = cc

module _ {V : Type 0} (json : Json V) (numbers : Numbers V) (hash : V → String) where
  -- The map has what is parsed from a spec of this hash.
  pub record HasRows (map_uid h : String) (on_map : HashMap String Catalogs) : Type 0 where
    pub spec : V
    pub catalogs : Catalogs
    pub same_hash : hash spec ≡ h
    pub parsed : parse_catalogs json numbers spec ≡ ok catalogs
    pub rows : HashMap.get map_uid on_map ≡ some catalogs

  -- The spec of a binding exists, and a binding that is stamped has the rows of what it is stamped
  -- with.
  pub record IsConsistent (db : Db V) : Type 0 where
    pub has_spec :
        (map_uid : String) (binding : Binding)
        → HashMap.get map_uid db.bindings ≡ some binding
        → is_some (HashMap.get binding.spec_id db.specs) ≡ true
    pub has_rows :
        (map_uid : String) (binding : Binding)
        → HashMap.get map_uid db.bindings ≡ some binding
        → (h : String) → binding.materialized_spec_hash ≡ some h
        → HasRows map_uid h db.on_map

  module _ (db : Db V) (v : IsConsistent db) where
    inserted-IsConsistent :
        (id next : ℕ) (row : SpecRow V) (catalogs : HashMap ℕ SpecCatalogs)
        → IsConsistent (record db {
          specs = HashMap.insert id row db.specs;
          next_id = next;
          catalogs = catalogs;
        })
    inserted-IsConsistent id next row catalogs = record {
      has_spec = λ map_uid binding bound.
          some_insert id binding.spec_id row db.specs (v.has_spec map_uid binding bound);
      has_rows = v.has_rows;
    }

    pub hit-IsConsistent : (o : Option (ℕ × SpecRow V)) → IsConsistent (hit o db).1
    hit-IsConsistent none = v
    hit-IsConsistent (some (id, spec)) =
        inserted-IsConsistent id db.next_id (counted spec) db.catalogs

    stored-IsConsistent :
        (o : Option (ℕ × SpecRow V)) (user_id : ℕ) (name_id : String) (spec : V) (threshold now : ℕ)
        (catalogs : Catalogs)
        → IsConsistent (
            let (id, db1) = upserted o user_id name_id spec threshold now db in
            replace_catalogs id user_id name_id catalogs db1)
    stored-IsConsistent none user_id name_id spec threshold now catalogs =
        inserted-IsConsistent _ _ _ _
    stored-IsConsistent (some (id, old)) user_id name_id spec threshold now catalogs =
        inserted-IsConsistent _ _ _ _

    deleted-IsConsistent :
        (id : ℕ)
        → is_referenced id db.bindings ≡ false
        → IsConsistent (record db {
          specs = HashMap.remove id db.specs;
          catalogs = HashMap.remove id db.catalogs;
        })
    deleted-IsConsistent id free = record {
      has_spec = λ map_uid binding bound.
          rw
            (
              get-remove id binding.spec_id db.specs,
              other_id binding.spec_id id (unreferenced id map_uid binding db.bindings free bound),
            )
            (v.has_spec map_uid binding bound);
      has_rows = v.has_rows;
    }

    bound_rows :
        (map_uid : String) (spec_id : ℕ) (spec : SpecRow V) (db' : Db V)
        (b : IsBound json numbers hash map_uid spec_id spec db db') (h : String)
        → b.binding.materialized_spec_hash ≡ some h
        → HasRows map_uid h db'.on_map
    bound_rows map_uid spec_id spec db' b h stamp =
        let stamped =
          (option_eq.beq_iff b.binding.materialized_spec_hash (some (hash spec.spec))).0
            (and_true _ _ b.materialized).1 in
        record {
          spec = spec.spec;
          catalogs = b.catalogs;
          same_hash = some_row (hash spec.spec) h (sym stamped ∙ stamp);
          parsed = b.parsed;
          rows = b.rows;
        }

    its_binding :
        (map_uid : String) (spec_id : ℕ) (spec : SpecRow V) (db' : Db V)
        (b : IsBound json numbers hash map_uid spec_id spec db db') (j : String) (binding : Binding)
        → HashMap.get j db'.bindings ≡ some binding
        → (map_uid == j) ≡ true
        → b.binding ≡ binding
    its_binding map_uid spec_id spec db' b j binding bound same =
        let at_j = ap (λ k. HashMap.get k db'.bindings) ((string_eq.beq_iff map_uid j).0 same) in
        some_row b.binding binding (sym b.bound ∙ at_j ∙ bound)

    pub bound-IsConsistent :
        (map_uid : String) (spec_id : ℕ) (spec : SpecRow V) (db' : Db V)
        → IsBound json numbers hash map_uid spec_id spec db db'
        → IsConsistent db'
    bound-IsConsistent map_uid spec_id spec db' b = record {
      has_spec = λ j binding bound. rw b.specs (elim (Bool-cases (map_uid == j)) [
        | inl same ↦
            let one = its_binding map_uid spec_id spec db' b j binding bound same in
            rw (sym (ap Binding.spec_id one) ∙ b.spec_is, b.row) refl
        | inr other ↦ v.has_spec j binding (sym (b.other_bindings j other) ∙ bound)
      ]);
      has_rows = λ j binding bound h stamp. elim (Bool-cases (map_uid == j)) [
        | inl same ↦
            let one = its_binding map_uid spec_id spec db' b j binding bound same in
            rw (sym ((string_eq.beq_iff map_uid j).0 same)) (
              bound_rows map_uid spec_id spec db' b h
                (ap Binding.materialized_spec_hash one ∙ stamp))
        | inr other ↦
            let old = v.has_rows j binding (sym (b.other_bindings j other) ∙ bound) h stamp in
            record {
              spec = old.spec;
              catalogs = old.catalogs;
              same_hash = old.same_hash;
              parsed = old.parsed;
              rows = b.other_rows j other ∙ old.rows;
            }
      ];
    }

  pub deleted_ok :
      (o : Option (ℕ × SpecRow V)) (db db' : Db V)
      → deleted o db ≡ ok db'
      → IsConsistent db
      → IsConsistent db'
  deleted_ok none db db' e v = rw (ok_db db' db e) v
  deleted_ok (some (id, spec)) db db' e v = elim (Bool-cases (is_referenced id db.bindings)) [
    | inl used ↦ absurd (cc (rw used at e))
    | inr free ↦ rw (ok_db db' _ (rw free at e)) (deleted-IsConsistent db v id free)
  ]

  pub stored_if-IsConsistent :
      (object : SpecObject V) (user_id : ℕ) (name_id : String) (spec : V) (now : ℕ) (db : Db V)
      (r : Result CatalogValidationError Catalogs)
      → IsConsistent db
      → IsConsistent (stored_if json numbers object user_id name_id spec now db r).1
  stored_if-IsConsistent object user_id name_id spec now db (err error) v = v
  stored_if-IsConsistent object user_id name_id spec now db (ok catalogs) v =
      stored-IsConsistent db v (find_spec user_id name_id db.specs) user_id name_id spec
        (listing_threshold_from_spec json numbers object spec) now catalogs
