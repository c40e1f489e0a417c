-- ===== src/Wayfinder/Hats/Locks.antt =====
-- What src/queries/hats.rs may change under the locks of src/queries/listed_maps.rs.
use dd2_server.Prelude.{
  ℕ, ◌≡◌, refl, sym, ap, ◌∙◌, Bool, true, false, ◌&&◌, Option, none, some, String, ◌==◌, nat_eq,
  string_eq, option_eq, if◌then◌else◌, Bool-cases, inl, inr, arith,
}
use dd2_server.Prelude.HashMap
use dd2_server.Catalog.{Json}
use dd2_server.Catalog.Collectibles.{Numbers}
use dd2_server.Wayfinder.Tables.{SpecRow, Binding, Db, is_some}
use dd2_server.Wayfinder.Bindings.{
  is_materialized, bound_row, bound_spec, agreeing, verified_binding_spec_id, resolve_bound_spec,
}
use dd2_server.Wayfinder.Hats.{is_of_source, lock_materialized_spec}

-- The tests of the two queries, in their orders.
same_tests :
    (is_spec at owner current : Bool) (id asked : ℕ)
    → (id == asked) ≡ is_spec
    → (is_spec && at && (owner && current))
      ≡ is_some (agreeing asked (if at && owner && current then some id else none))
same_tests is_spec at owner current id asked e = ground (arith, e)

module _ {V : Type 0} (json : Json V) (numbers : Numbers V) (hash : V → String) where
  none_bound :
      (asked : ℕ) (o : Option (SpecRow V)) → is_of_source json numbers hash asked o none ≡ false
  none_bound asked none = refl
  none_bound asked (some source) = refl

  no_agreement :
      (id asked : ℕ) (b : Bool)
      → (id == asked) ≡ false
      → is_some (agreeing asked (if b then some id else none)) ≡ false
  no_agreement id asked b h = ground (arith, h)

  other_spec :
      (binding : Binding) (asked : ℕ) (o p : Option (SpecRow V))
      → (binding.spec_id == asked) ≡ false
      → is_of_source json numbers hash asked o (some binding)
        ≡ is_some (agreeing asked (bound_row json numbers hash binding p))
  other_spec binding asked none none h = refl
  other_spec binding asked (some source) none h = rw h refl
  other_spec binding asked none (some spec) h = sym (no_agreement binding.spec_id asked _ h)
  other_spec binding asked (some source) (some spec) h =
      rw h (sym (no_agreement binding.spec_id asked _ h))

  same_spec :
      (binding : Binding) (asked : ℕ) (o : Option (SpecRow V))
      → (binding.spec_id == asked) ≡ true
      → is_of_source json numbers hash asked o (some binding)
        ≡ is_some (agreeing asked (bound_row json numbers hash binding o))
  same_spec binding asked none h = refl
  same_spec binding asked (some source) h =
      same_tests (binding.spec_id == asked) (is_some binding.author_verified_at)
        (binding.verified_author_id == some source.user_id)
        (is_materialized json numbers hash source binding) binding.spec_id asked refl

  bound_alike :
      (asked : ℕ) (db : Db V) (o : Option Binding)
      → is_of_source json numbers hash asked (HashMap.get asked db.specs) o
        ≡ is_some (agreeing asked (bound_spec json numbers hash db o))
  bound_alike asked db none = none_bound asked (HashMap.get asked db.specs)
  bound_alike asked db (some binding) = elim (Bool-cases (binding.spec_id == asked)) [
    | inr other ↦
        other_spec binding asked (HashMap.get asked db.specs) (HashMap.get binding.spec_id db.specs)
          other
    | inl same ↦
        same_spec binding asked (HashMap.get asked db.specs) same
        ∙ ap
            (λ id.
              is_some
                (agreeing asked (bound_row json numbers hash binding (HashMap.get id db.specs))))
            (sym ((nat_eq.beq_iff binding.spec_id asked).0 same))
  ]

  -- The test under the locks of a transaction holds exactly where `resolve_bound_spec` finds the
  -- spec that it is asked for.
  pub lock_materialized_spec-resolve_bound_spec :
      (map_uid : String) (spec_id : ℕ) (db : Db V)
      → lock_materialized_spec json numbers hash map_uid spec_id db
        ≡ is_some (resolve_bound_spec json numbers hash map_uid spec_id db)
  unfolding lock_materialized_spec resolve_bound_spec verified_binding_spec_id
  lock_materialized_spec-resolve_bound_spec map_uid spec_id db =
      bound_alike spec_id db (HashMap.get map_uid db.bindings)
