-- ===== src/Wayfinder/Bindings/Claims.antt =====
-- What the claim of src/queries/listed_maps.rs, and the bind that makes it, leave.
use dd2_server.Prelude.{
  ℕ, ◌≡◌, refl, sym, ap, ◌∙◌, Bool, true, false, Option, none, some, String, ◌==◌, nat_eq,
  string_eq, option_eq, ok, >>=-eq-ok, Bool-cases, inl, inr, arith,
}
use dd2_server.Prelude.HashMap
use dd2_server.Prelude.HashMap.{get-insert}
use dd2_server.Catalog.{Json}
use dd2_server.Catalog.Collectibles.{Numbers}
use dd2_server.Wayfinder.Tables.{
  SpecRow, Binding, Catalogs, Db, is_verified, binding_of, parse_catalogs, with_spec, and_spec,
}
use dd2_server.Wayfinder.Bindings.{
  BindSpecError, BindResult, found, or_catalog, is_unproved, fresh_binding, inserted, promoted,
  claim, materialize, bind_anew, owned_by,
}
use dd2_server.Wayfinder.Bindings.Results.{require-ok, or_catalog-ok, ok_state, some_row, found-ok}
use dd2_server.Wayfinder.Bindings.Materialized.{IsBound, materialize-IsBound}

module _ {V : Type 0} (json : Json V) (numbers : Numbers V) (hash : V → String) where
  module _ (map_uid : String) (requested reporter now : ℕ) where
    -- Only the binding of the map has changed.
    record IsElsewhere (db after : Db V) : Type 0 where
      specs : after.specs ≡ db.specs
      on_map : after.on_map ≡ db.on_map
      equipped : after.equipped ≡ db.equipped
      unlocks : after.unlocks ≡ db.unlocks
      others :
          (j : String)
          → (map_uid == j) ≡ false
          → HashMap.get j after.bindings ≡ HashMap.get j db.bindings

    same_tables : (db : Db V) → IsElsewhere db db
    same_tables db = record {
      specs = refl;
      on_map = refl;
      equipped = refl;
      unlocks = refl;
      others = λ j other. refl;
    }

    fresh-IsElsewhere :
        (db : Db V)
        → IsElsewhere db (record db {
          bindings = HashMap.insert map_uid (fresh_binding requested reporter now) db.bindings;
        })
    fresh-IsElsewhere db = record {
      specs = refl;
      on_map = refl;
      equipped = refl;
      unlocks = refl;
      others = λ j other.
          rw (get-insert map_uid (fresh_binding requested reporter now) db.bindings j, other);
    }

    inserted-IsElsewhere :
        (owns : Bool) (o : Option Binding) (db : Db V)
        → IsElsewhere db (inserted map_uid requested reporter now owns o db)
    inserted-IsElsewhere owns (some old) db = same_tables db
    inserted-IsElsewhere true none db = fresh-IsElsewhere db
    inserted-IsElsewhere false none db = same_tables db

    promoted-IsElsewhere :
        (o : Option Binding) (db : Db V)
        → IsElsewhere db (promoted map_uid requested reporter now o db)
    promoted-IsElsewhere none db = same_tables db
    promoted-IsElsewhere (some binding) db = elim (Bool-cases (is_unproved db binding)) [
      | inl unproved ↦ rw unproved (fresh-IsElsewhere db)
      | inr proved ↦ rw proved (same_tables db)
    ]

    claim-IsElsewhere : (db : Db V) → IsElsewhere db (claim map_uid requested reporter now db)
    unfolding claim
    claim-IsElsewhere db =
        let owns = owned_by reporter (HashMap.get requested db.specs) in
        let old = HashMap.get map_uid db.bindings in
        let db1 = inserted map_uid requested reporter now owns old db in
        let one = inserted-IsElsewhere owns old db in
        let two = promoted-IsElsewhere (HashMap.get map_uid db1.bindings) db1 in
        record {
          specs = two.specs ∙ one.specs;
          on_map = two.on_map ∙ one.on_map;
          equipped = two.equipped ∙ one.equipped;
          unlocks = two.unlocks ∙ one.unlocks;
          others = λ j other. two.others j other ∙ one.others j other;
        }

  with_spec-some :
      (b binding : Binding) (o : Option (SpecRow V)) (v : Bool)
      → with_spec b o ≡ some (binding, v)
      → (b ≡ binding) × ((spec : SpecRow V) × (o ≡ some spec) × (v ≡ is_verified binding spec))
  with_spec-some b binding none v h = absurd (cc)
  with_spec-some b binding (some spec) v h =
      let same : b ≡ binding = ground arith in (same, (spec, refl, ground (arith, h)))

  pub and_spec-some :
      (db : Db V) (o : Option Binding) (binding : Binding) (v : Bool)
      → and_spec db o ≡ some (binding, v)
      → (o ≡ some binding)
        × ((spec : SpecRow V) × (HashMap.get binding.spec_id db.specs ≡ some spec)
            × (v ≡ is_verified binding spec))
  and_spec-some db none binding v h = absurd (cc)
  and_spec-some db (some b) binding v h =
      let (same, (spec, row, e)) = with_spec-some b binding (HashMap.get b.spec_id db.specs) v h in
      (ap some same, (spec, rw same at row, e))

  won-IsBound :
      (legacy : Bool) (map_uid : String) (requested reporter now : ℕ) (spec spec' : SpecRow V)
      (cat : Catalogs) (binding : Binding) (db : Db V)
      → HashMap.get requested db.specs ≡ some spec
      → parse_catalogs json numbers spec.spec ≡ ok cat
      → (binding.spec_id == requested) ≡ true
      → HashMap.get map_uid (claim map_uid requested reporter now db).bindings ≡ some binding
      → HashMap.get binding.spec_id (claim map_uid requested reporter now db).specs ≡ some spec'
      → is_verified binding spec' ≡ true
      → IsBound json numbers hash map_uid requested spec db (
          materialize json numbers hash legacy map_uid requested spec cat
            (claim map_uid requested reporter now db))
  won-IsBound legacy map_uid requested reporter now spec spec' cat binding db row parsed same bound
        row' proved =
      let frame = claim-IsElsewhere map_uid requested reporter now db in
      let spec_is : binding.spec_id ≡ requested =
        (nat_eq.beq_iff binding.spec_id requested).0 same in
      let read : HashMap.get requested db.specs ≡ some spec' =
        ap (λ k. HashMap.get k db.specs) (sym spec_is)
        ∙ ap (HashMap.get binding.spec_id) (sym frame.specs)
        ∙ row' in
      let one : spec' ≡ spec = some_row spec' spec (sym read ∙ row) in
      materialize-IsBound json numbers hash map_uid requested spec cat db binding row same
        (rw one at proved) parsed legacy _ frame.specs bound frame.on_map frame.equipped
        frame.unlocks frame.others

  pub bind_anew-IsBound :
      (legacy : Bool) (map_uid : String) (requested reporter now : ℕ) (spec : SpecRow V)
      (db db' : Db V) (r : BindResult)
      → HashMap.get requested db.specs ≡ some spec
      → bind_anew json numbers hash legacy map_uid requested reporter now spec db ≡ ok (r, db')
      → IsBound json numbers hash map_uid requested spec db db'
  unfolding bind_anew binding_of
  bind_anew-IsBound legacy map_uid requested reporter now spec db db' r row e =
      let db1 = claim map_uid requested reporter now db in
      let (cat, parsed, e1) = >>=-eq-ok (or_catalog (parse_catalogs json numbers spec.spec)) e in
      let ((binding, v), got, e2) =
        >>=-eq-ok (found BindSpecError.spec_not_found (binding_of map_uid db1)) e1 in
      let (same, e3) = require-ok _ _ _ _ e2 in
      let (proved, e4) = require-ok _ _ _ _ e3 in
      let (bound, (spec', row', v_is)) = and_spec-some db1 _ binding v (found-ok _ _ _ got) in
      rw
        (ok_state (record { spec_id = requested; materialized = true; replaced_previous = legacy })
          r (materialize json numbers hash legacy map_uid requested spec cat db1) db' e4)
        (won-IsBound legacy map_uid requested reporter now spec spec' cat binding db row
          (or_catalog-ok _ cat parsed) same bound row' (sym v_is ∙ proved))
