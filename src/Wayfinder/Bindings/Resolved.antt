-- ===== src/Wayfinder/Bindings/Resolved.antt =====
-- A bind of src/queries/listed_maps.rs that succeeds is in force.
use dd2_server.Prelude.{
  ℕ, ◌≡◌, ◌⊎◌, sym, ap, ◌∙◌, Bool, true, false, ◌||◌, Option, none, some, String, ◌==◌, nat_eq,
  string_eq, option_eq, ok, >>=-eq-ok, Bool-cases, inl, inr, arith,
}
use dd2_server.Prelude.HashMap
use dd2_server.Catalog.{Json}
use dd2_server.Catalog.Collectibles.{Numbers}
use dd2_server.Wayfinder.Tables.{SpecRow, Binding, Db, is_verified, binding_of}
use dd2_server.Wayfinder.Bindings.{
  BindSpecError, BindResult, found, is_bound_verified, is_conflict, is_other, is_materialized,
  is_current, commit_authoritative_bind, commit_comment_bind, bound_row, verified_binding_spec_id,
  resolve_bound_spec, agreeing,
}
use dd2_server.Wayfinder.Bindings.Results.{
  require-ok, ok_state, and_true, not-true, some_row, found-ok,
}
use dd2_server.Wayfinder.Bindings.Materialized.{IsBound, commit_comment_bind-cases}
use dd2_server.Wayfinder.Bindings.Claims.{and_spec-some, bind_anew-IsBound}

module _ {V : Type 0} (json : Json V) (numbers : Numbers V) (hash : V → String) where
  -- The binding is verified and of the spec as it is now.
  pub record IsStill (map_uid : String) (spec_id : ℕ) (db : Db V) : Type 0 where
    pub spec : SpecRow V
    pub row : HashMap.get spec_id db.specs ≡ some spec
    pub current : is_current json numbers hash spec (binding_of map_uid db) ≡ true
    pub same : is_other spec_id (binding_of map_uid db) ≡ false

  -- What the author's bind asked for.
  pub record IsAllowed (verified_author : Option ℕ) (reporter : ℕ) (map_uid : String)
      (requested : ℕ) (spec : SpecRow V) (db : Db V) : Type 0 where
    pub row : HashMap.get requested db.specs ≡ some spec
    pub owner : (is_bound_verified (binding_of map_uid db) || spec.user_id == reporter) ≡ true
    pub author :
        (is_bound_verified (binding_of map_uid db) || verified_author == some spec.user_id) ≡ true
    pub no_conflict : is_conflict requested (binding_of map_uid db) ≡ false

  not_other :
      (spec : SpecRow V) (requested : ℕ) (o : Option (Binding × Bool))
      → is_conflict requested o ≡ false
      → is_current json numbers hash spec o ≡ true
      → is_other requested o ≡ false
  not_other spec requested none h c = absurd (cc)
  not_other spec requested (some (binding, v)) h c =
      ground (arith, (and_true v (is_materialized json numbers hash spec binding) c).0)

  pub commit_authoritative_bind-cases :
      (verified_author : Option ℕ) (reporter : ℕ) (map_uid : String) (requested now : ℕ)
      (db db' : Db V) (r : BindResult)
      → commit_authoritative_bind json numbers hash verified_author reporter map_uid requested now
          db
        ≡ ok (r, db')
      → (spec : SpecRow V) × IsAllowed verified_author reporter map_uid requested spec db
        × (((db' ≡ db) × IsStill map_uid requested db)
            ⊎ IsBound json numbers hash map_uid requested spec db db')
  unfolding commit_authoritative_bind
  commit_authoritative_bind-cases verified_author reporter map_uid requested now db db' r e =
      let (spec, got, e1) =
        >>=-eq-ok (found BindSpecError.spec_not_found (HashMap.get requested db.specs)) e in
      let (owner, e2) = require-ok _ _ _ _ e1 in
      let (author, e3) = require-ok _ _ _ _ e2 in
      let (agrees, e4) = require-ok _ _ _ _ e3 in
      let row = found-ok _ _ spec got in
      let no_conflict = not-true _ agrees in
      (
        spec,
        record { row = row; owner = owner; author = author; no_conflict = no_conflict },
        elim (Bool-cases (is_current json numbers hash spec (binding_of map_uid db))) [
          | inl still ↦ inl (
            ok_state _ _ _ _ (rw still at e4),
            record {
              spec = spec;
              row = row;
              current = still;
              same = not_other spec requested (binding_of map_uid db) no_conflict still;
            },
          )
          | inr anew ↦ inr (
              bind_anew-IsBound json numbers hash _ map_uid requested reporter now spec db db' r row
                (rw anew at e4))
        ],
      )

  bound_row-current :
      (spec : SpecRow V) (spec_id : ℕ) (binding : Binding)
      → is_verified binding spec ≡ true
      → is_materialized json numbers hash spec binding ≡ true
      → binding.spec_id ≡ spec_id
      → agreeing spec_id (bound_row json numbers hash binding (some spec)) ≡ some spec_id
  bound_row-current spec spec_id binding verified current same =
      rw (verified, current, (nat_eq.beq_iff binding.spec_id spec_id).1 same) (ap some same)

  IsBound-resolve :
      (map_uid : String) (spec_id : ℕ) (spec : SpecRow V) (start db : Db V)
      → IsBound json numbers hash map_uid spec_id spec start db
      → resolve_bound_spec json numbers hash map_uid spec_id db ≡ some spec_id
  unfolding resolve_bound_spec verified_binding_spec_id
  IsBound-resolve map_uid spec_id spec start db b =
      let row = ap (HashMap.get spec_id) b.specs ∙ b.row in
      let found_row = ap (λ k. HashMap.get k db.specs) b.spec_is ∙ row in
      rw (b.bound, found_row)
        (bound_row-current spec spec_id b.binding b.verified b.materialized b.spec_is)

  current_pair :
      (spec : SpecRow V) (spec_id : ℕ) (o : Option (Binding × Bool))
      → is_current json numbers hash spec o ≡ true
      → is_other spec_id o ≡ false
      → (binding : Binding) × (o ≡ some (binding, true))
        × (is_materialized json numbers hash spec binding ≡ true)
        × (binding.spec_id ≡ spec_id)
  current_pair spec spec_id none c s = absurd (cc)
  current_pair spec spec_id (some (binding, v)) c s =
      let (proved, m) = and_true v (is_materialized json numbers hash spec binding) c in
      let same : (binding.spec_id == spec_id) ≡ true = ground (arith, s) in
      (
        binding,
        ap (λ b. some (binding, b)) proved,
        m,
        (nat_eq.beq_iff binding.spec_id spec_id).0 same,
      )

  IsStill-resolve :
      (map_uid : String) (spec_id : ℕ) (db : Db V)
      → IsStill map_uid spec_id db
      → resolve_bound_spec json numbers hash map_uid spec_id db ≡ some spec_id
  unfolding resolve_bound_spec verified_binding_spec_id binding_of
  IsStill-resolve map_uid spec_id db still =
      let (binding, read, m, same) =
        current_pair still.spec spec_id (binding_of map_uid db) still.current still.same in
      let (bound, (spec, row, v_is)) =
        and_spec-some json numbers hash db (HashMap.get map_uid db.bindings) binding true read in
      let one =
        some_row spec still.spec (sym row ∙ ap (λ k. HashMap.get k db.specs) same ∙ still.row) in
      rw (bound, row) (bound_row-current spec spec_id binding (sym v_is) (rw (sym one) at m) same)

  -- A bind of the author that succeeds is in force: the client that names its spec gets it.
  pub resolve_bound_spec-commit_authoritative_bind :
      (verified_author : Option ℕ) (reporter : ℕ) (map_uid : String) (requested now : ℕ)
      (db db' : Db V) (r : BindResult)
      → commit_authoritative_bind json numbers hash verified_author reporter map_uid requested now
          db
        ≡ ok (r, db')
      → resolve_bound_spec json numbers hash map_uid requested db' ≡ some requested
  resolve_bound_spec-commit_authoritative_bind verified_author reporter map_uid requested now db db'
        r e =
      let (spec, allowed, cases) =
        commit_authoritative_bind-cases verified_author reporter map_uid requested now db db' r e in
      elim cases [
        | inl (same, still) ↦ rw same (IsStill-resolve map_uid requested db still)
        | inr bound ↦ IsBound-resolve map_uid requested spec db db' bound
      ]

  -- A bind of the published comment that succeeds is in force: the client that names its spec gets
  -- it.
  pub resolve_bound_spec-commit_comment_bind :
      (map_uid : String) (spec_id now : ℕ) (db db' : Db V) (r : BindResult)
      → commit_comment_bind json numbers hash map_uid spec_id now db ≡ ok (r, db')
      → resolve_bound_spec json numbers hash map_uid spec_id db' ≡ some spec_id
  resolve_bound_spec-commit_comment_bind map_uid spec_id now db db' r e =
      elim (commit_comment_bind-cases json numbers hash map_uid spec_id now db db' r e) [
        | inl (same, (spec, row, current, agrees)) ↦ rw same (
            IsStill-resolve map_uid spec_id db
              (record { spec = spec; row = row; current = current; same = agrees }))
        | inr (spec, bound) ↦ IsBound-resolve map_uid spec_id spec db db' bound
      ]
