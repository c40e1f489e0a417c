-- ===== src/Wayfinder/Bindings/Authority.antt =====
-- Who may bind a map in src/queries/listed_maps.rs.
use dd2_server.Prelude.{
  ℕ, ◌≡◌, ◌≢◌, ◌⊎◌, refl, sym, ap, ◌∙◌, Bool, true, false, not, ◌&&◌, Option, none, some, String,
  ◌==◌, nat_eq, string_eq, option_eq, Result, ok, err, ◌>>=◌, >>=-eq-ok, if◌then◌else◌, Bool-cases,
  inl, inr, arith,
}
use dd2_server.Prelude.HashMap
use dd2_server.Catalog.{Json}
use dd2_server.Catalog.Collectibles.{Numbers}
use dd2_server.Wayfinder.Tables.{SpecRow, Binding, Db, binding_of}
use dd2_server.Wayfinder.Bindings.{
  BindSpecError, BindResult, found, require, or_author, is_bound_verified, is_conflict, is_other,
  commit_authoritative_bind, owned_by, verify_author, prepare_authoritative_bind,
  bind_requires_author_verification,
}
use dd2_server.Wayfinder.Bindings.Results.{require-ok}
use dd2_server.Wayfinder.Bindings.Resolved.{commit_authoritative_bind-cases}

ok_row : {A : Type 0} (a b : A) → ◌≡◌ {A = Result BindSpecError A} (ok a) (ok b) → a ≡ b
ok_row a b e = cc

or_author-ok :
    (nadeo : Result String ℕ) (author : ℕ) → or_author nadeo ≡ ok author → nadeo ≡ ok author
or_author-ok (ok b) author h = ground arith
or_author-ok (err error) author h = absurd (cc)

agreed :
    (requested : ℕ) (o : Option (Binding × Bool))
    → is_bound_verified o ≡ true
    → is_conflict requested o ≡ false
    → is_other requested o ≡ false
agreed requested none v c = refl
agreed requested (some (binding, verified)) v c = ground arith

unproved : (o : Option ℕ) (user_id : ℕ) → o ≡ none → (o == some user_id) ≢ true
unproved none user_id n h = absurd (cc)
unproved (some author) user_id n h = absurd (cc)

module _ {V : Type 0} where
  -- Who may bind a map to a spec: the reporter owns the spec, and Nadeo said that the reporter is
  -- the map's author.
  pub record IsAuthorized (nadeo : Result String ℕ) (reporter : ℕ) (requested : ℕ) (db : Db V)
      : Type 0 where
    pub spec : SpecRow V
    pub row : HashMap.get requested db.specs ≡ some spec
    pub owns : spec.user_id ≡ reporter
    pub confirmed : nadeo ≡ ok reporter

  -- The map was already bound to the spec, and verified.
  pub record IsAgreed (map_uid : String) (requested : ℕ) (db : Db V) : Type 0 where
    pub verified : is_bound_verified (binding_of map_uid db) ≡ true
    pub same : is_other requested (binding_of map_uid db) ≡ false

  verify_author-confirmed :
      (nadeo : Result String ℕ) (reporter : ℕ) (spec : SpecRow V) (verified_author : Option ℕ)
      → verify_author nadeo reporter spec ≡ ok verified_author
      → (spec.user_id ≡ reporter) × (nadeo ≡ ok reporter) × (verified_author ≡ some reporter)
  unfolding verify_author
  verify_author-confirmed nadeo reporter spec verified_author e =
      let (owns, e1) = require-ok _ _ _ _ e in
      let (author, said, e2) = >>=-eq-ok (or_author nadeo) e1 in
      let (agrees, e3) = require-ok _ _ _ _ e2 in
      let is_owner : spec.user_id ≡ reporter = (nat_eq.beq_iff spec.user_id reporter).0 owns in
      let is_author : author ≡ reporter =
        (nat_eq.beq_iff author spec.user_id).0 agrees ∙ is_owner in
      (
        is_owner,
        rw is_author at (or_author-ok nadeo author said),
        sym (ok_row _ _ e3) ∙ ap some is_author,
      )

  -- What was confirmed before the bind, if the map was not bound and verified then.
  prepared :
      (nadeo : Result String ℕ) (reporter : ℕ) (map_uid : String) (requested : ℕ) (before db : Db V)
      (verified_author : Option ℕ)
      → prepare_authoritative_bind nadeo reporter map_uid requested before db ≡ ok verified_author
      → (verified_author ≡ none) ⊎ ((nadeo ≡ ok reporter) × (verified_author ≡ some reporter))
  unfolding prepare_authoritative_bind
  prepared nadeo reporter map_uid requested before db verified_author e =
      let (agrees, e1) =
        require-ok (not (is_conflict requested (binding_of map_uid before)))
          BindSpecError.conflicting_binding
          (found BindSpecError.spec_not_found (HashMap.get requested db.specs) >>= λ spec.
            if is_bound_verified (binding_of map_uid before)
            then ok none
            else verify_author nadeo reporter spec)
          verified_author e in
      let (spec, got, e2) =
        >>=-eq-ok (found BindSpecError.spec_not_found (HashMap.get requested db.specs)) e1 in
      elim (Bool-cases (is_bound_verified (binding_of map_uid before))) [
        | inl bound ↦ inl (sym (ok_row _ _ (rw bound at e2)))
        | inr fresh ↦
            let (owns, confirmed, known) =
              verify_author-confirmed nadeo reporter spec verified_author (rw fresh at e2) in
            inr (confirmed, known)
      ]

  verify_author-stranger :
      (nadeo nadeo' : Result String ℕ) (reporter : ℕ) (spec : SpecRow V)
      → (spec.user_id == reporter) ≡ false
      → verify_author nadeo reporter spec ≡ verify_author nadeo' reporter spec
  unfolding verify_author
  verify_author-stranger nadeo nadeo' reporter spec h = rw h refl

  unasked :
      (nadeo nadeo' : Result String ℕ) (reporter requested : ℕ) (o : Option (Binding × Bool))
      (row : Option (SpecRow V))
      → (not (is_bound_verified o && not (is_other requested o)) && owned_by reporter row) ≡ false
      → ((found BindSpecError.spec_not_found row >>= λ spec.
            if is_bound_verified o then ok none else verify_author nadeo reporter spec)
          ≡ (found BindSpecError.spec_not_found row >>= λ spec.
              if is_bound_verified o then ok none else verify_author nadeo' reporter spec))
  unasked nadeo nadeo' reporter requested o none h = refl
  unasked nadeo nadeo' reporter requested none (some spec) h =
      verify_author-stranger nadeo nadeo' reporter spec h
  unasked nadeo nadeo' reporter requested (some (binding, true)) (some spec) h = refl
  unasked nadeo nadeo' reporter requested (some (binding, false)) (some spec) h =
      verify_author-stranger nadeo nadeo' reporter spec h

  -- Nadeo is asked only where `bind_requires_author_verification` says so.
  prepare_authoritative_bind-unasked :
      (nadeo nadeo' : Result String ℕ) (reporter : ℕ) (map_uid : String) (requested : ℕ) (db : Db V)
      → bind_requires_author_verification reporter map_uid requested db ≡ false
      → prepare_authoritative_bind nadeo reporter map_uid requested db db
        ≡ prepare_authoritative_bind nadeo' reporter map_uid requested db db
  unfolding bind_requires_author_verification prepare_authoritative_bind
  prepare_authoritative_bind-unasked nadeo nadeo' reporter map_uid requested db h =
      ap
        (λ rest.
          require (not (is_conflict requested (binding_of map_uid db)))
            BindSpecError.conflicting_binding
          >>= λ _. rest)
        (unasked nadeo nadeo' reporter requested (binding_of map_uid db)
          (HashMap.get requested db.specs) h)

  module _ (json : Json V) (numbers : Numbers V) (hash : V → String) where
    -- A bind of the author that succeeds, after its preparation against tables that may have changed
    -- since, was of a map that was bound to this spec and verified; or the reporter owns the spec,
    -- and Nadeo said that the reporter is the map's author.
    pub commit_authoritative_bind-prepare_authoritative_bind :
        (nadeo : Result String ℕ) (reporter : ℕ) (map_uid : String) (requested now : ℕ)
        (before between db db' : Db V) (verified_author : Option ℕ) (r : BindResult)
        → prepare_authoritative_bind nadeo reporter map_uid requested before between
          ≡ ok verified_author
        → commit_authoritative_bind json numbers hash verified_author reporter map_uid requested now
            db
          ≡ ok (r, db')
        → IsAgreed map_uid requested db ⊎ IsAuthorized nadeo reporter requested db
    commit_authoritative_bind-prepare_authoritative_bind nadeo reporter map_uid requested now before
          between db db' verified_author r p e =
        let (spec, allowed, cases) =
          commit_authoritative_bind-cases json numbers hash verified_author reporter map_uid
            requested now db db' r e in
        elim (Bool-cases (is_bound_verified (binding_of map_uid db))) [
          | inl bound ↦ inl (record {
            verified = bound;
            same = agreed requested (binding_of map_uid db) bound allowed.no_conflict;
          })
          | inr fresh ↦
              elim (prepared nadeo reporter map_uid requested before between verified_author p) [
                | inl unasked ↦
                    absurd
                      (unproved verified_author spec.user_id unasked (rw fresh at allowed.author))
                | inr (confirmed, known) ↦ inr (record {
                  spec = spec;
                  row = allowed.row;
                  owns = (nat_eq.beq_iff spec.user_id reporter).0 (rw fresh at allowed.owner);
                  confirmed = confirmed;
                })
              ]
        ]
