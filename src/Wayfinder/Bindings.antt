-- ===== src/Wayfinder/Bindings.antt =====
-- src/queries/listed_maps.rs: which spec a map is bound to, by its author or by its published
-- comment. A transaction that fails is rolled back, so it leaves the tables as they are; the
-- players whose hats it takes off are left out of the results.
pub mod Results
pub mod Worn
pub mod Materialized
pub mod Claims
pub mod Resolved
pub mod Authority
use dd2_server.Prelude.{
  ℕ, Bool, true, false, not, ◌&&◌, ◌||◌, Option, none, some, List, [], ◌∷◌, String, ◌==◌, nat_eq,
  string_eq, option_eq, Result, ok, err, ◌>>=◌, if◌then◌else◌,
}
use dd2_server.Prelude.HashMap
use dd2_server.Catalog.{Json, CatalogValidationError}
use dd2_server.Catalog.Collectibles.{Numbers}
use dd2_server.Wayfinder.Tables.{
  SpecRow, Binding, Catalogs, Db, is_some, is_verified, binding_of, parse_catalogs,
  replace_catalogs, bind_map_from_catalog, purge_map_equipment,
}

pub data BindSpecError : Type 0 where
  conflicting_binding spec_not_found spec_not_owned author_mismatch : BindSpecError
  author_verification : String → BindSpecError
  catalog : CatalogValidationError → BindSpecError

pub record BindResult : Type 0 where
  pub spec_id : ℕ
  pub materialized : Bool
  pub replaced_previous : Bool

abbrev pub found : {A : Type 0} → BindSpecError → Option A → Result BindSpecError A
found error none = err error
found error (some a) = ok a

abbrev pub require : Bool → BindSpecError → Result BindSpecError (Unit {0})
require true error = ok tt
require false error = err error

infixl 5 ◌>>◌
abbrev pub ◌>>◌ :
    {B : Type 0} → Result BindSpecError (Unit {0}) → Result BindSpecError B → Result BindSpecError B
m >> n = m >>= λ _. n

abbrev pub or_catalog : {A : Type 0} → Result CatalogValidationError A → Result BindSpecError A
or_catalog (ok a) = ok a
or_catalog (err error) = err (catalog error)

abbrev pub or_author : Result String ℕ → Result BindSpecError ℕ
or_author (ok author) = ok author
or_author (err error) = err (author_verification error)

abbrev pub is_bound_verified : Option (Binding × Bool) → Bool
is_bound_verified none = false
is_bound_verified (some (binding, verified)) = verified

-- A verified binding to another spec.
abbrev pub is_conflict : ℕ → Option (Binding × Bool) → Bool
is_conflict requested none = false
is_conflict requested (some (binding, verified)) = verified && not (binding.spec_id == requested)

abbrev pub is_legacy : Option (Binding × Bool) → Bool
is_legacy none = false
is_legacy (some (binding, verified)) = not verified

abbrev pub is_other : ℕ → Option (Binding × Bool) → Bool
is_other requested none = false
is_other requested (some (binding, verified)) = not (binding.spec_id == requested)

abbrev pub fresh_binding : ℕ → ℕ → ℕ → Binding
fresh_binding spec_id author now = record {
  spec_id = spec_id;
  verified_author_id = some author;
  author_verified_at = some now;
  materialized_spec_updated_at = none;
  materialized_spec_hash = none;
}

module _ {V : Type 0} where
  abbrev pub owned_by : ℕ → Option (SpecRow V) → Bool
  owned_by user_id none = false
  owned_by user_id (some spec) = spec.user_id == user_id

  -- The two tests of one query.
  unfoldable pub bind_requires_author_verification : ℕ → String → ℕ → Db V → Bool
  unfolding binding_of
  bind_requires_author_verification reporter map_uid requested db =
      not (
        is_bound_verified (binding_of map_uid db)
        && not (is_other requested (binding_of map_uid db)))
      && owned_by reporter (HashMap.get requested db.specs)

  unfoldable pub verify_author : Result String ℕ → ℕ → SpecRow V → Result BindSpecError (Option ℕ)
  verify_author nadeo reporter spec = do
    require (spec.user_id == reporter) spec_not_owned
    author ← or_author nadeo
    require (author == spec.user_id) author_mismatch
    ok (some author)

  -- The author that Nadeo confirmed, if it had to be asked. `nadeo` is its answer; the binding is
  -- read in `before`, the spec in `db`.
  unfoldable pub prepare_authoritative_bind :
      Result String ℕ → ℕ → String → ℕ → Db V → Db V → Result BindSpecError (Option ℕ)
  prepare_authoritative_bind nadeo reporter map_uid requested before db = do
    require (not (is_conflict requested (binding_of map_uid before))) conflicting_binding
    spec ← found spec_not_found (HashMap.get requested db.specs)
    if is_bound_verified (binding_of map_uid before)
        then ok none
        else verify_author nadeo reporter spec

  -- `INSERT … SELECT … WHERE id = $2 AND user_id = $3 ON CONFLICT DO NOTHING`.
  abbrev pub inserted : String → ℕ → ℕ → ℕ → Bool → Option Binding → Db V → Db V
  inserted map_uid requested reporter now owns (some old) db = db
  inserted map_uid requested reporter now owns none db =
      if owns
      then record db {
        bindings = HashMap.insert map_uid (fresh_binding requested reporter now) db.bindings;
      }
      else db

  abbrev pub owner_of : Option (SpecRow V) → Option ℕ
  owner_of none = none
  owner_of (some spec) = some spec.user_id

  -- `author_verified_at IS NULL OR verified_author_id IS DISTINCT FROM …`.
  abbrev pub is_unproved : Db V → Binding → Bool
  is_unproved db binding =
      not (is_some binding.author_verified_at)
      || not (binding.verified_author_id == owner_of (HashMap.get binding.spec_id db.specs))

  abbrev pub promoted : String → ℕ → ℕ → ℕ → Option Binding → Db V → Db V
  promoted map_uid requested reporter now none db = db
  promoted map_uid requested reporter now (some binding) db =
      if is_unproved db binding
      then record db {
        bindings = HashMap.insert map_uid (fresh_binding requested reporter now) db.bindings;
      }
      else db

  -- The insert, and the update of what is not verified.
  unfoldable pub claim : String → ℕ → ℕ → ℕ → Db V → Db V
  claim map_uid requested reporter now db =
      let db1 =
        inserted map_uid requested reporter now (owned_by reporter (HashMap.get requested db.specs))
          (HashMap.get map_uid db.bindings) db in
      promoted map_uid requested reporter now (HashMap.get map_uid db1.bindings) db1

abbrev pub agreeing : ℕ → Option ℕ → Option ℕ
agreeing client_spec_id none = none
agreeing client_spec_id (some spec_id) = if spec_id == client_spec_id then some spec_id else none

module _ {V : Type 0} (json : Json V) (numbers : Numbers V) (hash : V → String) where
  -- The binding is of this spec as it is now.
  abbrev pub is_materialized : SpecRow V → Binding → Bool
  is_materialized spec binding =
      (binding.materialized_spec_updated_at == some spec.updated_at)
      && (binding.materialized_spec_hash == some (hash spec.spec))

  abbrev pub is_current : SpecRow V → Option (Binding × Bool) → Bool
  is_current spec none = false
  is_current spec (some (binding, verified)) = verified && is_materialized spec binding

  abbrev pub stamped : String → ℕ → SpecRow V → Option Binding → Db V → Db V
  stamped map_uid requested spec none db = db
  stamped map_uid requested spec (some binding) db =
      if binding.spec_id == requested
      then record db {
        bindings =
            HashMap.insert map_uid
              (record binding {
                materialized_spec_updated_at = some spec.updated_at;
                materialized_spec_hash = some (hash spec.spec);
              })
              db.bindings;
      }
      else db

  -- The catalogs of the spec, the map's rows of them, and the binding's stamp.
  unfoldable pub materialize : Bool → String → ℕ → SpecRow V → Catalogs → Db V → Db V
  materialize purges map_uid requested spec catalogs db =
      let db1 = if purges then purge_map_equipment map_uid db else db in
      let db2 =
        bind_map_from_catalog map_uid requested
          (replace_catalogs requested spec.user_id spec.name_id catalogs db1) in
      stamped map_uid requested spec (HashMap.get map_uid db2.bindings) db2

  unfoldable pub bind_anew :
      Bool → String → ℕ → ℕ → ℕ → SpecRow V → Db V → Result BindSpecError (BindResult × Db V)
  unfolding claim materialize
  bind_anew legacy map_uid requested reporter now spec db = do
    catalogs ← or_catalog (parse_catalogs json numbers spec.spec)
    winner ← found spec_not_found (binding_of map_uid (claim map_uid requested reporter now db))
    require (winner.0.spec_id == requested) conflicting_binding
    require winner.1 (author_verification "binding was not durably verified")
    ok (
      record { spec_id = requested; materialized = true; replaced_previous = legacy },
      materialize legacy map_uid requested spec catalogs (claim map_uid requested reporter now db),
    )

  unfoldable pub commit_authoritative_bind :
      Option ℕ → ℕ → String → ℕ → ℕ → Db V → Result BindSpecError (BindResult × Db V)
  unfolding bind_anew
  commit_authoritative_bind verified_author reporter map_uid requested now db = do
    spec ← found spec_not_found (HashMap.get requested db.specs)
    require (is_bound_verified (binding_of map_uid db) || spec.user_id == reporter) spec_not_owned
    require (is_bound_verified (binding_of map_uid db) || verified_author == some spec.user_id)
        (author_verification "map author was not verified for this binding attempt")
    require (not (is_conflict requested (binding_of map_uid db))) conflicting_binding
    if is_current spec (binding_of map_uid db)
        then ok
            (record { spec_id = requested; materialized = false; replaced_previous = false }, db)
        else bind_anew (is_legacy (binding_of map_uid db)) map_uid requested reporter now spec db

  -- `ON CONFLICT (map_uid) DO UPDATE`.
  abbrev pub endorse : String → ℕ → SpecRow V → ℕ → Db V → Db V
  endorse map_uid spec_id spec now db = record db {
    bindings = HashMap.insert map_uid (fresh_binding spec_id spec.user_id now) db.bindings;
  }

  unfoldable pub endorse_anew :
      Bool → String → ℕ → ℕ → SpecRow V → Db V → Result BindSpecError (BindResult × Db V)
  unfolding materialize
  endorse_anew other map_uid spec_id now spec db =
      or_catalog (parse_catalogs json numbers spec.spec) >>= λ catalogs. ok (
        record { spec_id = spec_id; materialized = true; replaced_previous = other },
        materialize other map_uid spec_id spec catalogs (endorse map_uid spec_id spec now db),
      )

  unfoldable pub commit_comment_bind :
      String → ℕ → ℕ → Db V → Result BindSpecError (BindResult × Db V)
  unfolding endorse_anew
  commit_comment_bind map_uid spec_id now db =
      let other = is_other spec_id (binding_of map_uid db) in
      found spec_not_found (HashMap.get spec_id db.specs) >>= λ spec.
      if not other && is_current spec (binding_of map_uid db)
      then ok (record { spec_id = spec_id; materialized = false; replaced_previous = false }, db)
      else endorse_anew other map_uid spec_id now spec db

  abbrev pub bound_row : Binding → Option (SpecRow V) → Option ℕ
  bound_row binding none = none
  bound_row binding (some spec) =
      if is_verified binding spec && is_materialized spec binding
      then some binding.spec_id
      else none

  abbrev pub bound_spec : Db V → Option Binding → Option ℕ
  bound_spec db none = none
  bound_spec db (some binding) = bound_row binding (HashMap.get binding.spec_id db.specs)

  unfoldable pub verified_binding_spec_id : String → Db V → Option ℕ
  verified_binding_spec_id map_uid db = bound_spec db (HashMap.get map_uid db.bindings)

  unfoldable pub resolve_bound_spec : String → ℕ → Db V → Option ℕ
  unfolding verified_binding_spec_id
  resolve_bound_spec map_uid client_spec_id db =
      agreeing client_spec_id (verified_binding_spec_id map_uid db)
