-- ===== src/Wayfinder/Specs.antt =====
-- src/queries/custom_map_aux_specs.rs, with the upload and the deletion of a spec of src/server2.rs.
-- A time is in microseconds, an `i64` is kept by its bits.
pub mod Laws
use dd2_server.Prelude.{
  ℕ, ◌+◌, ◌^◌, Bool, true, false, not, ◌&&◌, Option, none, some, List, [], ◌∷◌, String, ◌==◌, ◌||◌,
  nat_eq, string_eq, ltb, leb, any, Result, ok, err, if◌then◌else◌,
}
use dd2_server.Prelude.HashMap
use dd2_server.Prelude.HashMap.{HashMap}
use dd2_server.Catalog.{Json, CatalogValidationError}
use dd2_server.Catalog.Collectibles.{Numbers}
use dd2_server.Wayfinder.Tables.{
  SpecRow, SpecCatalogs, Binding, Catalogs, Db, is_some, parse_catalogs, replace_catalogs,
}

-- The reasons that a mapper is shown. `server_error` is what a failed query is told as.
pub data SpecTaskError : Type 0 where
  invalid_spec no_longer_modified no_longer_deleted server_error : SpecTaskError
  validation : CatalogValidationError → SpecTaskError
  bound_to : String → SpecTaskError

-- What the upload does with a JSON value besides reading it.
pub record SpecObject (V : Type 0) : Type 0 where
  pub remove : String → V → V
  pub is_empty : V → Bool

abbrev pub default_listing_threshold : ℕ
default_listing_threshold = 25

abbrev pub min_listing_threshold : ℕ
min_listing_threshold = 5

abbrev pub max_listing_threshold : ℕ
max_listing_threshold = 100

-- `i64::clamp`: the bits of a negative number are `2 ^ 63` or more.
abbrev pub clamp : ℕ → ℕ
clamp n =
    if leb (2 ^ 63) n
    then min_listing_threshold
    else if ltb n min_listing_threshold
    then min_listing_threshold
    else if ltb max_listing_threshold n
    then max_listing_threshold
    else n

-- `i64::try_from(u).unwrap_or(MAX_LISTING_THRESHOLD as i64)`.
abbrev pub i64_or_max : ℕ → ℕ
i64_or_max u = if ltb u (2 ^ 63) then u else max_listing_threshold

abbrev pub threshold_of : Option ℕ → Option ℕ → Option ℕ → ℕ
threshold_of (some i) u f = clamp i
threshold_of none (some u) f = clamp (i64_or_max u)
threshold_of none none (some n) = clamp n
threshold_of none none none = default_listing_threshold

abbrev pub day : ℕ
day = 86400000000

-- `map_listing_bind.spec_id` restricts the deletion of what it names.
unfoldable pub is_referenced : ℕ → HashMap String Binding → Bool
is_referenced spec_id bindings = any (λ row. row.1.spec_id == spec_id) bindings

module _ {V : Type 0} where
  -- Whose spec it is, and under which name.
  abbrev pub is_named : ℕ → String → SpecRow V → Bool
  is_named user_id name_id spec = spec.user_id == user_id && (spec.name_id == name_id)

  unfoldable pub find_spec : ℕ → String → HashMap ℕ (SpecRow V) → Option (ℕ × SpecRow V)
  find_spec user_id name_id [] = none
  find_spec user_id name_id ((id, spec) ∷ specs) =
      if is_named user_id name_id spec then some (id, spec) else find_spec user_id name_id specs

  abbrev pub counted : SpecRow V → SpecRow V
  counted spec = record spec { hit_counter = spec.hit_counter + 1 }

  abbrev pub hit : Option (ℕ × SpecRow V) → Db V → Option (SpecRow V) × Db V
  hit none db = (none, db)
  hit (some (id, spec)) db =
      (some (counted spec), record db { specs = HashMap.insert id (counted spec) db.specs })

  -- The read counts itself.
  unfoldable pub get_spec : ℕ → String → Db V → Option (SpecRow V) × Db V
  unfolding find_spec
  get_spec user_id name_id db = hit (find_spec user_id name_id db.specs) db

  abbrev pub new_spec : ℕ → String → V → ℕ → ℕ → SpecRow V
  new_spec user_id name_id spec threshold now = record {
    user_id = user_id;
    name_id = name_id;
    spec = spec;
    hit_counter = 0;
    listing_threshold = threshold;
    created_at = now;
    updated_at = now;
  }

  -- `INSERT … ON CONFLICT (user_id, name_id) DO UPDATE … RETURNING id`. The id that the insert drew
  -- is spent also where it found the row.
  abbrev pub upserted : Option (ℕ × SpecRow V) → ℕ → String → V → ℕ → ℕ → Db V → ℕ × Db V
  upserted none user_id name_id spec threshold now db = (
    db.next_id,
    record db {
      specs = HashMap.insert db.next_id (new_spec user_id name_id spec threshold now) db.specs;
      next_id = db.next_id + 1;
    },
  )
  upserted (some (id, old)) user_id name_id spec threshold now db = (
    id,
    record db {
      specs =
          HashMap.insert id
            (record old { spec = spec; listing_threshold = threshold; updated_at = now }) db.specs;
      next_id = db.next_id + 1;
    },
  )

  abbrev pub is_old : ℕ → Option (SpecRow V) → Bool
  is_old now none = false
  is_old now (some existing) = ltb (existing.created_at + day) now

  abbrev pub is_of : ℕ → String → Option (SpecRow V) → Bool
  is_of user_id name_id none = false
  is_of user_id name_id (some spec) = is_named user_id name_id spec

  -- The maps that are bound to a spec of this name.
  unfoldable pub bound_maps : ℕ → String → HashMap String Binding → Db V → List String
  bound_maps user_id name_id [] db = []
  bound_maps user_id name_id ((map_uid, binding) ∷ bindings) db =
      let rest = bound_maps user_id name_id bindings db in
      if is_of user_id name_id (HashMap.get binding.spec_id db.specs) then map_uid ∷ rest else rest

  abbrev pub deleted : Option (ℕ × SpecRow V) → Db V → Result SpecTaskError (Db V)
  deleted none db = ok db
  deleted (some (id, spec)) db =
      if is_referenced id db.bindings
      then err server_error
      else ok (record db {
        specs = HashMap.remove id db.specs;
        catalogs = HashMap.remove id db.catalogs;
      })

  -- The rows of the three catalogs go with the spec.
  unfoldable pub delete_spec : ℕ → String → Db V → Result SpecTaskError (Db V)
  unfolding find_spec is_referenced
  delete_spec user_id name_id db = deleted (find_spec user_id name_id db.specs) db

  -- `delete_catalog` of the three catalogs.
  unfoldable pub delete_catalogs : ℕ → String → Db V → Db V
  delete_catalogs user_id name_id db = record db {
    catalogs =
        HashMap.retain (λ id rows. not (rows.user_id == user_id && (rows.name_id == name_id)))
          db.catalogs;
  }

-- The first in the order of the table, that is of the database's collation.
module _ (before : String → String → Bool) where
  abbrev pub earlier : String → Option String → String
  earlier map_uid none = map_uid
  earlier map_uid (some other) = if before other map_uid then other else map_uid

  unfoldable pub first_of : List String → Option String
  first_of [] = none
  first_of (map_uid ∷ maps) = some (earlier map_uid (first_of maps))

  unfoldable pub bound_map_uid : {V : Type 0} → ℕ → String → Db V → Option String
  unfolding bound_maps first_of
  bound_map_uid user_id name_id db = first_of (bound_maps user_id name_id db.bindings db)

  abbrev pub delete_if :
      {V : Type 0} → Option String → ℕ → String → Db V → Result SpecTaskError (Db V)
  delete_if (some map_uid) user_id name_id db = err (bound_to map_uid)
  delete_if none user_id name_id db = delete_spec user_id name_id db

  abbrev pub with_catalogs :
      {V : Type 0}
      → ℕ
      → String
      → Db V
      → Result SpecTaskError (Db V)
      → Result SpecTaskError (Unit {0}) × Db V
  with_catalogs user_id name_id db (err error) = (err error, db)
  with_catalogs user_id name_id db (ok db') = (ok tt, delete_catalogs user_id name_id db')

  -- What its queries do where no other request comes between them.
  unfoldable pub delete_custom_map_aux_spec :
      {V : Type 0} → ℕ → String → ℕ → Db V → Result SpecTaskError (Unit {0}) × Db V
  unfolding get_spec bound_map_uid delete_spec delete_catalogs
  delete_custom_map_aux_spec user_id name_id now db =
      let read = get_spec user_id name_id db in
      if is_old now read.0
      then (err no_longer_deleted, read.1)
      else with_catalogs user_id name_id read.1
          (delete_if (bound_map_uid user_id name_id read.1) user_id name_id read.1)

module _ {V : Type 0} (json : Json V) (numbers : Numbers V) (object : SpecObject V) where
  -- What the server adds to a spec is not stored.
  unfoldable pub strip_injected_spec_id : V → V
  strip_injected_spec_id spec =
      if json.is_object spec then object.remove "spec_id" (object.remove "specId" spec) else spec

  abbrev pub threshold_in : Option V → ℕ
  threshold_in none = default_listing_threshold
  threshold_in (some raw) =
      threshold_of (numbers.as_i64 raw) (numbers.as_u64 raw) (numbers.as_f64 raw)

  unfoldable pub listing_threshold_from_spec : V → ℕ
  listing_threshold_from_spec spec = threshold_in (json.get "listingThreshold" spec)

  abbrev pub stored : ℕ → String → V → Catalogs → ℕ → Db V → ℕ × Db V
  stored user_id name_id spec catalogs now db =
      let (id, db1) =
        upserted (find_spec user_id name_id db.specs) user_id name_id spec
          (listing_threshold_from_spec spec) now db in
      (id, replace_catalogs id user_id name_id catalogs db1)

  abbrev pub stored_if :
      ℕ
      → String
      → V
      → ℕ
      → Db V
      → Result CatalogValidationError Catalogs
      → Result CatalogValidationError ℕ × Db V
  stored_if user_id name_id spec now db (err error) = (err error, db)
  stored_if user_id name_id spec now db (ok catalogs) =
      let (id, db') = stored user_id name_id spec catalogs now db in (ok id, db')

  unfoldable pub upsert_spec_and_catalogs :
      ℕ → String → V → ℕ → Db V → Result CatalogValidationError ℕ × Db V
  unfolding strip_injected_spec_id listing_threshold_from_spec find_spec
  upsert_spec_and_catalogs user_id name_id spec now db =
      let stripped = strip_injected_spec_id spec in
      stored_if user_id name_id stripped now db (parse_catalogs json numbers stripped)

  abbrev pub shown : Result CatalogValidationError ℕ → Result SpecTaskError (Unit {0})
  shown (ok id) = ok tt
  shown (err error) = err (validation error)

  unfoldable pub upsert_custom_map_aux_spec :
      ℕ → String → V → ℕ → Db V → Result SpecTaskError (Unit {0}) × Db V
  unfolding get_spec upsert_spec_and_catalogs
  upsert_custom_map_aux_spec user_id name_id spec now db =
      if not (json.is_object spec) || object.is_empty spec
      then (err invalid_spec, db)
      else let read = get_spec user_id name_id db in
        if is_old now read.0
        then (err no_longer_modified, read.1)
        else let result = upsert_spec_and_catalogs user_id name_id spec now read.1 in
          (shown result.0, result.1)
