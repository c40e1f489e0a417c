-- ===== src/Wayfinder/Hats/Frames.antt =====
-- Which tables src/queries/hats.rs changes, and which src/queries/custom_map_aux_specs.rs.
use dd2_server.Prelude.{
  ℕ, ◌≡◌, refl, Bool, true, false, Option, none, some, String, ◌==◌, Result, ok, err, if◌then◌else◌,
  Bool-cases, inl, inr, nat_eq, string_eq, pair_eq, option_eq,
}
use dd2_server.Prelude.HashMap
use dd2_server.Prelude.HashMap.{HashMap}
use dd2_server.Catalog.{Json, CatalogValidationError}
use dd2_server.Catalog.Collectibles.{Numbers}
use dd2_server.Wayfinder.Tables.{SpecRow, Binding, Catalogs, Db}
use dd2_server.Wayfinder.Specs.{
  SpecObject, hit, upserted, stored_if, deleted, find_spec, is_referenced,
}
use dd2_server.Wayfinder.Specs.{listing_threshold_from_spec}
use dd2_server.Wayfinder.Hats.{
  OfficialRecordVerifier, OnMapRow, insert_unlock, write_unlock, unlock_row, report_unlock, put_on,
  equip, unequip, report_equip,
}
use dd2_server.Wayfinder.Consistency.{IsConsistent, ok_db}
use dd2_server.Wayfinder.Hats.Equipped.{IsDressed}

module _ {V : Type 0} where
  -- Specs, bindings and the rows of the maps are as before.
  pub record IsWearing (db after : Db V) : Type 0 where
    pub specs : after.specs ≡ db.specs
    pub bindings : after.bindings ≡ db.bindings
    pub on_map : after.on_map ≡ db.on_map

  -- Bindings, the rows of the maps, worn hats and unlocks are as before.
  pub record IsStoring (db after : Db V) : Type 0 where
    pub on_map : after.on_map ≡ db.on_map
    pub equipped : after.equipped ≡ db.equipped
    pub unlocks : after.unlocks ≡ db.unlocks

  IsWearing-same : (db : Db V) → IsWearing db db
  IsWearing-same db = record { specs = refl; bindings = refl; on_map = refl }

  if-IsWearing :
      {A : Type 0} (db : Db V) (b : Bool) (p q : A × Db V)
      → IsWearing db p.1
      → IsWearing db q.1
      → IsWearing db (if b then p else q).1
  if-IsWearing db true p q hp hq = hp
  if-IsWearing db false p q hp hq = hq

  insert_unlock-IsWearing :
      (user_id : ℕ) (key map_uid slug : String) (o : Option (String × String)) (db : Db V)
      → IsWearing db (insert_unlock user_id key map_uid slug o db)
  insert_unlock-IsWearing user_id key map_uid slug none db = record {
    specs = refl;
    bindings = refl;
    on_map = refl;
  }
  insert_unlock-IsWearing user_id key map_uid slug (some old) db = IsWearing-same db

  write_unlock-IsWearing :
      (user_id : ℕ) (map_uid slug : String) (row : OnMapRow) (o : Option OnMapRow) (db : Db V)
      → IsWearing db (write_unlock user_id map_uid slug row o db).1
  write_unlock-IsWearing user_id map_uid slug row none db = IsWearing-same db
  write_unlock-IsWearing user_id map_uid slug row (some locked_row) db =
      search (if-IsWearing, IsWearing-same, insert_unlock-IsWearing)

  put_on-IsWearing :
      (user_id : ℕ) (map_uid slug : String) (db : Db V)
      → IsWearing db (put_on user_id map_uid slug db).1
  put_on-IsWearing user_id map_uid slug db =
      if-IsWearing db (HashMap.get (map_uid, user_id) db.equipped == some slug) _ _
        (IsWearing-same db) (record { specs = refl; bindings = refl; on_map = refl })

  unequip-IsWearing :
      (user_id : ℕ) (map_uid : String) (o : Option String) (db : Db V)
      → IsWearing db (unequip user_id map_uid o db).1
  unequip-IsWearing user_id map_uid none db = IsWearing-same db
  unequip-IsWearing user_id map_uid (some worn) db = record {
    specs = refl;
    bindings = refl;
    on_map = refl;
  }

  pub hit-IsStoring : (o : Option (ℕ × SpecRow V)) (db : Db V) → IsStoring db (hit o db).1
  hit-IsStoring none db = record { on_map = refl; equipped = refl; unlocks = refl }
  hit-IsStoring (some (id, spec)) db = record { on_map = refl; equipped = refl; unlocks = refl }

  upserted-IsStoring :
      (o : Option (ℕ × SpecRow V)) (user_id : ℕ) (name_id : String) (spec : V) (threshold now : ℕ)
      (db : Db V)
      → IsStoring db (upserted o user_id name_id spec threshold now db).1
  upserted-IsStoring none user_id name_id spec threshold now db = record {
    on_map = refl;
    equipped = refl;
    unlocks = refl;
  }
  upserted-IsStoring (some (id, old)) user_id name_id spec threshold now db = record {
    on_map = refl;
    equipped = refl;
    unlocks = refl;
  }

  pub deleted-IsStoring :
      (o : Option (ℕ × SpecRow V)) (db after : Db V) → deleted o db ≡ ok after → IsStoring db after
  deleted-IsStoring none db after e =
      rw (ok_db after db e) (record { on_map = refl; equipped = refl; unlocks = refl })
  deleted-IsStoring (some (id, spec)) db after e =
      elim (Bool-cases (is_referenced id db.bindings)) [
        | inl used ↦ absurd (cc (rw used at e))
        | inr free ↦
            rw (ok_db after _ (rw free at e))
              (record { on_map = refl; equipped = refl; unlocks = refl })
      ]

  pub IsStoring-IsDressed :
      (hat_key : String → String → String) (db after : Db V)
      → IsStoring db after
      → IsDressed hat_key db.equipped db.on_map db.unlocks
      → IsDressed hat_key after.equipped after.on_map after.unlocks
  IsStoring-IsDressed hat_key db after s d = rw (s.equipped, s.on_map, s.unlocks) d

module _ {V : Type 0} (json : Json V) (numbers : Numbers V) (hash : V → String) where
  pub stored_if-IsStoring :
      (object : SpecObject V) (user_id : ℕ) (name_id : String) (spec : V) (now : ℕ) (db : Db V)
      (r : Result CatalogValidationError Catalogs)
      → IsStoring db (stored_if json numbers object user_id name_id spec now db r).1
  stored_if-IsStoring object user_id name_id spec now db (err error) = record {
    on_map = refl;
    equipped = refl;
    unlocks = refl;
  }
  stored_if-IsStoring object user_id name_id spec now db (ok catalogs) =
      let s =
        upserted-IsStoring (find_spec user_id name_id db.specs) user_id name_id spec
          (listing_threshold_from_spec json numbers object spec) now db in
      record { on_map = s.on_map; equipped = s.equipped; unlocks = s.unlocks }

  pub IsWearing-IsConsistent :
      (db after : Db V)
      → IsWearing db after
      → IsConsistent json numbers hash db
      → IsConsistent json numbers hash after
  IsWearing-IsConsistent db after w v = record {
    has_spec = rw (w.bindings, w.specs) v.has_spec;
    has_rows = rw (w.bindings, w.on_map) v.has_rows;
  }

  module _ (hat_key : String → String → String) where
    equip-IsWearing :
        (user_id : ℕ) (map_uid slug : String) (o : Option Binding) (db : Db V)
        → IsWearing db (equip json numbers hash hat_key user_id map_uid slug o db).1
    equip-IsWearing user_id map_uid slug none db = IsWearing-same db
    equip-IsWearing user_id map_uid slug (some binding) db =
        search (if-IsWearing, IsWearing-same, put_on-IsWearing)

    pub report_equip-IsWearing :
        (user_id : ℕ) (map_uid slug : String) (db : Db V)
        → IsWearing db (report_equip json numbers hash hat_key user_id map_uid slug db).1
    unfolding report_equip
    report_equip-IsWearing user_id map_uid slug db =
        search (if-IsWearing, unequip-IsWearing, equip-IsWearing)

    unlock_row-IsWearing :
        (v : OfficialRecordVerifier) (user_id : ℕ) (map_uid slug : String) (spec_id : ℕ)
        (before db : Db V) (o : Option OnMapRow)
        → IsWearing db
            (unlock_row json numbers hash hat_key v user_id map_uid slug spec_id before db o).1
    unlock_row-IsWearing v user_id map_uid slug spec_id before db none = IsWearing-same db
    unlock_row-IsWearing v user_id map_uid slug spec_id before db (some row) =
        search (if-IsWearing, IsWearing-same, write_unlock-IsWearing) depth 20

    pub report_unlock-IsWearing :
        (v : OfficialRecordVerifier) (user_id : ℕ) (map_uid slug : String) (spec_id : ℕ)
        (before db : Db V)
        → IsWearing db
            (report_unlock json numbers hash hat_key v user_id map_uid slug spec_id before db).1
    unfolding report_unlock
    report_unlock-IsWearing v user_id map_uid slug spec_id before db =
        unlock_row-IsWearing v user_id map_uid slug spec_id before db _
