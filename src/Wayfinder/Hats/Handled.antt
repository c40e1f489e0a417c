-- ===== src/Wayfinder/Hats/Handled.antt =====
-- The change and the unlock of a hat of src/queries/hats.rs keep what players wear.
use dd2_server.Prelude.{
  ℕ, ◌≡◌, refl, true, Option, none, some, String, ◌==◌, nat_eq, string_eq, option_eq, pair_eq,
  Bool-cases, inl, inr,
}
use dd2_server.Prelude.HashMap
use dd2_server.Prelude.HashMap.{
  HashMap, IsUnique, get-insert, get-remove, insert-IsUnique, remove-IsUnique,
}
use dd2_server.Prelude.Text.{is_empty}
use dd2_server.Catalog.{Json}
use dd2_server.Catalog.Collectibles.{Numbers}
use dd2_server.Wayfinder.Tables.{Binding, Db}
use dd2_server.Wayfinder.Hats.{
  OfficialRecordVerifier, OnMapRow, same_row, validate_hat_unlock, already_unlocked, write_unlock,
  has_unlocked, put_on, unequip, lock_materialized_spec, lock_materialized_row, unlock_row,
  report_unlock, equip, report_equip,
}
use dd2_server.Wayfinder.Hats.Equipped.{
  IsDressed, insert_unlock-IsDressed, has_unlocked-IsWearable, insert-IsDressed, remove-IsDressed,
}

module _ {V : Type 0} (json : Json V) (numbers : Numbers V) (hash : V → String)
    (hat_key : String → String → String) where
  abbrev Dressed : Db V → Type 0
  Dressed db = IsDressed hat_key db.equipped db.on_map db.unlocks

  put_on-IsDressed :
      (user_id : ℕ) (map_uid slug : String) (db : Db V)
      → has_unlocked hat_key user_id map_uid slug db ≡ true
      → Dressed db
      → Dressed (put_on user_id map_uid slug db).1
  put_on-IsDressed user_id map_uid slug db unlocked d =
      elim (Bool-cases (HashMap.get (map_uid, user_id) db.equipped == some slug)) [
        | inl same ↦ rw same d
        | inr new ↦ rw new (
            insert-IsDressed hat_key db.equipped db.on_map db.unlocks d map_uid user_id slug
              (has_unlocked-IsWearable hat_key user_id map_uid slug db unlocked))
      ]

  equip-IsDressed :
      (user_id : ℕ) (map_uid slug : String) (o : Option Binding) (db : Db V)
      → Dressed db
      → Dressed (equip json numbers hash hat_key user_id map_uid slug o db).1
  equip-IsDressed user_id map_uid slug none db d = d
  equip-IsDressed user_id map_uid slug (some binding) db d =
      elim (Bool-cases (lock_materialized_spec json numbers hash map_uid binding.spec_id db)) [
        | inr stale ↦ rw stale d
        | inl locked ↦ elim (Bool-cases (has_unlocked hat_key user_id map_uid slug db)) [
          | inr missing ↦ rw (locked, missing) d
          | inl unlocked ↦
              rw (locked, unlocked) (put_on-IsDressed user_id map_uid slug db unlocked d)
        ]
      ]

  unequip-IsDressed :
      (user_id : ℕ) (map_uid : String) (o : Option String) (db : Db V)
      → Dressed db
      → Dressed (unequip user_id map_uid o db).1
  unequip-IsDressed user_id map_uid none db d = d
  unequip-IsDressed user_id map_uid (some worn) db d =
      remove-IsDressed hat_key db.equipped db.on_map db.unlocks d map_uid user_id

  pub report_equip-IsDressed :
      (user_id : ℕ) (map_uid slug : String) (db : Db V)
      → Dressed db
      → Dressed (report_equip json numbers hash hat_key user_id map_uid slug db).1
  unfolding report_equip
  report_equip-IsDressed user_id map_uid slug db d = elim (Bool-cases (is_empty slug)) [
    | inl blank ↦ rw blank (unequip-IsDressed user_id map_uid _ db d)
    | inr named ↦ rw named (equip-IsDressed user_id map_uid slug _ db d)
  ]

  write_unlock-IsDressed :
      (user_id : ℕ) (map_uid slug : String) (row : OnMapRow) (o : Option OnMapRow) (db : Db V)
      → Dressed db
      → Dressed (write_unlock user_id map_uid slug row o db).1
  write_unlock-IsDressed user_id map_uid slug row none db d = d
  write_unlock-IsDressed user_id map_uid slug row (some locked_row) db d =
      elim (Bool-cases (same_row locked_row row)) [
        | inr changed ↦ rw changed d
        | inl same ↦
            rw same
              (insert_unlock-IsDressed hat_key user_id locked_row.hat_key map_uid slug db d _ refl)
      ]

  unlock_row-IsDressed :
      (v : OfficialRecordVerifier) (user_id : ℕ) (map_uid slug : String) (spec_id : ℕ)
      (before db : Db V) (o : Option OnMapRow)
      → Dressed db
      → Dressed (unlock_row json numbers hash hat_key v user_id map_uid slug spec_id before db o).1
  unlock_row-IsDressed v user_id map_uid slug spec_id before db none d = d
  unlock_row-IsDressed v user_id map_uid slug spec_id before db (some row) d =
      elim (Bool-cases (already_unlocked user_id row.hat_key before)) [
        | inl had ↦ rw had d
        | inr new ↦ elim (Bool-cases (v.allow_unlock_validation user_id map_uid slug)) [
          | inr throttled ↦ rw (new, throttled) d
          | inl allowed ↦ elim (Bool-cases (validate_hat_unlock v user_id map_uid row)) [
            | inr invalid ↦ rw (new, allowed, invalid) d
            | inl valid ↦
                rw (new, allowed, valid)
                  (write_unlock-IsDressed user_id map_uid slug row
                    (lock_materialized_row json numbers hash hat_key map_uid spec_id slug db) db d)
          ]
        ]
      ]

  pub report_unlock-IsDressed :
      (v : OfficialRecordVerifier) (user_id : ℕ) (map_uid slug : String) (spec_id : ℕ)
      (before db : Db V)
      → Dressed db
      → Dressed (report_unlock json numbers hash hat_key v user_id map_uid slug spec_id before db).1
  unfolding report_unlock
  report_unlock-IsDressed v user_id map_uid slug spec_id before db d =
      unlock_row-IsDressed v user_id map_uid slug spec_id before db _ d
