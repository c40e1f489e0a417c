-- ===== src/Wayfinder/Hats/Unlocks.antt =====
-- When src/queries/hats.rs unlocks a hat.
use dd2_server.Prelude.{
  ℕ, ◌≡◌, ◌≢◌, ◌⊎◌, refl, ap, Bool, true, false, not, ◌&&◌, Option, none, some, List, [], ◌∷◌,
  String, beq_refl, nat_eq, string_eq, option_eq, pair_eq, Result, ok, err, if◌then◌else◌, all, All,
  Bool-cases, Option-cases, inl, inr,
}
use dd2_server.Prelude.HashMap
use dd2_server.Prelude.HashMap.{get-insert}
use dd2_server.Catalog.{Json}
use dd2_server.Catalog.Collectibles.{Numbers}
use dd2_server.Wayfinder.Bindings.Results.{and_true}
use dd2_server.Wayfinder.Tables.{Db, is_some}
use dd2_server.Wayfinder.Hats.{
  OfficialRecordVerifier, OnMapRow, same_row, is_valid, has_no_uid, validate_hat_unlock,
  materialized_row, lock_materialized_row, already_unlocked, insert_unlock, write_unlock,
  unlock_row, report_unlock,
}

-- What Nadeo must have said: there is something to prove, and all of it is proved.
pub record IsProved (v : OfficialRecordVerifier) (user_id : ℕ) (map_uid : String) (row : OnMapRow)
    : Type 0 where
  pub asks : (row.finish_this_map ≡ true) ⊎ (row.record_uids ≢ [])
  pub finished : row.finish_this_map ≡ true → v.has_recent_official_record user_id map_uid ≡ ok true
  pub recorded : All (λ uid. v.has_official_record user_id uid ≡ ok true) row.record_uids

is_valid-ok : (r : Result String Bool) → is_valid r ≡ true → r ≡ ok true
is_valid-ok (ok valid) h = ap ok h
is_valid-ok (err error) h = absurd (cc)

has_no_uid-nil : (uids : List String) → has_no_uid uids ≡ false → uids ≢ []
has_no_uid-nil [] h e = absurd (cc)
has_no_uid-nil (uid ∷ uids) h e = absurd (cc)

all-recorded :
    (v : OfficialRecordVerifier) (user_id : ℕ) (uids : List String)
    → all (λ uid. is_valid (v.has_official_record user_id uid)) uids ≡ true
    → All (λ uid. v.has_official_record user_id uid ≡ ok true) uids
all-recorded v user_id [] h = tt
all-recorded v user_id (uid ∷ uids) h =
    let (first, later) = and_true (is_valid (v.has_official_record user_id uid)) _ h in
    (is_valid-ok (v.has_official_record user_id uid) first, all-recorded v user_id uids later)

-- The tests of the validation: `recorded` is the last of them.
passed :
    (finish no_uid recent recorded : Bool)
    → (if not finish && no_uid then false else if finish && not recent then false else recorded)
      ≡ true
    → ((finish ≡ true) ⊎ (no_uid ≡ false)) × (finish ≡ true → recent ≡ true) × (recorded ≡ true)
passed true no_uid true recorded h = (inl refl, (λ f. refl), h)
passed true no_uid false recorded h = absurd (cc)
passed false true recent recorded h = absurd (cc)
passed false false recent recorded h = (inr refl, (λ f. absurd (cc)), h)

validate_hat_unlock-IsProved :
    (v : OfficialRecordVerifier) (user_id : ℕ) (map_uid : String) (row : OnMapRow)
    → validate_hat_unlock v user_id map_uid row ≡ true
    → IsProved v user_id map_uid row
unfolding validate_hat_unlock
validate_hat_unlock-IsProved v user_id map_uid row h =
    let recent = v.has_recent_official_record user_id map_uid in
    let (asks, finished, recorded) =
      passed row.finish_this_map (has_no_uid row.record_uids) (is_valid recent) _ h in
    record {
      asks = elim asks [
        | inl finish ↦ inl finish
        | inr uids ↦ inr (has_no_uid-nil row.record_uids uids)
      ];
      finished = λ finish. is_valid-ok recent (finished finish);
      recorded = all-recorded v user_id row.record_uids recorded;
    }

some_tail : {A : Type 0} (a : A) (o : Option A) → o ≡ some a → is_some o ≡ true
some_tail a o h = rw h refl

module _ {V : Type 0} where
  insert_unlock-has :
      (user_id : ℕ) (key map_uid slug : String) (db : Db V)
      → already_unlocked user_id key
          (insert_unlock user_id key map_uid slug (HashMap.get (user_id, key) db.unlocks) db)
        ≡ true
  unfolding already_unlocked
  insert_unlock-has user_id key map_uid slug db =
      elim (Option-cases (HashMap.get (user_id, key) db.unlocks)) [
        | inl new ↦ rw new (
            rw
              (
                get-insert (user_id, key) (map_uid, slug) db.unlocks (user_id, key),
                beq_refl {A = ℕ × String} (user_id, key),
              )
              refl)
        | inr (old, has) ↦ rw has (some_tail old (HashMap.get (user_id, key) db.unlocks) has)
      ]

module _ {V : Type 0} (json : Json V) (numbers : Numbers V) (hash : V → String)
    (hat_key : String → String → String) (v : OfficialRecordVerifier) (user_id : ℕ)
    (map_uid slug : String) (spec_id : ℕ) where
  -- The hat was on the map, bound and verified. Either the player had unlocked it, or Nadeo proved
  -- all that it asks, it has not changed meanwhile, and the player has unlocked it now.
  pub record IsEarned (before db after : Db V) : Type 0 where
    pub row : OnMapRow
    pub was : materialized_row json numbers hash hat_key map_uid spec_id slug before ≡ some row
    pub why :
        ((already_unlocked user_id row.hat_key before ≡ true) × (after ≡ db))
        ⊎ (IsProved v user_id map_uid row
            × ((locked_row : OnMapRow) × (lock_materialized_row json numbers hash hat_key map_uid
                    spec_id slug db
                  ≡ some locked_row)
                × (same_row locked_row row ≡ true)
                × (already_unlocked user_id locked_row.hat_key after ≡ true)))

  write_unlock-cases :
      (row : OnMapRow) (o : Option OnMapRow) (db : Db V)
      → ((write_unlock user_id map_uid slug row o db).0 ≡ false)
          × ((write_unlock user_id map_uid slug row o db).1 ≡ db)
        ⊎ ((write_unlock user_id map_uid slug row o db).0 ≡ true)
          × ((locked_row : OnMapRow) × (o ≡ some locked_row)
              × (same_row locked_row row ≡ true)
              × (already_unlocked user_id locked_row.hat_key
                    (write_unlock user_id map_uid slug row o db).1
                  ≡ true))
  write_unlock-cases row none db = inl (refl, refl)
  write_unlock-cases row (some locked_row) db = elim (Bool-cases (same_row locked_row row)) [
    | inl same ↦ rw same (
        inr (
          refl,
          (locked_row, refl, same, insert_unlock-has user_id locked_row.hat_key map_uid slug db),
        ))
    | inr changed ↦ rw changed (inl (refl, refl))
  ]

  -- The two ways that the report of an unlock ends.
  pub Outcome : Db V → Db V → Bool × Db V → Type 0
  Outcome before db result =
      ((result.0 ≡ false) × (result.1 ≡ db)) ⊎ ((result.0 ≡ true) × IsEarned before db result.1)

  written :
      (row : OnMapRow) (before db : Db V)
      → materialized_row json numbers hash hat_key map_uid spec_id slug before ≡ some row
      → validate_hat_unlock v user_id map_uid row ≡ true
      → Outcome before db (
          write_unlock user_id map_uid slug row
            (lock_materialized_row json numbers hash hat_key map_uid spec_id slug db)
            db)
  unfolding Outcome
  written row before db was valid =
      elim (write_unlock-cases row
        (lock_materialized_row json numbers hash hat_key map_uid spec_id slug db) db) [
          | inl refused ↦ inl refused
          | inr (answered, found) ↦ inr (
            answered,
            record {
              row = row;
              was = was;
              why = inr (validate_hat_unlock-IsProved v user_id map_uid row valid, found);
            },
          )
        ]

  unlock_row-Outcome :
      (o : Option OnMapRow) (before db : Db V)
      → materialized_row json numbers hash hat_key map_uid spec_id slug before ≡ o
      → Outcome before db
          (unlock_row json numbers hash hat_key v user_id map_uid slug spec_id before db o)
  unfolding Outcome
  unlock_row-Outcome none before db was = inl (refl, refl)
  unlock_row-Outcome (some row) before db was =
      elim (Bool-cases (already_unlocked user_id row.hat_key before)) [
        | inl had ↦ rw had (inr (refl, record { row = row; was = was; why = inl (had, refl) }))
        | inr new ↦ elim (Bool-cases (v.allow_unlock_validation user_id map_uid slug)) [
          | inr throttled ↦ rw (new, throttled) (inl (refl, refl))
          | inl allowed ↦ elim (Bool-cases (validate_hat_unlock v user_id map_uid row)) [
            | inr invalid ↦ rw (new, allowed, invalid) (inl (refl, refl))
            | inl valid ↦ rw (new, allowed, valid) (written row before db was valid)
          ]
        ]
      ]

  -- A report of an unlock either is refused and changes nothing; or it succeeds, and then the hat
  -- was on the map by a binding in force, and the player had unlocked it before or Nadeo proved all
  -- that it asks and the same hat is still in force when the unlock is written. A hat that asks for
  -- nothing is never unlocked anew.
  pub report_unlock-Outcome :
      (before db : Db V)
      → Outcome before db
          (report_unlock json numbers hash hat_key v user_id map_uid slug spec_id before db)
  unfolding report_unlock
  report_unlock-Outcome before db =
      unlock_row-Outcome (materialized_row json numbers hash hat_key map_uid spec_id slug before)
        before db refl
