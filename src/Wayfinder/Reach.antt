-- ===== src/Wayfinder/Reach.antt =====
-- The transactions of src/queries/listed_maps.rs and src/queries/custom_map_aux_specs.rs that change
-- specs and bindings, in whatever order requests bring them.
use dd2_server.Prelude.{
  ℕ, ◌≡◌, Option, [], String, nat_eq, string_eq, option_eq, pair_eq, ok, inl, inr,
}
use dd2_server.Prelude.HashMap
use dd2_server.Prelude.HashMap.{HashMap, get-insert, get-remove}
use dd2_server.Catalog.{Json}
use dd2_server.Catalog.Collectibles.{Numbers}
use dd2_server.Wayfinder.Tables.{Db}
use dd2_server.Wayfinder.Specs.{
  SpecObject, find_spec, get_spec, delete_spec, delete_catalogs, upsert_spec_and_catalogs,
}
use dd2_server.Wayfinder.Bindings.{BindResult, commit_authoritative_bind, commit_comment_bind}
use dd2_server.Wayfinder.Bindings.Materialized.{commit_comment_bind-cases}
use dd2_server.Wayfinder.Bindings.Resolved.{commit_authoritative_bind-cases}
use dd2_server.Wayfinder.Hats.{OfficialRecordVerifier, report_unlock, report_equip}
use dd2_server.Wayfinder.Hats.Equipped.{IsDressed, bound-IsDressed}
use dd2_server.Wayfinder.Hats.Frames.{
  hit-IsStoring, stored_if-IsStoring, deleted-IsStoring, IsStoring-IsDressed,
  report_unlock-IsWearing, report_equip-IsWearing, IsWearing-IsConsistent,
}
use dd2_server.Wayfinder.Hats.Handled.{report_unlock-IsDressed, report_equip-IsDressed}
use dd2_server.Wayfinder.Consistency.{
  IsConsistent, hit-IsConsistent, bound-IsConsistent, deleted_ok, stored_if-IsConsistent,
}

module _ {V : Type 0} (json : Json V) (numbers : Numbers V) (hash : V → String)
    (hat_key : String → String → String) where
  -- The tables that these transactions lead to from ones without a binding or a worn hat. They may
  -- come in any order, whatever was checked before them; `answer` is what Nadeo was found to say,
  -- rightly or not, and `before` what an unlock was checked against.
  pub data Reach (object : SpecObject V) : Db V → Type 0 where
    start : {db : Db V} → db.bindings ≡ [] → db.equipped ≡ [] → Reach object db
    reads :
        {db : Db V} (user_id : ℕ) (name_id : String)
        → Reach object db
        → Reach object (get_spec user_id name_id db).1
    uploads :
        {db : Db V} (user_id : ℕ) (name_id : String) (spec : V) (now : ℕ)
        → Reach object db
        → Reach object (upsert_spec_and_catalogs json numbers object user_id name_id spec now db).1
    deletes :
        {db db' : Db V} (user_id : ℕ) (name_id : String)
        → delete_spec user_id name_id db ≡ ok db'
        → Reach object db
        → Reach object db'
    clears :
        {db : Db V} (user_id : ℕ) (name_id : String)
        → Reach object db
        → Reach object (delete_catalogs user_id name_id db)
    binds :
        {db db' : Db V} (answer : Option ℕ) (reporter : ℕ) (map_uid : String) (requested now : ℕ)
        (r : BindResult)
        → commit_authoritative_bind json numbers hash answer reporter map_uid requested now db
          ≡ ok (r, db')
        → Reach object db
        → Reach object db'
    comments :
        {db db' : Db V} (map_uid : String) (spec_id now : ℕ) (r : BindResult)
        → commit_comment_bind json numbers hash map_uid spec_id now db ≡ ok (r, db')
        → Reach object db
        → Reach object db'
    unlocks :
        {db : Db V} (v : OfficialRecordVerifier) (user_id : ℕ) (map_uid slug : String) (spec_id : ℕ)
        (before : Db V)
        → Reach object db
        → Reach object
            (report_unlock json numbers hash hat_key v user_id map_uid slug spec_id before db).1
    equips :
        {db : Db V} (user_id : ℕ) (map_uid slug : String)
        → Reach object db
        → Reach object (report_equip json numbers hash hat_key user_id map_uid slug db).1

  pub Reach-IsConsistent :
      {object : SpecObject V} {db : Db V} → Reach object db → IsConsistent json numbers hash db
  unfolding HashMap.get get_spec upsert_spec_and_catalogs delete_spec delete_catalogs
  Reach-IsConsistent (start none_yet unworn) = record {
    has_spec = λ map_uid binding bound. absurd (cc (rw none_yet at bound));
    has_rows = λ map_uid binding bound h stamp. absurd (cc (rw none_yet at bound));
  }
  Reach-IsConsistent (reads {db} user_id name_id reach) =
      hit-IsConsistent json numbers hash db (Reach-IsConsistent reach)
        (find_spec user_id name_id db.specs)
  Reach-IsConsistent {object} (uploads {db} user_id name_id spec now reach) =
      stored_if-IsConsistent json numbers hash object user_id name_id _ now db _
        (Reach-IsConsistent reach)
  Reach-IsConsistent (deletes {db} {db'} user_id name_id e reach) =
      deleted_ok json numbers hash (find_spec user_id name_id db.specs) db db' e
        (Reach-IsConsistent reach)
  Reach-IsConsistent (clears user_id name_id reach) =
      let v = Reach-IsConsistent reach in record { has_spec = v.has_spec; has_rows = v.has_rows }
  Reach-IsConsistent (binds {db} {db'} answer reporter map_uid requested now r e reach) =
      let (spec, allowed, cases) =
        commit_authoritative_bind-cases json numbers hash answer reporter map_uid requested now db
          db' r e in
      elim cases [
        | inl (same, still) ↦ rw same (Reach-IsConsistent reach)
        | inr b ↦
            bound-IsConsistent json numbers hash db (Reach-IsConsistent reach) map_uid requested
              spec db' b
      ]
  Reach-IsConsistent (comments {db} {db'} map_uid spec_id now r e reach) =
      elim (commit_comment_bind-cases json numbers hash map_uid spec_id now db db' r e) [
        | inl (same, still) ↦ rw same (Reach-IsConsistent reach)
        | inr (spec, b) ↦
            bound-IsConsistent json numbers hash db (Reach-IsConsistent reach) map_uid spec_id spec
              db' b
      ]
  Reach-IsConsistent (unlocks {db} v user_id map_uid slug spec_id before reach) =
      IsWearing-IsConsistent json numbers hash db _
        (report_unlock-IsWearing json numbers hash hat_key v user_id map_uid slug spec_id before db)
        (Reach-IsConsistent reach)
  Reach-IsConsistent (equips {db} user_id map_uid slug reach) =
      IsWearing-IsConsistent json numbers hash db _
        (report_equip-IsWearing json numbers hash hat_key user_id map_uid slug db)
        (Reach-IsConsistent reach)

  pub Reach-IsDressed :
      {object : SpecObject V} {db : Db V}
      → Reach object db
      → IsDressed hat_key db.equipped db.on_map db.unlocks
  unfolding HashMap.get get_spec upsert_spec_and_catalogs delete_spec delete_catalogs
  Reach-IsDressed (start {db} none_yet unworn) =
      rw unworn (record { unique = tt; worn = λ map_uid user_id slug h. absurd (cc) })
  Reach-IsDressed (reads {db} user_id name_id reach) =
      IsStoring-IsDressed hat_key db _ (hit-IsStoring (find_spec user_id name_id db.specs) db)
        (Reach-IsDressed reach)
  Reach-IsDressed {object} (uploads {db} user_id name_id spec now reach) =
      IsStoring-IsDressed hat_key db _
        (stored_if-IsStoring json numbers hash object user_id name_id _ now db _)
        (Reach-IsDressed reach)
  Reach-IsDressed (deletes {db} {db'} user_id name_id e reach) =
      IsStoring-IsDressed hat_key db db'
        (deleted-IsStoring (find_spec user_id name_id db.specs) db db' e) (Reach-IsDressed reach)
  Reach-IsDressed (clears user_id name_id reach) = Reach-IsDressed reach
  Reach-IsDressed (binds {db} {db'} answer reporter map_uid requested now r e reach) =
      let (spec, allowed, cases) =
        commit_authoritative_bind-cases json numbers hash answer reporter map_uid requested now db
          db' r e in
      elim cases [
        | inl (same, still) ↦ rw same (Reach-IsDressed reach)
        | inr b ↦
            bound-IsDressed hat_key json numbers hash map_uid requested spec db db' b
              (Reach-IsDressed reach)
      ]
  Reach-IsDressed (comments {db} {db'} map_uid spec_id now r e reach) =
      elim (commit_comment_bind-cases json numbers hash map_uid spec_id now db db' r e) [
        | inl (same, still) ↦ rw same (Reach-IsDressed reach)
        | inr (spec, b) ↦
            bound-IsDressed hat_key json numbers hash map_uid spec_id spec db db' b
              (Reach-IsDressed reach)
      ]
  Reach-IsDressed (unlocks {db} v user_id map_uid slug spec_id before reach) =
      report_unlock-IsDressed json numbers hash hat_key v user_id map_uid slug spec_id before db
        (Reach-IsDressed reach)
  Reach-IsDressed (equips {db} user_id map_uid slug reach) =
      report_equip-IsDressed json numbers hash hat_key user_id map_uid slug db
        (Reach-IsDressed reach)
