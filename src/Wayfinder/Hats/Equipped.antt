-- ===== src/Wayfinder/Hats/Equipped.antt =====
-- What players wear on a map of src/queries/hats.rs: hats of the map that they have unlocked.
use dd2_server.Prelude.{
  ℕ, ◌≡◌, refl, sym, ap, ◌∙◌, true, Option, none, some, List, [], ◌∷◌, String, ◌==◌, nat_eq,
  string_eq, option_eq, pair_eq, Bool-cases, inl, inr, arith,
}
use dd2_server.Prelude.HashMap
use dd2_server.Prelude.HashMap.{
  HashMap, IsUnique, get-insert, get-remove, insert-IsUnique, remove-IsUnique,
}
use dd2_server.Catalog.{Json}
use dd2_server.Catalog.Collectibles.{Numbers}
use dd2_server.Catalog.Hats.{CatalogHat}
use dd2_server.Wayfinder.Tables.{SpecRow, Catalogs, Db, is_some, has_slug}
use dd2_server.Wayfinder.Bindings.Results.{and_true, some_row}
use dd2_server.Wayfinder.Bindings.Materialized.{IsBound}
use dd2_server.Wayfinder.Hats.{find_hat, hats_in, insert_unlock, has_unlocked}

abbrev Worn : Type 0
Worn = HashMap (String × ℕ) String

abbrev OnMap : Type 0
OnMap = HashMap String Catalogs

abbrev Unlocks : Type 0
Unlocks = HashMap (ℕ × String) (String × String)

module _ (hat_key : String → String → String) where
  -- The hat is one of the map's, and the player has unlocked it there.
  pub record IsWearable (map_uid : String) (user_id : ℕ) (slug : String) (on_map : OnMap)
      (unlocks : Unlocks) : Type 0 where
    pub catalogs : Catalogs
    pub rows : HashMap.get map_uid on_map ≡ some catalogs
    pub listed : has_slug slug catalogs.hats ≡ true
    pub unlocked : HashMap.get (user_id, hat_key map_uid slug) unlocks ≡ some (map_uid, slug)

  pub record IsDressed (equipped : Worn) (on_map : OnMap) (unlocks : Unlocks) : Type 0 where
    pub unique : IsUnique equipped
    pub worn :
        (map_uid : String) (user_id : ℕ) (slug : String)
        → HashMap.get (map_uid, user_id) equipped ≡ some slug
        → IsWearable map_uid user_id slug on_map unlocks

  unlocked_still :
      (user_id : ℕ) (key map_uid slug : String) (unlocks : Unlocks) (k : ℕ × String)
      (value : String × String)
      → HashMap.get (user_id, key) unlocks ≡ none
      → HashMap.get k unlocks ≡ some value
      → HashMap.get k (HashMap.insert (user_id, key) (map_uid, slug) unlocks) ≡ some value
  unlocked_still user_id key map_uid slug unlocks k value new has =
      let at : ℕ × String = (user_id, key) in
      elim (Bool-cases (at == k)) [
        | inl same ↦
            let had : HashMap.get at unlocks ≡ some value =
              ap (λ j. HashMap.get j unlocks) ((pair_eq.beq_iff at k).0 same) ∙ has in
            absurd (cc)
        | inr other ↦ rw (get-insert at (map_uid, slug) unlocks k, other) has
      ]

  pub insert_unlock-IsDressed :
      {V : Type 0} (user_id : ℕ) (key map_uid slug : String) (db : Db V)
      → IsDressed db.equipped db.on_map db.unlocks
      → (o : Option (String × String)) → HashMap.get (user_id, key) db.unlocks ≡ o
      → (let after = insert_unlock user_id key map_uid slug o db in
          IsDressed after.equipped after.on_map after.unlocks)
  insert_unlock-IsDressed user_id key map_uid slug db d (some old) has = d
  insert_unlock-IsDressed user_id key map_uid slug db d none new = record {
    unique = d.unique;
    worn = λ m u s h.
        let w = d.worn m u s h in
        record {
          catalogs = w.catalogs;
          rows = w.rows;
          listed = w.listed;
          unlocked = unlocked_still user_id key map_uid slug db.unlocks _ _ new w.unlocked;
        };
  }

  find_hat-has_slug :
      (slug : String) (hats : List CatalogHat)
      → is_some (find_hat slug hats) ≡ true
      → has_slug slug hats ≡ true
  unfolding find_hat
  find_hat-has_slug slug [] h = absurd (cc)
  find_hat-has_slug slug (hat ∷ hats) h = ground (arith, find_hat-has_slug slug hats)

  -- A map without rows has no hat to find.
  some_rows :
      (slug : String) (o : Option Catalogs)
      → is_some (find_hat slug (hats_in o)) ≡ true
      → (catalogs : Catalogs) × (o ≡ some catalogs) × (has_slug slug catalogs.hats ≡ true)
  unfolding find_hat
  some_rows slug none h = absurd (cc)
  some_rows slug (some catalogs) h = (catalogs, refl, find_hat-has_slug slug catalogs.hats h)

  pub has_unlocked-IsWearable :
      {V : Type 0} (user_id : ℕ) (map_uid slug : String) (db : Db V)
      → has_unlocked hat_key user_id map_uid slug db ≡ true
      → IsWearable map_uid user_id slug db.on_map db.unlocks
  unfolding has_unlocked
  has_unlocked-IsWearable user_id map_uid slug db h =
      let unlocked = HashMap.get (user_id, hat_key map_uid slug) db.unlocks in
      let asked : Option (String × String) = some (map_uid, slug) in
      let (has, listed) = and_true (unlocked == asked) _ h in
      let (catalogs, rows, in_hats) = some_rows slug (HashMap.get map_uid db.on_map) listed in
      record {
        catalogs = catalogs;
        rows = rows;
        listed = in_hats;
        unlocked = (option_eq.beq_iff unlocked asked).0 has;
      }

  module _ (equipped : Worn) (on_map : OnMap) (unlocks : Unlocks)
      (d : IsDressed equipped on_map unlocks) where
    pub insert-IsDressed :
        (map_uid : String) (user_id : ℕ) (slug : String)
        → IsWearable map_uid user_id slug on_map unlocks
        → IsDressed (HashMap.insert (map_uid, user_id) slug equipped) on_map unlocks
    insert-IsDressed map_uid user_id slug w = record {
      unique = insert-IsUnique (map_uid, user_id) slug equipped d.unique;
      worn = λ m u s h.
          let at : String × ℕ = (map_uid, user_id) in
          let k : String × ℕ = (m, u) in
          elim (Bool-cases (at == k)) [
            | inl same ↦
                let path : at ≡ k = (pair_eq.beq_iff at k).0 same in
                let one : slug ≡ s =
                  some_row slug s (rw (get-insert at slug equipped k, same) at h) in
                rw (sym (ap (λ j. j.0) path), sym (ap (λ j. j.1) path), sym one) w
            | inr other ↦ d.worn m u s (rw (get-insert at slug equipped k, other) at h)
          ];
    }

    pub remove-IsDressed :
        (map_uid : String) (user_id : ℕ)
        → IsDressed (HashMap.remove (map_uid, user_id) equipped) on_map unlocks
    remove-IsDressed map_uid user_id = record {
      unique = remove-IsUnique (map_uid, user_id) equipped d.unique;
      worn = λ m u s h.
          let at : String × ℕ = (map_uid, user_id) in
          let k : String × ℕ = (m, u) in
          elim (Bool-cases (at == k)) [
            | inl same ↦ absurd (cc (rw (get-remove at k equipped, same) at h))
            | inr other ↦ d.worn m u s (rw (get-remove at k equipped, other) at h)
          ];
    }

  module _ {V : Type 0} (json : Json V) (numbers : Numbers V) (hash : V → String) where
    pub bound-IsDressed :
        (map_uid : String) (spec_id : ℕ) (spec : SpecRow V) (start db : Db V)
        → IsBound json numbers hash map_uid spec_id spec start db
        → IsDressed start.equipped start.on_map start.unlocks
        → IsDressed db.equipped db.on_map db.unlocks
    bound-IsDressed map_uid spec_id spec start db b d = record {
      unique = b.worn.unique d.unique;
      worn = λ m u s h. elim (Bool-cases (map_uid == m)) [
        | inl same ↦
            let path = (string_eq.beq_iff map_uid m).0 same in
            let here : HashMap.get (map_uid, u) db.equipped ≡ some s =
              ap (λ j. HashMap.get (j, u) db.equipped) path ∙ h in
            let w = d.worn map_uid u s (b.worn.old d.unique u s here) in
            let wearable : IsWearable map_uid u s db.on_map db.unlocks = record {
              catalogs = b.catalogs;
              rows = b.rows;
              listed = b.worn.here d.unique u s here;
              unlocked = ap (HashMap.get (u, hat_key map_uid s)) b.unlocks ∙ w.unlocked;
            } in
            rw (sym path) wearable
        | inr other ↦
            let w = d.worn m u s (sym (b.worn.others d.unique m u other) ∙ h) in
            record {
              catalogs = w.catalogs;
              rows = b.other_rows m other ∙ w.rows;
              listed = w.listed;
              unlocked = ap (HashMap.get (u, hat_key m s)) b.unlocks ∙ w.unlocked;
            }
      ];
    }
