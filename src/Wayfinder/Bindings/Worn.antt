-- ===== src/Wayfinder/Bindings/Worn.antt =====
-- What the binds of src/queries/listed_maps.rs leave of the hats that players wear.
use dd2_server.Prelude.{
  ℕ, ◌≡◌, refl, Bool, true, false, not, Option, none, some, List, String, ◌==◌, beq_refl, nat_eq,
  string_eq, pair_eq, ◌∙◌, arith, sym, ap, if◌then◌else◌,
}
use dd2_server.Prelude.HashMap
use dd2_server.Prelude.HashMap.{HashMap, IsUnique, get-retain, retain-IsUnique, retain_value}
use dd2_server.Catalog.Hats.{CatalogHat}
use dd2_server.Wayfinder.Tables.{has_slug, keep_worn}

-- Nobody wears anything on the map but one of these hats, and on the others all is as before.
pub record IsWorn (map_uid : String) (hats : List CatalogHat)
    (before after : HashMap (String × ℕ) String) : Type 0 where
  pub unique : IsUnique before → IsUnique after
  pub here :
      IsUnique before
      → (user_id : ℕ) (slug : String) → HashMap.get (map_uid, user_id) after ≡ some slug
      → has_slug slug hats ≡ true
  pub old :
      IsUnique before
      → (user_id : ℕ) (slug : String) → HashMap.get (map_uid, user_id) after ≡ some slug
      → HashMap.get (map_uid, user_id) before ≡ some slug
  pub others :
      IsUnique before
      → (j : String) (user_id : ℕ) → (map_uid == j) ≡ false
      → HashMap.get (j, user_id) after ≡ HashMap.get (j, user_id) before

retain_value-some :
    (p : String → Bool) (o : Option String) (slug : String)
    → retain_value p o ≡ some slug
    → o ≡ some slug
retain_value-some p none slug h = absurd (cc)
retain_value-some p (some worn) slug h = ground arith

kept_slug :
    (has : Bool) (worn slug : String)
    → (if not (not has) then some worn else none) ≡ some slug
    → (worn ≡ slug) × (has ≡ true)
kept_slug true worn slug h = (cc, refl)
kept_slug false worn slug h = absurd (cc)

module _ (map_uid : String) where
  other_way : (j : String) → (map_uid == j) ≡ false → (j == map_uid) ≡ false
  other_way j h = ground (arith, string_eq.beq_iff map_uid j, string_eq.beq_iff j map_uid)

  retain_value-other :
      (hats : List CatalogHat) (j : String) (user_id : ℕ) (o : Option String)
      → (j == map_uid) ≡ false
      → retain_value (keep_worn map_uid hats (j, user_id)) o ≡ o
  retain_value-other hats j user_id none h = refl
  retain_value-other hats j user_id (some slug) h = rw h refl

  retain_value-here :
      (hats : List CatalogHat) (user_id : ℕ) (slug : String) (o : Option String)
      → retain_value (keep_worn map_uid hats (map_uid, user_id)) o ≡ some slug
      → has_slug slug hats ≡ true
  retain_value-here hats user_id slug none h = absurd (cc)
  retain_value-here hats user_id slug (some worn) h =
      let (same, has) = kept_slug (has_slug worn hats) worn slug (rw (beq_refl map_uid) at h) in
      ap (λ s. has_slug s hats) (sym same) ∙ has

  abbrev pub purged : HashMap (String × ℕ) String → HashMap (String × ℕ) String
  purged worn = HashMap.retain (λ key slug. not (key.0 == map_uid)) worn

  retain_value-purged :
      (j : String) (user_id : ℕ) (o : Option String)
      → (j == map_uid) ≡ false
      → retain_value (λ slug. not (j == map_uid)) o ≡ o
  retain_value-purged j user_id none h = refl
  retain_value-purged j user_id (some slug) h = rw h refl

  pub retained-IsWorn :
      (hats : List CatalogHat) (worn : HashMap (String × ℕ) String)
      → IsWorn map_uid hats worn (HashMap.retain (keep_worn map_uid hats) worn)
  retained-IsWorn hats worn = record {
    unique = retain-IsUnique (keep_worn map_uid hats) worn;
    here = λ u user_id slug h.
        retain_value-here hats user_id slug (HashMap.get (map_uid, user_id) worn)
          (rw (get-retain (keep_worn map_uid hats) (map_uid, user_id) worn u) at h);
    old = λ u user_id slug h.
        retain_value-some (keep_worn map_uid hats (map_uid, user_id))
          (HashMap.get (map_uid, user_id) worn) slug
          (rw (get-retain (keep_worn map_uid hats) (map_uid, user_id) worn u) at h);
    others = λ u j user_id other.
        get-retain (keep_worn map_uid hats) (j, user_id) worn u
        ∙ retain_value-other hats j user_id _ (other_way j other);
  }

  pub purged-IsWorn :
      (hats : List CatalogHat) (worn : HashMap (String × ℕ) String)
      → IsWorn map_uid hats worn (HashMap.retain (keep_worn map_uid hats) (purged worn))
  purged-IsWorn hats worn =
      let rest = retained-IsWorn hats (purged worn) in
      let drop : String × ℕ → String → Bool = λ key slug. not (key.0 == map_uid) in
      record {
        unique = λ u. rest.unique (retain-IsUnique drop worn u);
        here = λ u. rest.here (retain-IsUnique drop worn u);
        old = λ u user_id slug h.
            retain_value-some (drop (map_uid, user_id)) (HashMap.get (map_uid, user_id) worn) slug (
              sym (get-retain drop (map_uid, user_id) worn u)
              ∙ rest.old (retain-IsUnique drop worn u) user_id slug h);
        others = λ u j user_id other.
            rest.others (retain-IsUnique drop worn u) j user_id other
            ∙ get-retain drop (j, user_id) worn u
            ∙ retain_value-purged j user_id _ (other_way j other);
      }
