-- ===== src/Catalog/Hats/Laws.antt =====
-- What `parse_catalog_hats` of src/queries/hats.rs accepts, and why it refuses a slug.
use dd2_server.Prelude.{
  ℕ, ◌≡◌, refl, Bool, true, false, not, ◌&&◌, ◌||◌, Option, none, some, List, [], ◌∷◌, String,
  string_eq, Result, ok, err, inl, inr, arith, Bool-cases,
}
use dd2_server.Prelude.HashSet
use dd2_server.Prelude.HashSet.{HashSet, IsDistinct}
use dd2_server.Prelude.Text.{is_empty}
use dd2_server.Catalog.{Json, CatalogValidationError, duplicate_slug}
use dd2_server.Catalog.Slugs.{slug_or_default}
use dd2_server.Catalog.Slugs.Laws.{
  IsNext, first-IsNext, IsClash, slug_or_default-IsClash, slug_or_default-named,
  slug_or_default-err, display_name-named,
}
use dd2_server.Catalog.Entries.Laws.{
  IsListed, IsBlamed, IsCatalog, parse_entries-IsCatalog, SomeItem, parse_entries-SomeItem,
  nothing-IsCatalog,
}
use dd2_server.Catalog.Hats.Uids.{IsNamed, IsUids, parse_unlock-IsUids, parse_unlock-err}
use dd2_server.Catalog.Hats.{
  CatalogHat, no_uids, hats_array, parse_unlock, unlockable, hat_with_slug, hat_step, hats_of,
  parse_catalog_hats,
}

-- A hat has a slug and a name, and asks for something: to finish the map, or for records on other
-- maps, each named once.
pub record IsHat (hat : CatalogHat) : Type 0 where
  pub has_slug : IsNamed hat.slug
  pub has_name : IsNamed hat.name
  pub conditioned : (hat.finish_this_map || not (no_uids hat.record_uids)) ≡ true
  pub uids : IsUids [] hat.record_uids

prefix_named : is_empty "Hat-" ≡ false
unfolding is_empty
prefix_named = refl

module _ {V : Type 0} (json : Json V) where
  unlockable-IsListed :
      (item : V) (slug : String) (seen : HashSet String)
      (r : Result CatalogValidationError (Bool × List String))
      → parse_unlock json item ≡ r
      → IsNamed slug
      → HashSet.member slug seen ≡ false
      → IsListed CatalogHat.slug IsHat seen (unlockable json item slug r)
  unlockable-IsListed item slug seen (err error) e named fresh = tt
  unlockable-IsListed item slug seen (ok (finish, uids)) e named fresh =
      elim (Bool-cases (not finish && no_uids uids)) [
        | inl free ↦ rw free tt
        | inr bound ↦ rw bound (
          refl,
          fresh,
          record {
            has_slug = named;
            has_name = display_name-named json item slug named;
            conditioned = ground arith;
            uids = parse_unlock-IsUids json item finish uids e;
          },
        )
      ]

  hat_with_slug-IsListed :
      (item : V) (next_default : ℕ) (seen : HashSet String)
      (r : Result CatalogValidationError String)
      → slug_or_default json "hat" "Hat-" next_default (json.get "slug" item) ≡ r
      → IsListed CatalogHat.slug IsHat seen (hat_with_slug json seen item r)
  hat_with_slug-IsListed item next_default seen (err error) e = tt
  hat_with_slug-IsListed item next_default seen (ok slug) e =
      elim (Bool-cases (HashSet.member slug seen)) [
        | inl old ↦ rw old tt
        | inr fresh ↦ rw fresh (
            unlockable-IsListed item slug seen (parse_unlock json item) refl
              (slug_or_default-named json "hat" "Hat-" next_default (json.get "slug" item) slug
                prefix_named e)
              fresh)
      ]

  hat_step-IsListed :
      (seen : HashSet String) (next_default : ℕ) (item : V)
      → IsListed CatalogHat.slug IsHat seen (hat_step json seen next_default item)
  unfolding hat_step
  hat_step-IsListed seen next_default item = elim (Bool-cases (json.is_object item)) [
    | inl object ↦ rw object (hat_with_slug-IsListed item next_default seen _ refl)
    | inr other ↦ rw other tt
  ]

  unlockable-IsBlamed :
      (Q : String → Type 0) (item : V) (slug : String)
      (r : Result CatalogValidationError (Bool × List String))
      → parse_unlock json item ≡ r
      → IsBlamed Q (unlockable json item slug r)
  unlockable-IsBlamed Q item slug (err error) e =
      let (uid, twice) = parse_unlock-err json item error e in rw twice tt
  unlockable-IsBlamed Q item slug (ok (finish, uids)) e =
      elim (Bool-cases (not finish && no_uids uids)) [
        | inl free ↦ rw free tt
        | inr bound ↦ rw bound tt
      ]

  hat_with_slug-IsBlamed :
      (item : V) (next_default : ℕ) (seen : HashSet String)
      (r : Result CatalogValidationError String)
      → IsNext "Hat-" seen next_default
      → slug_or_default json "hat" "Hat-" next_default (json.get "slug" item) ≡ r
      → IsBlamed (IsClash json "Hat-" item) (hat_with_slug json seen item r)
  hat_with_slug-IsBlamed item next_default seen (err error) v e =
      let blank =
        slug_or_default-err json "hat" "Hat-" next_default (json.get "slug" item) error e in
      rw blank tt
  hat_with_slug-IsBlamed item next_default seen (ok slug) v e =
      elim (Bool-cases (HashSet.member slug seen)) [
        | inl old ↦
            rw old (slug_or_default-IsClash json "hat" "Hat-" next_default item slug seen v e old)
        | inr fresh ↦ rw fresh (unlockable-IsBlamed _ item slug (parse_unlock json item) refl)
      ]

  hat_step-IsBlamed :
      (seen : HashSet String) (next_default : ℕ) (item : V)
      → IsNext "Hat-" seen next_default
      → IsBlamed (IsClash json "Hat-" item) (hat_step json seen next_default item)
  unfolding hat_step
  hat_step-IsBlamed seen next_default item v = elim (Bool-cases (json.is_object item)) [
    | inl object ↦ rw object (hat_with_slug-IsBlamed item next_default seen _ v refl)
    | inr other ↦ rw other tt
  ]

  hats_of-IsCatalog :
      (o : Option (List V)) (hats : List CatalogHat)
      → hats_of json o ≡ ok hats
      → IsCatalog CatalogHat.slug IsHat [] hats
  hats_of-IsCatalog none [] e = nothing-IsCatalog CatalogHat.slug IsHat []
  hats_of-IsCatalog none (hat ∷ hats) e = absurd (ground (arith, e))
  hats_of-IsCatalog (some items) hats e =
      parse_entries-IsCatalog "Hat-" (hat_step json) CatalogHat.slug IsHat hat_step-IsListed items
        [] 1 hats e

  -- Whatever a spec holds, the hats that are parsed from it have distinct slugs; each has a slug
  -- and a name that are not blank, asks for a finish or for records, and names the maps of those
  -- once each and not blank.
  pub parse_catalog_hats-IsCatalog :
      (spec : V) (hats : List CatalogHat)
      → parse_catalog_hats json spec ≡ ok hats
      → IsCatalog CatalogHat.slug IsHat [] hats
  unfolding parse_catalog_hats
  parse_catalog_hats-IsCatalog spec hats e = hats_of-IsCatalog (hats_array json spec) hats e

  hats_of-IsClash :
      (o : Option (List V)) (items : List V) (catalog slug : String)
      → o ≡ some items
      → hats_of json o ≡ err (duplicate_slug catalog slug)
      → SomeItem (λ item. IsClash json "Hat-" item slug) items
  hats_of-IsClash o items catalog slug listed_items e =
      parse_entries-SomeItem "Hat-" (hat_step json) (IsClash json "Hat-") hat_step-IsBlamed items []
        1 catalog slug (first-IsNext "Hat-") (rw listed_items at e)

  -- A spec is refused for a duplicate slug only if one of its entries names that slug itself, or
  -- the slug is that of the last default number there is: defaults meet no earlier slug.
  pub parse_catalog_hats-IsClash :
      (spec : V) (items : List V) (catalog slug : String)
      → hats_array json spec ≡ some items
      → parse_catalog_hats json spec ≡ err (duplicate_slug catalog slug)
      → SomeItem (λ item. IsClash json "Hat-" item slug) items
  unfolding parse_catalog_hats
  parse_catalog_hats-IsClash spec items catalog slug found e =
      hats_of-IsClash (hats_array json spec) items catalog slug found e
