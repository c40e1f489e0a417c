-- ===== src/Catalog/Collectibles/Laws.antt =====
-- What `parse_catalog_collectibles` of src/queries/collectibles.rs accepts, and why it refuses a
-- slug.
use dd2_server.Prelude.{
  ℕ, ◌≡◌, refl, Bool, true, false, ◌||◌, Option, none, some, List, [], ◌∷◌, String, string_eq,
  Result, ok, err, arith, Bool-cases, inl, inr, if◌then◌else◌,
}
use dd2_server.Prelude.HashSet
use dd2_server.Prelude.HashSet.{HashSet}
use dd2_server.Prelude.Text.{is_empty}
use dd2_server.Catalog.{Json, CatalogValidationError, duplicate_slug}
use dd2_server.Catalog.Slugs.{slug_or_default}
use dd2_server.Catalog.Slugs.Laws.{
  IsNext, first-IsNext, IsClash, slug_or_default-IsClash, slug_or_default-named,
  slug_or_default-err, display_name-named,
}
use dd2_server.Catalog.Entries.Laws.{
  IsListed, IsBlamed, IsCatalog, parse_entries-IsCatalog, SomeItem, parse_entries-SomeItem,
  nothing-IsCatalog,
}
use dd2_server.Catalog.Collectibles.{
  CatalogCollectible, Numbers, collect_paths, gate, collectible_array, parse_collect_paths,
  parse_gated_by, with_slug, with_paths, collectible_step, collectibles_of,
  parse_catalog_collectibles,
}

-- The word that old plugins read for how a collectible is collected.
abbrev pub pickup_word : Bool → String
pickup_word collect_on_unlock = if collect_on_unlock then "grant" else "zone"

-- The gate, where there is one, is not blank.
abbrev pub IsGate : Option String → Type 0
IsGate none = Unit
IsGate (some s) = is_empty s ≡ false

-- A collectible has a slug and a name, is collected by a zone or on unlock, and says so to old
-- plugins.
pub record IsCollectible (c : CatalogCollectible) : Type 0 where
  pub has_slug : is_empty c.slug ≡ false
  pub has_name : is_empty c.name ≡ false
  pub collected : (c.collect_on_unlock || c.has_zone) ≡ true
  pub compatible : c.pickup ≡ pickup_word c.collect_on_unlock
  pub gated : IsGate c.gated_by

abbrev IsPaths : Option (Bool × Bool × String) → Type 0
IsPaths none = Unit
IsPaths (some (collect_on_unlock, has_zone, pickup)) =
    ((collect_on_unlock || has_zone) ≡ true) × (pickup ≡ pickup_word collect_on_unlock)

collect_paths-IsPaths :
    (c z : Bool) (legacy : Option (Bool × Bool)) → IsPaths (collect_paths c z legacy)
unfolding collect_paths
collect_paths-IsPaths c z none = tt
collect_paths-IsPaths true z (some (d, y)) = (refl, refl)
collect_paths-IsPaths false true (some (true, y)) = (refl, refl)
collect_paths-IsPaths false true (some (false, y)) = (refl, refl)
collect_paths-IsPaths false false (some (true, y)) = (refl, refl)
collect_paths-IsPaths false false (some (false, true)) = (refl, refl)
collect_paths-IsPaths false false (some (false, false)) = tt

gate-IsGate : (s : String) → IsGate (gate s)
unfolding gate
gate-IsGate s = elim (Bool-cases (is_empty s)) [ inl blank ↦ rw blank tt | inr full ↦ rw full full ]

prefix_named : is_empty "Collectible-" ≡ false
unfolding is_empty
prefix_named = refl

module _ {V : Type 0} (json : Json V) where
  parse_collect_paths-IsPaths : (item : V) → IsPaths (parse_collect_paths json item)
  unfolding parse_collect_paths
  parse_collect_paths-IsPaths item = collect_paths-IsPaths _ _ _

  parse_gated_by-IsGate : (item : V) → IsGate (parse_gated_by json item)
  unfolding parse_gated_by
  parse_gated_by-IsGate item = gate-IsGate _

  abbrev slug_of_item : ℕ → V → Result CatalogValidationError String
  slug_of_item next_default item =
      slug_or_default json "collectible" "Collectible-" next_default (json.get "slug" item)

module _ {V : Type 0} (json : Json V) (numbers : Numbers V) where
  with_slug-IsListed :
      (item : V) (paths : Bool × Bool × String) (next_default : ℕ) (seen : HashSet String)
      (r : Result CatalogValidationError String)
      → IsPaths (some paths)
      → slug_of_item json next_default item ≡ r
      → IsListed CatalogCollectible.slug IsCollectible seen
          (with_slug json numbers seen item paths r)
  with_slug-IsListed item paths next_default seen (err error) p e = tt
  with_slug-IsListed item paths next_default seen (ok slug) (collected, word) e =
      elim (Bool-cases (HashSet.member slug seen)) [
        | inl old ↦ rw old tt
        | inr fresh ↦
            let named =
              slug_or_default-named json "collectible" "Collectible-" next_default
                (json.get "slug" item) slug prefix_named e in
            rw fresh (
              refl,
              fresh,
              record {
                has_slug = named;
                has_name = display_name-named json item slug named;
                collected = collected;
                compatible = word;
                gated = parse_gated_by-IsGate json item;
              },
            )
      ]

  with_slug-IsBlamed :
      (item : V) (paths : Bool × Bool × String) (next_default : ℕ) (seen : HashSet String)
      (r : Result CatalogValidationError String)
      → IsNext "Collectible-" seen next_default
      → slug_of_item json next_default item ≡ r
      → IsBlamed (IsClash json "Collectible-" item) (with_slug json numbers seen item paths r)
  with_slug-IsBlamed item paths next_default seen (err error) v e =
      let blank =
        slug_or_default-err json "collectible" "Collectible-" next_default (json.get "slug" item)
          error e in
      rw blank tt
  with_slug-IsBlamed item paths next_default seen (ok slug) v e =
      elim (Bool-cases (HashSet.member slug seen)) [
        | inl old ↦ rw old (
            slug_or_default-IsClash json "collectible" "Collectible-" next_default item slug seen v
              e old)
        | inr fresh ↦ rw fresh tt
      ]

  with_paths-IsListed :
      (item : V) (o : Option (Bool × Bool × String)) (next_default : ℕ) (seen : HashSet String)
      → IsPaths o
      → IsListed CatalogCollectible.slug IsCollectible seen
          (with_paths json numbers seen next_default item o)
  with_paths-IsListed item none next_default seen p = tt
  with_paths-IsListed item (some paths) next_default seen p =
      with_slug-IsListed item paths next_default seen _ p refl

  with_paths-IsBlamed :
      (item : V) (o : Option (Bool × Bool × String)) (next_default : ℕ) (seen : HashSet String)
      → IsNext "Collectible-" seen next_default
      → IsBlamed
          (IsClash json "Collectible-" item)
          (with_paths json numbers seen next_default item o)
  with_paths-IsBlamed item none next_default seen v = tt
  with_paths-IsBlamed item (some paths) next_default seen v =
      with_slug-IsBlamed item paths next_default seen _ v refl

  step-IsListed :
      (seen : HashSet String) (next_default : ℕ) (item : V)
      → IsListed CatalogCollectible.slug IsCollectible seen
          (collectible_step json numbers seen next_default item)
  unfolding collectible_step
  step-IsListed seen next_default item = elim (Bool-cases (json.is_object item)) [
    | inl object ↦ rw object (
        with_paths-IsListed item (parse_collect_paths json item) next_default seen
          (parse_collect_paths-IsPaths json item))
    | inr other ↦ rw other tt
  ]

  step-IsBlamed :
      (seen : HashSet String) (next_default : ℕ) (item : V)
      → IsNext "Collectible-" seen next_default
      → IsBlamed
          (IsClash json "Collectible-" item)
          (collectible_step json numbers seen next_default item)
  unfolding collectible_step
  step-IsBlamed seen next_default item v = elim (Bool-cases (json.is_object item)) [
    | inl object ↦
        rw object (with_paths-IsBlamed item (parse_collect_paths json item) next_default seen v)
    | inr other ↦ rw other tt
  ]

  collectibles_of-IsCatalog :
      (o : Option (List V)) (items : List CatalogCollectible)
      → collectibles_of json numbers o ≡ ok items
      → IsCatalog CatalogCollectible.slug IsCollectible [] items
  collectibles_of-IsCatalog none [] e = nothing-IsCatalog CatalogCollectible.slug IsCollectible []
  collectibles_of-IsCatalog none (item ∷ items) e = absurd (ground (arith, e))
  collectibles_of-IsCatalog (some values) items e =
      parse_entries-IsCatalog "Collectible-" (collectible_step json numbers) CatalogCollectible.slug
        IsCollectible step-IsListed values [] 1 items e

  -- Whatever a spec holds, the collectibles that are parsed from it have distinct slugs; each has a
  -- slug and a name that are not blank, is collected by a zone or on unlock, has the old `pickup`
  -- word for that, and no blank gate.
  pub parse_catalog_collectibles-IsCatalog :
      (spec : V) (items : List CatalogCollectible)
      → parse_catalog_collectibles json numbers spec ≡ ok items
      → IsCatalog CatalogCollectible.slug IsCollectible [] items
  unfolding parse_catalog_collectibles
  parse_catalog_collectibles-IsCatalog spec items e =
      collectibles_of-IsCatalog (collectible_array json spec) items e

  collectibles_of-IsClash :
      (o : Option (List V)) (items : List V) (catalog slug : String)
      → o ≡ some items
      → collectibles_of json numbers o ≡ err (duplicate_slug catalog slug)
      → SomeItem (λ item. IsClash json "Collectible-" item slug) items
  collectibles_of-IsClash o items catalog slug found e =
      parse_entries-SomeItem "Collectible-" (collectible_step json numbers)
        (IsClash json "Collectible-") step-IsBlamed items [] 1 catalog slug
        (first-IsNext "Collectible-") (rw found at e)

  -- A spec is refused for a duplicate slug of a collectible only if one of its entries names that
  -- slug itself, or the slug is that of the last default number there is.
  pub parse_catalog_collectibles-IsClash :
      (spec : V) (items : List V) (catalog slug : String)
      → collectible_array json spec ≡ some items
      → parse_catalog_collectibles json numbers spec ≡ err (duplicate_slug catalog slug)
      → SomeItem (λ item. IsClash json "Collectible-" item slug) items
  unfolding parse_catalog_collectibles
  parse_catalog_collectibles-IsClash spec items catalog slug found e =
      collectibles_of-IsClash (collectible_array json spec) items catalog slug found e
