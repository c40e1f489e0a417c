-- ===== src/Catalog/Slugs/Laws.antt =====
-- Default slugs of src/queries/hats.rs and src/queries/collectibles.rs do not meet earlier slugs.
use dd2_server.Prelude.{
  ℕ, ◌+◌, ◌^◌, ◌<◌, ◌≤◌, ◌≡◌, refl, ◌⊎◌, inl, inr, true, false, [], ◌∷◌, Option, none, some, String,
  leb, ok, err, ap, arith, string_eq, ◌==◌, Bool-cases,
}
use dd2_server.Prelude.HashSet
use dd2_server.Prelude.HashSet.{HashSet}
use dd2_server.Prelude.Text.{is_empty, trim, join, to_decimal}
use dd2_server.Prelude.Text.Decimal.{parse_u32-to_decimal, strip_prefix-join, is_empty-join}
use dd2_server.Catalog.{Json, CatalogValidationError, blank_slug}
use dd2_server.Catalog.Slugs.{
  trimmed_slug, slug_or_default, display_name, u32_max, slug_number, next_after,
}

pub slug_number-default :
    (prefix : String) (n : ℕ)
    → n < 2 ^ 32
    → slug_number prefix (join prefix (to_decimal n)) ≡ some n
unfolding slug_number
slug_number-default prefix n h = rw strip_prefix-join (parse_u32-to_decimal n h)

-- The next default's number is above those of all slugs so far, or has reached `u32::MAX`.
pub record IsNext (prefix : String) (seen : HashSet String) (next_default : ℕ) : Type 0 where
  pub fits : next_default ≤ u32_max
  pub above :
      (slug : String) (n : ℕ)
      → HashSet.member slug seen ≡ true
      → slug_number prefix slug ≡ some n
      → (n < next_default) ⊎ (next_default ≡ u32_max)

-- A number is below the next default's, unless that is the last there is.
abbrev IsBelow : ℕ → ℕ → Type 0
IsBelow n next_default = (n < next_default) ⊎ (next_default ≡ u32_max)

next_after-fits :
    (next_default : ℕ) (o : Option ℕ) → next_default ≤ u32_max → next_after next_default o ≤ u32_max
unfolding next_after
next_after-fits next_default none h = h
next_after-fits next_default (some n) h = ground arith

next_after-own :
    (next_default n : ℕ) → next_default ≤ u32_max → IsBelow n (next_after next_default (some n))
unfolding next_after
next_after-own next_default n h = elim (Bool-cases (leb next_default n)) [
  | inl large ↦ rw large (elim (Bool-cases (leb u32_max (n + 1))) [
    | inl last ↦ inr (ground arith)
    | inr room ↦ inl (ground arith)
  ])
  | inr small ↦ rw small (inl (ground arith))
]

next_after-old :
    (next_default n : ℕ) (o : Option ℕ)
    → next_default ≤ u32_max
    → IsBelow n next_default
    → IsBelow n (next_after next_default o)
unfolding next_after
next_after-old next_default n none h below = below
next_after-old next_default n (some m) h (inl less) = elim (Bool-cases (leb next_default m)) [
  | inl large ↦ rw large (elim (Bool-cases (leb u32_max (m + 1))) [
    | inl last ↦ inr (ground arith)
    | inr room ↦ inl (ground arith)
  ])
  | inr small ↦ rw small (inl less)
]
next_after-old next_default n (some m) h (inr last) = inr (ground arith)

next_after-above :
    (prefix slug : String) (seen : HashSet String) (next_default : ℕ)
    → IsNext prefix seen next_default
    → (t : String) (n : ℕ) → HashSet.member t (slug ∷ seen) ≡ true
    → slug_number prefix t ≡ some n
    → IsBelow n (next_after next_default (slug_number prefix slug))
unfolding HashSet.member
next_after-above prefix slug seen next_default v t n h e = elim (Bool-cases (slug == t)) [
  | inl same ↦
      let number : slug_number prefix slug ≡ some n = rw ((string_eq.beq_iff slug t).0 same) e in
      rw number (next_after-own next_default n v.fits)
  | inr other ↦
      next_after-old next_default n (slug_number prefix slug) v.fits (v.above t n (rw other at h) e)
]

pub next_after-IsNext :
    (prefix slug : String) (seen : HashSet String) (next_default : ℕ)
    → IsNext prefix seen next_default
    → IsNext prefix (slug ∷ seen) (next_after next_default (slug_number prefix slug))
next_after-IsNext prefix slug seen next_default v = record {
  fits = next_after-fits next_default (slug_number prefix slug) v.fits;
  above = next_after-above prefix slug seen next_default v;
}

pub first-IsNext : (prefix : String) → IsNext prefix [] 1
unfolding HashSet.member
first-IsNext prefix = record { fits = omega arith; above = λ t n h e. cc }

pub default-seen :
    (prefix : String) (seen : HashSet String) (next_default : ℕ)
    → IsNext prefix seen next_default
    → HashSet.member (join prefix (to_decimal next_default)) seen ≡ true
    → next_default ≡ u32_max
default-seen prefix seen next_default v h =
    let n = slug_number-default prefix next_default (omega (arith, v.fits)) in
    ground (arith, v.above (join prefix (to_decimal next_default)) next_default h n)

-- A slug that an entry names itself, or the last default there is.
pub data IsClash {V : Type 0} (json : Json V) (prefix : String) (item : V) (slug : String)
    : Type 0 where
  explicit :
      (value : V) (text : String)
      → json.get "slug" item ≡ some value
      → json.as_str value ≡ some text
      → trim text ≡ slug
      → IsClash json prefix item slug
  last : slug ≡ join prefix (to_decimal u32_max) → IsClash json prefix item slug

trimmed_slug-ok :
    (catalog : String) (o : Option String) (slug : String)
    → trimmed_slug catalog o ≡ ok slug
    → (text : String) × (o ≡ some text) × (trim text ≡ slug) × (is_empty slug ≡ false)
unfolding trimmed_slug
trimmed_slug-ok catalog none slug e = absurd (ground (arith, e))
trimmed_slug-ok catalog (some text) slug e = (text, refl, ground (arith, e), ground (arith, e))

module _ {V : Type 0} (json : Json V) (catalog prefix : String) where
  duplicate-IsClash :
      (next_default : ℕ) (item : V) (o : Option V) (slug : String) (seen : HashSet String)
      → json.get "slug" item ≡ o
      → IsNext prefix seen next_default
      → slug_or_default json catalog prefix next_default o ≡ ok slug
      → HashSet.member slug seen ≡ true
      → IsClash json prefix item slug
  unfolding slug_or_default
  duplicate-IsClash next_default item none slug seen found v e h =
      let same : join prefix (to_decimal next_default) ≡ slug = ground (arith, e) in
      let end : next_default ≡ u32_max = default-seen prefix seen next_default v (rw same h) in
      last (rw⁻¹ same (ap (λ n. join prefix (to_decimal n)) end))
  duplicate-IsClash next_default item (some value) slug seen found v e h =
      let (text, read, trims, full) = trimmed_slug-ok catalog (json.as_str value) slug e in
      explicit value text found read trims

  pub slug_or_default-IsClash :
      (next_default : ℕ) (item : V) (slug : String) (seen : HashSet String)
      → IsNext prefix seen next_default
      → slug_or_default json catalog prefix next_default (json.get "slug" item) ≡ ok slug
      → HashSet.member slug seen ≡ true
      → IsClash json prefix item slug
  slug_or_default-IsClash next_default item slug seen v e h =
      duplicate-IsClash next_default item (json.get "slug" item) slug seen refl v e h

  pub slug_or_default-named :
      (next_default : ℕ) (o : Option V) (slug : String)
      → is_empty prefix ≡ false
      → slug_or_default json catalog prefix next_default o ≡ ok slug
      → is_empty slug ≡ false
  unfolding slug_or_default
  slug_or_default-named next_default none slug h e =
      let same : join prefix (to_decimal next_default) ≡ slug = ground (arith, e) in
      rw⁻¹ same (is_empty-join prefix (to_decimal next_default) h)
  slug_or_default-named next_default (some value) slug h e =
      (trimmed_slug-ok catalog (json.as_str value) slug e).3

  pub slug_or_default-err :
      (next_default : ℕ) (o : Option V) (error : CatalogValidationError)
      → slug_or_default json catalog prefix next_default o ≡ err error
      → error ≡ blank_slug catalog
  unfolding slug_or_default trimmed_slug
  slug_or_default-err next_default none error e = absurd (ground (arith, e))
  slug_or_default-err next_default (some value) error e = ground (arith, e)

pub display_name-named :
    {V : Type 0} (json : Json V) (item : V) (slug : String)
    → is_empty slug ≡ false
    → is_empty (display_name json item slug) ≡ false
unfolding display_name
display_name-named json item slug h = ground arith
