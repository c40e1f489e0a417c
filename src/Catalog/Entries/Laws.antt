-- ===== src/Catalog/Entries/Laws.antt =====
-- The lists of entries that the parsers of src/queries/hats.rs and src/queries/collectibles.rs
-- accept, and why they refuse one.
use dd2_server.Prelude.{
  ℕ, ◌≡◌, refl, true, false, List, [], ◌∷◌, String, map, All, string_eq, Result, ok, err, ◌>>=◌,
  inl, inr, ◌⊎◌, arith,
}
use dd2_server.Prelude.HashSet
use dd2_server.Prelude.HashSet.{HashSet, IsDistinct}
use dd2_server.Catalog.{CatalogValidationError, blank_slug, duplicate_slug, duplicate_record_uid}
use dd2_server.Catalog.Slugs.{slug_number, next_after}
use dd2_server.Catalog.Slugs.Laws.{IsNext, next_after-IsNext}
use dd2_server.Catalog.Entries.{Step, ignored, refused, unlisted, listed, parse_entries}

-- What a step promises of an entry that it lists: its slug, which is new, and `P`.
abbrev pub IsListed : {A : Type 0} → (A → String) → (A → Type 0) → HashSet String → Step A → Type 0
IsListed slug_of P seen (listed slug entry) =
    (slug_of entry ≡ slug) × (HashSet.member slug seen ≡ false) × P entry
IsListed slug_of P seen other = Unit

-- Why a step may refuse a slug as a duplicate.
abbrev pub IsBlamed : {A : Type 0} → (String → Type 0) → Step A → Type 0
IsBlamed Q (refused (duplicate_slug catalog slug)) = Q slug
IsBlamed Q other = Unit

pub bind-err :
    {E A B : Type 0} (r : Result E A) (f : A → B) (error : E)
    → (r >>= λ a. ok (f a)) ≡ err error
    → r ≡ err error
bind-err (ok a) f error h = cc
bind-err (err e) f error h = ground arith

ok_err :
    {A : Type 0} (error : CatalogValidationError) (a : A)
    → ◌≡◌ {A = Result CatalogValidationError A} (err error) (ok a)
    → ⊥
ok_err error a h = ground arith

pub bind-ok :
    {E A B : Type 0} (r : Result E A) (f : A → B) {b : B}
    → (r >>= λ a. ok (f a)) ≡ ok b
    → (a : A) × (r ≡ ok a) × (f a ≡ b)
bind-ok (ok a) f h = (a, refl, ground arith)
bind-ok (err e) f h = cc

blamed :
    {A : Type 0} (error : CatalogValidationError) (catalog slug : String) (Q : String → Type 0)
    → IsBlamed {A = A} Q (refused error)
    → ◌≡◌ {A = Result CatalogValidationError (List A)}
        (err error)
        (err (duplicate_slug catalog slug))
    → Q slug
blamed (duplicate_slug catalog' slug') catalog slug Q q e =
    let same : slug' ≡ slug = ground arith in rw⁻¹ same q
blamed (blank_slug catalog') catalog slug Q q e = absurd (ground (arith, e))
blamed (duplicate_record_uid uid) catalog slug Q q e = absurd (ground (arith, e))

-- What a step came to, with the equation.
data StepCase {A : Type 0} (s : Step A) : Type 0 where
  is_ignored : s ≡ ignored → StepCase s
  is_refused : (error : CatalogValidationError) → s ≡ refused error → StepCase s
  is_unlisted : (slug : String) → s ≡ unlisted slug → StepCase s
  is_listed : (slug : String) (entry : A) → s ≡ listed slug entry → StepCase s

step_case : {A : Type 0} (s : Step A) → StepCase s
step_case ignored = is_ignored refl
step_case (refused error) = is_refused error refl
step_case (unlisted slug) = is_unlisted slug refl
step_case (listed slug entry) = is_listed slug entry refl

-- The entries have distinct slugs, none of which was seen before, and each has `P`.
pub record IsCatalog {A : Type 0} (slug_of : A → String) (P : A → Type 0) (seen : HashSet String)
    (entries : List A) : Type 0 where
  pub each : All P entries
  pub distinct : IsDistinct (map slug_of entries)
  pub fresh :
      (s : String) → HashSet.member s (map slug_of entries) ≡ true → HashSet.member s seen ≡ false

module _ {A : Type 0} (slug_of : A → String) (P : A → Type 0) (seen : HashSet String) where
  pub nothing-IsCatalog : IsCatalog slug_of P seen []
  unfolding HashSet.member
  nothing-IsCatalog = record { each = tt; distinct = tt; fresh = λ s h. cc }

  pub fewer-IsCatalog :
      (slug : String) (entries : List A)
      → IsCatalog slug_of P (slug ∷ seen) entries
      → IsCatalog slug_of P seen entries
  unfolding HashSet.member
  fewer-IsCatalog slug entries v = record {
    each = v.each;
    distinct = v.distinct;
    fresh = λ s h. ground (arith, v.fresh s h);
  }

  pub more-IsCatalog :
      (slug : String) (entry : A) (entries : List A)
      → (slug_of entry ≡ slug) × (HashSet.member slug seen ≡ false) × P entry
      → IsCatalog slug_of P (slug ∷ seen) entries
      → IsCatalog slug_of P seen (entry ∷ entries)
  unfolding HashSet.member
  more-IsCatalog slug entry entries (named, new, p) v = record {
    each = (p, v.each);
    distinct = (ground (arith, named, v.fresh slug, string_eq.beq_iff slug slug), v.distinct);
    fresh = λ s h. ground (arith, named, new, v.fresh s, string_eq.beq_iff (slug_of entry) s);
  }

module _ {V A : Type 0} (prefix : String) (step : HashSet String → ℕ → V → Step A) (item : V)
    (items : List V) (seen : HashSet String) (next_default : ℕ) where
  after-ignored :
      step seen next_default item ≡ ignored
      → parse_entries prefix step (item ∷ items) seen next_default
        ≡ parse_entries prefix step items seen next_default
  unfolding parse_entries
  after-ignored s = rw (s, parse_entries) refl

  after-refused :
      (error : CatalogValidationError)
      → step seen next_default item ≡ refused error
      → parse_entries prefix step (item ∷ items) seen next_default ≡ err error
  unfolding parse_entries
  after-refused error s = rw (s, parse_entries) refl

  after-unlisted :
      (slug : String)
      → step seen next_default item ≡ unlisted slug
      → parse_entries prefix step (item ∷ items) seen next_default
        ≡ parse_entries prefix step items
            (slug ∷ seen)
            (next_after next_default (slug_number prefix slug))
  unfolding parse_entries
  after-unlisted slug s = rw (s, parse_entries) refl

  after-listed :
      (slug : String) (entry : A)
      → step seen next_default item ≡ listed slug entry
      → parse_entries prefix step (item ∷ items) seen next_default ≡ (
          parse_entries prefix step items
            (slug ∷ seen)
            (next_after next_default (slug_number prefix slug))
          >>= λ rest. ok (entry ∷ rest))
  unfolding parse_entries
  after-listed slug entry s = rw (s, parse_entries) refl

module _ {V A : Type 0} (prefix : String) (step : HashSet String → ℕ → V → Step A)
    (slug_of : A → String) (P : A → Type 0)
    (lists : (seen : HashSet String) (next_default : ℕ) (item : V)
      → IsListed slug_of P seen (step seen next_default item)) where
  pub parse_entries-IsCatalog :
      (items : List V) (seen : HashSet String) (next_default : ℕ) (entries : List A)
      → parse_entries prefix step items seen next_default ≡ ok entries
      → IsCatalog slug_of P seen entries
  unfolding parse_entries
  parse_entries-IsCatalog [] seen next_default [] e = nothing-IsCatalog slug_of P seen
  parse_entries-IsCatalog [] seen next_default (entry ∷ entries) e = absurd (ground (arith, e))
  parse_entries-IsCatalog (item ∷ items) seen next_default entries e =
      let law = lists seen next_default item in
      elim (step_case (step seen next_default item)) [
        | is_ignored s ↦
            parse_entries-IsCatalog items seen next_default entries
              (rw (after-ignored prefix step item items seen next_default s) at e)
        | is_refused error s ↦ absurd (
            ok_err error entries
              (rw (after-refused prefix step item items seen next_default error s) at e))
        | is_unlisted slug s ↦ fewer-IsCatalog slug_of P seen slug entries (
            parse_entries-IsCatalog items (slug ∷ seen)
              (next_after next_default (slug_number prefix slug)) entries
              (rw (after-unlisted prefix step item items seen next_default slug s) at e))
        | is_listed slug entry s ↦
            let (rest, parsed, parts) =
              bind-ok
                (parse_entries prefix step items (slug ∷ seen)
                  (next_after next_default (slug_number prefix slug)))
                (λ (rest : List A). entry ∷ rest)
                (rw (after-listed prefix step item items seen next_default slug entry s) at e) in
            rw⁻¹ parts (
              more-IsCatalog slug_of P seen slug entry rest (rw s at law) (
                parse_entries-IsCatalog items (slug ∷ seen)
                  (next_after next_default (slug_number prefix slug)) rest parsed))
      ]

abbrev pub SomeItem : {V : Type 0} → (V → Type 0) → List V → Type 0
SomeItem Q [] = ⊥
SomeItem Q (item ∷ items) = Q item ⊎ SomeItem Q items

-- A duplicate is blamed on an entry that has `Q` of its slug.
module _ {V A : Type 0} (prefix : String) (step : HashSet String → ℕ → V → Step A)
    (Q : V → String → Type 0)
    (blames : (seen : HashSet String) (next_default : ℕ) (item : V)
      → IsNext prefix seen next_default
      → IsBlamed (Q item) (step seen next_default item)) where
  pub parse_entries-SomeItem :
      (items : List V) (seen : HashSet String) (next_default : ℕ) (catalog slug : String)
      → IsNext prefix seen next_default
      → parse_entries prefix step items seen next_default ≡ err (duplicate_slug catalog slug)
      → SomeItem (λ item. Q item slug) items
  unfolding parse_entries
  parse_entries-SomeItem [] seen next_default catalog slug v e = absurd (ground (arith, e))
  parse_entries-SomeItem (item ∷ items) seen next_default catalog slug v e =
      let law = blames seen next_default item v in
      elim (step_case (step seen next_default item)) [
        | is_ignored s ↦ inr (
            parse_entries-SomeItem items seen next_default catalog slug v
              (rw (after-ignored prefix step item items seen next_default s) at e))
        | is_refused error s ↦ inl (
            blamed error catalog slug (Q item) (rw s at law)
              (rw (after-refused prefix step item items seen next_default error s) at e))
        | is_unlisted new s ↦ inr (
            parse_entries-SomeItem items (new ∷ seen)
              (next_after next_default (slug_number prefix new)) catalog slug
              (next_after-IsNext prefix new seen next_default v)
              (rw (after-unlisted prefix step item items seen next_default new s) at e))
        | is_listed new entry s ↦ inr (
            parse_entries-SomeItem items (new ∷ seen)
              (next_after next_default (slug_number prefix new)) catalog slug
              (next_after-IsNext prefix new seen next_default v)
              (bind-err _ _ _
                (rw (after-listed prefix step item items seen next_default new entry s) at e)))
      ]
