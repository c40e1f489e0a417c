-- ===== src/Catalog/Entries.antt =====
-- The loop over the entries of a catalog, which src/queries/hats.rs and
-- src/queries/collectibles.rs share but for what they make of one entry.
pub mod Laws
use dd2_server.Prelude.{ℕ, Option, List, [], ◌∷◌, String, Result, ok, err, ◌>>=◌}
use dd2_server.Prelude.HashSet.{HashSet}
use dd2_server.Catalog.{CatalogValidationError}
use dd2_server.Catalog.Slugs.{slug_number, next_after}

-- What one entry comes to: it is no entry; the spec is refused; its slug is taken but it is not
-- listed; or it is listed.
pub data Step (A : Type 0) : Type 0 where
  ignored : Step A
  refused : CatalogValidationError → Step A
  unlisted : (slug : String) → Step A
  listed : (slug : String) → A → Step A

module _ {V A : Type 0} (prefix : String) (step : HashSet String → ℕ → V → Step A) where
  -- `seen` has the slugs so far, and the next default has the number `next_default`.
  unfoldable pub parse_entries :
      List V → HashSet String → ℕ → Result CatalogValidationError (List A)
  parse_entries [] seen next_default = ok []
  parse_entries (item ∷ items) seen next_default = elim (step seen next_default item) [
    | ignored ↦ parse_entries items seen next_default
    | refused error ↦ err error
    | unlisted slug ↦
        parse_entries items (slug ∷ seen) (next_after next_default (slug_number prefix slug))
    | listed slug entry ↦
        parse_entries items (slug ∷ seen) (next_after next_default (slug_number prefix slug))
        >>= λ rest. ok (entry ∷ rest)
  ]
