-- ===== src/Catalog/Slugs.antt =====
-- The slugs of catalog entries, as `parse_catalog_hats` of src/queries/hats.rs and
-- `parse_catalog_collectibles` of src/queries/collectibles.rs find them.
pub mod Laws
use dd2_server.Prelude.{
  ℕ, ◌+◌, ◌-◌, ◌^◌, min, Bool, Option, none, some, String, if◌then◌else◌, leb, Result, ok, err,
}
use dd2_server.Prelude.Text.{is_empty, trim, join, strip_prefix, parse_u32, to_decimal}
use dd2_server.Catalog.{Json, CatalogValidationError, blank_slug}

abbrev pub u32_max : ℕ
u32_max = 2 ^ 32 - 1

unfoldable pub trimmed_slug : String → Option String → Result CatalogValidationError String
trimmed_slug catalog none = err (blank_slug catalog)
trimmed_slug catalog (some text) =
    let slug = trim text in if is_empty slug then err (blank_slug catalog) else ok slug

-- The entry's own slug, or the default with the next number.
unfoldable pub slug_or_default :
    {V : Type 0} → Json V → String → String → ℕ → Option V → Result CatalogValidationError String
slug_or_default json catalog prefix next_default none = ok (join prefix (to_decimal next_default))
slug_or_default json catalog prefix next_default (some value) =
    trimmed_slug catalog (json.as_str value)

abbrev pub and_parse : Option String → Option ℕ
and_parse none = none
and_parse (some suffix) = parse_u32 suffix

-- The number of a slug of the default's form.
unfoldable pub slug_number : String → String → Option ℕ
slug_number prefix slug = and_parse (strip_prefix prefix slug)

abbrev pub saturating_suc : ℕ → ℕ
saturating_suc n = min (n + 1) u32_max

unfoldable pub next_after : ℕ → Option ℕ → ℕ
next_after next_default none = next_default
next_after next_default (some number) =
    if leb next_default number then saturating_suc number else next_default

abbrev pub non_empty : Option String → Option String
non_empty none = none
non_empty (some name) = if is_empty name then none else some name

abbrev pub trimmed : Option String → Option String
trimmed none = none
trimmed (some text) = some (trim text)

abbrev pub or_slug : String → Option String → String
or_slug slug none = slug
or_slug slug (some name) = name

abbrev pub and_as_str : {V : Type 0} → Json V → Option V → Option String
and_as_str json none = none
and_as_str json (some value) = json.as_str value

-- The trimmed name, or the slug where that is blank or missing.
unfoldable pub display_name : {V : Type 0} → Json V → V → String → String
display_name json item slug =
    or_slug slug (non_empty (trimmed (and_as_str json (json.get "name" item))))
