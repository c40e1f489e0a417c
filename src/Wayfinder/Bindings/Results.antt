-- ===== src/Wayfinder/Bindings/Results.antt =====
-- What a result of src/queries/listed_maps.rs that is ok says of its parts.
use dd2_server.Prelude.{
  ◌≡◌, refl, Bool, true, false, not, ◌&&◌, Option, none, some, nat_eq, string_eq, option_eq, Result,
  ok, err, ◌>>=◌, arith,
}
use dd2_server.Catalog.{CatalogValidationError}
use dd2_server.Wayfinder.Bindings.{BindSpecError, found, require, or_catalog}

pub require-ok :
    {A : Type 0} (b : Bool) (error : BindSpecError) (r : Result BindSpecError A) (a : A)
    → (require b error >>= λ _. r) ≡ ok a
    → (b ≡ true) × (r ≡ ok a)
require-ok true error r a h = (refl, h)
require-ok false error r a h = absurd (cc)

pub or_catalog-ok :
    {A : Type 0} (r : Result CatalogValidationError A) (a : A) → or_catalog r ≡ ok a → r ≡ ok a
or_catalog-ok (ok b) a h = ground arith
or_catalog-ok (err error) a h = absurd (cc)

pub ok_state :
    {A B : Type 0} (a a' : A) (b b' : B)
    → ◌≡◌ {A = Result BindSpecError (A × B)} (ok (a, b)) (ok (a', b'))
    → b' ≡ b
ok_state a a' b b' e = ground (arith, e)

pub and_true : (a b : Bool) → (a && b) ≡ true → (a ≡ true) × (b ≡ true)
and_true a b h = ground arith

pub not-true : (a : Bool) → not a ≡ true → a ≡ false
not-true a h = ground arith

pub some_row : {A : Type 0} (a b : A) → some a ≡ some b → a ≡ b
some_row a b h = cc

pub found-ok :
    {A : Type 0} (error : BindSpecError) (o : Option A) (a : A) → found error o ≡ ok a → o ≡ some a
found-ok error none a h = absurd (cc)
found-ok error (some b) a h = ground arith
