-- ===== src/Prelude/Results.antt =====
-- Rust's `Result`, with `?` as the bind of a do block.
use mathlib.Core.Path.{◌≡◌, refl}

pub data Result (E A : Type 0) : Type 0 where
  ok : A → Result E A
  err : E → Result E A

infixl 5 ◌>>=◌
abbrev pub ◌>>=◌ : {E A B : Type 0} → Result E A → (A → Result E B) → Result E B
ok a >>= f = f a
err e >>= f = err e

pub >>=-eq-ok :
    {E A B : Type 0} (r : Result E A) {f : A → Result E B} {b : B}
    → (r >>= f) ≡ ok b
    → (a : A) × (r ≡ ok a) × (f a ≡ ok b)
>>=-eq-ok (ok a) h = (a, refl, h)
>>=-eq-ok (err e) h = cc
