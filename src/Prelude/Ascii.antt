-- ===== src/Prelude/Ascii.antt =====
-- `str::eq_ignore_ascii_case`.
use Prim.Native.Nat.{ℕ, ◌+◌}
use Prim.Native.Char.{code}
use Prim.Native.String.{String, [], ◌∷◌}
use mathlib.Core.Path.{◌≡◌, refl}
use mathlib.Core.Bool.{Bool, true, false, ◌&&◌}
use native.Mathlib.Omega.{arith}
use dd2_server.Prelude.Tests.{if◌then◌else◌, leb, nat_beq, nat_beq_iff}

abbrev pub to_ascii_lowercase : ℕ → ℕ
to_ascii_lowercase n = if leb 65 n && leb n 90 then n + 32 else n

unfoldable pub eq_ignore_ascii_case : String → String → Bool
eq_ignore_ascii_case [] [] = true
eq_ignore_ascii_case [] (d ∷ t) = false
eq_ignore_ascii_case (c ∷ s) [] = false
eq_ignore_ascii_case (c ∷ s) (d ∷ t) =
    nat_beq (to_ascii_lowercase (code c)) (to_ascii_lowercase (code d)) && eq_ignore_ascii_case s t

pub eq_ignore_ascii_case_refl : (s : String) → eq_ignore_ascii_case s s ≡ true
unfolding eq_ignore_ascii_case
eq_ignore_ascii_case_refl [] = refl
eq_ignore_ascii_case_refl (c ∷ s) = ground (
  arith,
  nat_beq_iff (to_ascii_lowercase (code c)) (to_ascii_lowercase (code c)),
  eq_ignore_ascii_case_refl s,
)
