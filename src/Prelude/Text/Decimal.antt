-- ===== src/Prelude/Text/Decimal.antt =====
-- A `u32` that is printed is read back.
use Prim.Native.Nat.{ℕ, zero, suc, ◌+◌, ◌*◌, ◌-◌, ◌/◌, ◌%◌, ◌^◌, ◌<◌}
use Prim.Native.Nat.pow
use Prim.Native.Char.{code}
use Prim.Native.String.{String, [], ◌∷◌}
use mathlib.Core.Path.{◌≡◌, refl, ap, ◌∙◌}
use mathlib.Core.Bool.{true, false}
use mathlib.Core.Logic.{inl, inr}
use mathlib.Core.Option.{some}
use native.Mathlib.Omega.{arith}
use dd2_server.Prelude.Tests.{ltb, nat_beq, nat_beq_iff, ltb→lt, Bool-cases}
use dd2_server.Prelude.Text.{
  is_empty, join, strip_prefix, is_digit, parse_digits, strip_plus, parse_u32, digit, write_digits,
  to_decimal,
}

code-digit : (n : ℕ) → n < 10 → code (digit n) ≡ 48 + n
code-digit zero h = refl
code-digit (suc zero) h = refl
code-digit (suc (suc zero)) h = refl
code-digit (suc (suc (suc zero))) h = refl
code-digit (suc (suc (suc (suc zero)))) h = refl
code-digit (suc (suc (suc (suc (suc zero))))) h = refl
code-digit (suc (suc (suc (suc (suc (suc zero)))))) h = refl
code-digit (suc (suc (suc (suc (suc (suc (suc zero))))))) h = refl
code-digit (suc (suc (suc (suc (suc (suc (suc (suc zero)))))))) h = refl
code-digit (suc (suc (suc (suc (suc (suc (suc (suc (suc zero))))))))) h = refl
code-digit (suc (suc (suc (suc (suc (suc (suc (suc (suc (suc n)))))))))) h = omega arith

parse_digits-digit :
    (value n : ℕ) (s : String)
    → n < 10
    → value * 10 + n < 2 ^ 32
    → parse_digits value (digit n ∷ s) ≡ parse_digits (value * 10 + n) s
unfolding parse_digits
parse_digits-digit value n s h b =
    let c = code-digit n h in
    let e : value * 10 + (code (digit n) - 48) ≡ value * 10 + n = omega (arith, c) in
    rw e (ground (arith, c))

zero_tens : (n : ℕ) → 0 * 10 + n ≡ n
zero_tens n = omega arith

tenth : (n p : ℕ) → n < p * 10 → n / 10 < p
tenth n p h = omega arith

parse_digits-write :
    (fuel n : ℕ) (s : String)
    → n < 10 ^ fuel
    → n < 2 ^ 32
    → parse_digits 0 (write_digits fuel n s) ≡ parse_digits n s
unfolding write_digits
parse_digits-write zero n s h b = let e : n ≡ 0 = omega (arith, h) in rw e refl
parse_digits-write (suc fuel) n s h b = elim (Bool-cases (ltb n 10)) [
  | inl small ↦ rw small (
      parse_digits-digit 0 n s (ltb→lt _ _ small) (omega (arith, b))
      ∙ ap (λ (m : ℕ). parse_digits m s) (zero_tens n))
  | inr large ↦ rw large (
      let p : n / 10 < 10 ^ fuel = tenth n (10 ^ fuel) (rw pow.suc at h) in
      let whole : n / 10 * 10 + n % 10 ≡ n = omega arith in
      parse_digits-write fuel (n / 10) (digit (n % 10) ∷ s) p (omega arith)
      ∙ (parse_digits-digit (n / 10) (n % 10) s (omega arith) (omega arith)
          ∙ ap (λ (m : ℕ). parse_digits m s) whole))
]

-- A text that starts with a digit.
abbrev IsDigits : String → Type 0
IsDigits [] = ⊥
IsDigits (c ∷ s) = is_digit (code c) ≡ true

digit-IsDigits : (n : ℕ) (s : String) → n < 10 → IsDigits (digit n ∷ s)
digit-IsDigits n s h = let c = code-digit n h in rw c (ground arith)

write_digits-IsDigits : (fuel n : ℕ) (s : String) → IsDigits s → IsDigits (write_digits fuel n s)
unfolding write_digits
write_digits-IsDigits zero n s h = h
write_digits-IsDigits (suc fuel) n s h = elim (Bool-cases (ltb n 10)) [
  | inl small ↦ rw small (digit-IsDigits n s (ltb→lt _ _ small))
  | inr large ↦ rw large (
      write_digits-IsDigits fuel (n / 10) (digit (n % 10) ∷ s)
        (digit-IsDigits (n % 10) s (omega arith)))
]

to_decimal-IsDigits : (n : ℕ) → IsDigits (to_decimal n)
unfolding to_decimal write_digits
to_decimal-IsDigits n = elim (Bool-cases (ltb n 10)) [
  | inl small ↦ rw small (digit-IsDigits n [] (ltb→lt _ _ small))
  | inr large ↦ rw large (
      write_digits-IsDigits 9 (n / 10) (digit (n % 10) ∷ [])
        (digit-IsDigits (n % 10) [] (omega arith)))
]

digits_read : (s : String) → IsDigits s → parse_u32 s ≡ parse_digits 0 s
unfolding parse_u32 strip_plus is_empty
digits_read [] h = absurd h
digits_read (c ∷ s) h = let e : nat_beq (code c) 43 ≡ false = ground arith in rw e refl

pub parse_u32-to_decimal : (n : ℕ) → n < 2 ^ 32 → parse_u32 (to_decimal n) ≡ some n
unfolding to_decimal parse_digits
parse_u32-to_decimal n h =
    digits_read (to_decimal n) (to_decimal-IsDigits n)
    ∙ parse_digits-write 10 n [] (omega (arith, h)) h

pub strip_prefix-join : (p s : String) → strip_prefix p (join p s) ≡ some s
unfolding strip_prefix join
strip_prefix-join [] s = refl
strip_prefix-join (c ∷ p) s =
    rw (strip_prefix-join p s) (ground (arith, nat_beq_iff (code c) (code c)))

pub is_empty-join : (p s : String) → is_empty p ≡ false → is_empty (join p s) ≡ false
unfolding is_empty join
is_empty-join [] s h = cc
is_empty-join (c ∷ p) s h = refl
