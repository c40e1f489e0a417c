-- ===== src/Prelude/Text.antt =====
-- What the Rust code uses of `str`: texts as lists of characters, trimmed, cut and read as numbers.
pub mod Decimal
pub mod Split
use Prim.Native.Nat.{ℕ, zero, suc, ◌+◌, ◌*◌, ◌-◌, ◌/◌, ◌%◌, ◌^◌}
use Prim.Native.Char.{Char, char, code}
use Prim.Native.String.{String, [], ◌∷◌}
use mathlib.Core.Bool.{Bool, true, false, not, ◌&&◌, ◌||◌}
use mathlib.Core.Option.{Option, none, some}
use dd2_server.Prelude.Tests.{if◌then◌else◌, ltb, leb, nat_beq}

-- `char::is_whitespace`, the Unicode property White_Space.
abbrev pub is_whitespace : ℕ → Bool
is_whitespace n =
    (leb 9 n && leb n 13)
    || nat_beq n 32
    || nat_beq n 133
    || nat_beq n 160
    || nat_beq n 5760
    || (leb 8192 n && leb n 8202)
    || nat_beq n 8232
    || nat_beq n 8233
    || nat_beq n 8239
    || nat_beq n 8287
    || nat_beq n 12288

unfoldable pub is_empty : String → Bool
is_empty [] = true
is_empty (c ∷ s) = false

unfoldable pub trim_start : String → String
trim_start [] = []
trim_start (c ∷ s) = let rest = trim_start s in if is_whitespace (code c) then rest else c ∷ s

unfoldable pub trim_end : String → String
trim_end [] = []
trim_end (c ∷ s) =
    let rest = trim_end s in if is_empty rest && is_whitespace (code c) then [] else c ∷ rest

unfoldable pub trim : String → String
unfolding trim_start trim_end is_empty
trim s = trim_end (trim_start s)

-- One text after another, as `format!` joins them.
unfoldable pub join : String → String → String
join [] t = t
join (c ∷ s) t = c ∷ join s t

unfoldable pub strip_prefix : String → String → Option String
strip_prefix [] s = some s
strip_prefix (c ∷ p) [] = none
strip_prefix (c ∷ p) (d ∷ s) =
    let rest = strip_prefix p s in if nat_beq (code c) (code d) then rest else none

abbrev pub is_digit : ℕ → Bool
is_digit n = leb 48 n && leb n 57

-- `u32::from_str`, after its sign, with the digits so far; a value of 2 ^ 32 is an error.
unfoldable pub parse_digits : ℕ → String → Option ℕ
parse_digits value [] = some value
parse_digits value (c ∷ s) =
    let value' = value * 10 + (code c - 48) in
    let rest = parse_digits value' s in
    if is_digit (code c) && ltb value' (2 ^ 32) then rest else none

unfoldable pub strip_plus : String → String
strip_plus [] = []
strip_plus (c ∷ s) = if nat_beq (code c) 43 then s else c ∷ s

unfoldable pub parse_u32 : String → Option ℕ
unfolding parse_digits strip_plus is_empty
parse_u32 s = if is_empty (strip_plus s) then none else parse_digits 0 (strip_plus s)

abbrev pub digit : ℕ → Char
digit zero = char 48 tt
digit (suc zero) = char 49 tt
digit (suc (suc zero)) = char 50 tt
digit (suc (suc (suc zero))) = char 51 tt
digit (suc (suc (suc (suc zero)))) = char 52 tt
digit (suc (suc (suc (suc (suc zero))))) = char 53 tt
digit (suc (suc (suc (suc (suc (suc zero)))))) = char 54 tt
digit (suc (suc (suc (suc (suc (suc (suc zero))))))) = char 55 tt
digit (suc (suc (suc (suc (suc (suc (suc (suc zero)))))))) = char 56 tt
digit n = char 57 tt

-- The digits of a number, before those that are written; one digit for a unit of fuel.
unfoldable pub write_digits : ℕ → ℕ → String → String
write_digits zero n s = s
write_digits (suc fuel) n s =
    let rest = write_digits fuel (n / 10) (digit (n % 10) ∷ s) in
    if ltb n 10 then digit n ∷ s else rest

-- `u32::to_string`: ten digits are enough.
unfoldable pub to_decimal : ℕ → String
unfolding write_digits
to_decimal n = write_digits 10 n []
