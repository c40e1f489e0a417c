-- ===== src/Nadeo/Gbx/Utf8.antt =====
-- `std::str::from_utf8`, as src/nadeo.rs uses it: whether bytes are UTF-8.
use dd2_server.Prelude.{
  ℕ, zero, suc, Bool, true, false, ◌&&◌, Option, none, some, List, [], ◌∷◌, if◌then◌else◌, leb,
  nat_eq, ◌==◌,
}

-- How many bytes follow a first byte, and the bounds of the next one.
unfoldable pub lead : ℕ → Option (ℕ × ℕ × ℕ)
lead b =
    if leb b 127
    then some (0, 128, 191)
    else if leb 194 b && leb b 223
    then some (1, 128, 191)
    else if b == 224
    then some (2, 160, 191)
    else if b == 237
    then some (2, 128, 159)
    else if leb 225 b && leb b 239
    then some (2, 128, 191)
    else if b == 240
    then some (3, 144, 191)
    else if leb 241 b && leb b 243
    then some (3, 128, 191)
    else if b == 244
    then some (3, 128, 143)
    else none

-- `more` bytes of a character are to come, the next between `low` and `high`.
unfoldable pub is_utf8_from : ℕ → ℕ → ℕ → List ℕ → Bool
is_utf8_from zero low high [] = true
is_utf8_from (suc more) low high [] = false
is_utf8_from zero low high (b ∷ bytes) = elim (lead b) [
  | none ↦ false
  | some (more, low', high') ↦ is_utf8_from more low' high' bytes
]
is_utf8_from (suc more) low high (b ∷ bytes) =
    leb low b && leb b high && is_utf8_from more 128 191 bytes

unfoldable pub is_utf8 : List ℕ → Bool
is_utf8 bytes = is_utf8_from 0 128 191 bytes
