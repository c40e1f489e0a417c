-- ===== src/Player/ContextFlags.antt =====
-- src/player.rs, the context flags: fifteen Booleans that the plugin packs into a `u64` as a
-- product of coefficients. The `i32` tables with -1 for "no entry" are lists of `Option`.
mod RoundTrip
mod Tests
use dd2_server.Prelude.{
  ℕ, zero, suc, ◌+◌, ◌*◌, ◌/◌, ◌%◌, ◌^◌, Bool, true, false, not, ◌&&◌, ◌||◌, Option, none, some,
  List, [], ◌∷◌, if◌then◌else◌, ltb, ◌==◌, nat_eq, get_elem?, set, get_or,
}

abbrev pub u64_mod : ℕ
u64_mod = 2 ^ 64

abbrev pub context_coefficients : List ℕ
context_coefficients = 69 ∷ 59 ∷ 136 ∷ 1 ∷ 26 ∷ 77 ∷ 41 ∷ 1 ∷ 95 ∷ 53 ∷ 1 ∷ 1 ∷ 86 ∷ 62 ∷ 89 ∷ []

abbrev pub cypher_to_plain : List (Option ℕ)
cypher_to_plain =
    some 6
    ∷ some 1
    ∷ some 14
    ∷ none
    ∷ some 12
    ∷ some 0
    ∷ some 8
    ∷ none
    ∷ some 13
    ∷ some 5
    ∷ none
    ∷ none
    ∷ some 2
    ∷ some 4
    ∷ some 9
    ∷ []

abbrev pub plain_to_cypher : List (Option ℕ)
plain_to_cypher =
    some 5
    ∷ some 1
    ∷ some 12
    ∷ none
    ∷ some 13
    ∷ some 9
    ∷ some 0
    ∷ none
    ∷ some 6
    ∷ some 14
    ∷ none
    ∷ none
    ∷ some 4
    ∷ some 8
    ∷ some 2
    ∷ []

-- `none` here is the panic of an index out of range.
abbrev pub mapped : ℕ → Option (Option ℕ) → Option ℕ
mapped i none = none
mapped i (some none) = some i
mapped i (some (some j)) = some j

pub context_map_cypher_to_plain : ℕ → Option ℕ
context_map_cypher_to_plain cypher = mapped cypher (get_elem? cypher_to_plain cypher)

pub context_map_plain_to_cypher : ℕ → Option ℕ
context_map_plain_to_cypher plain = mapped plain (get_elem? plain_to_cypher plain)

-- `while ret & 1 == 0 { ret = ret >> 1; }`, for a 64-bit `ret`, on fuel. At 0 the loop of the
-- source does not end.
pub trim : ℕ → ℕ → ℕ
trim zero ret = ret
trim (suc fuel) ret = elim (ret % 2 == 0) [ true ↦ trim fuel (ret / 2) | false ↦ ret ]

abbrev pub coefficient : Option ℕ → ℕ
coefficient none = 1
coefficient (some c) = elim (get_elem? context_coefficients c) [ none ↦ 1 | some v ↦ v ]

-- One round of the loop of `encode_context_flags`.
pub encode_round : Bool → ℕ → ℕ → ℕ
unfolding trim context_map_plain_to_cypher
encode_round on i ret =
    trim 64 (if on then (ret * coefficient (context_map_plain_to_cypher i)) % u64_mod else ret)

pub encode_from : ℕ → List Bool → ℕ → ℕ
unfolding encode_round
encode_from i [] ret = ret
encode_from i (on ∷ rest) ret = encode_from (i + 1) rest (encode_round on i ret)

pub encode_context_flags : List Bool → ℕ
unfolding encode_from
encode_context_flags arr = encode_from 0 arr 1

-- `[false; 15]`
abbrev pub no_flags : List Bool
no_flags =
    false ∷ false ∷ false ∷ false ∷ false ∷ false ∷ false ∷ false ∷ false ∷ false ∷ false ∷ false
    ∷ false ∷ false ∷ false ∷ []

-- `while c & 1 == 0 && c > 0 { c = c >> 1; }`, for a 64-bit `c`.
pub halve_even : ℕ → ℕ → ℕ
halve_even zero c = c
halve_even (suc fuel) c = elim (c % 2 == 0 && ltb 0 c) [
  | true ↦ halve_even fuel (c / 2)
  | false ↦ c
]

abbrev pub set_plain : Option ℕ → List Bool → List Bool
set_plain none plain = plain
set_plain (some p) plain = set plain p true

-- One round of the loop of `decode_context_flags` on `plain` and `flags`.
pub decode_round : ℕ → ℕ → List Bool × ℕ → List Bool × ℕ
unfolding halve_even context_map_cypher_to_plain
decode_round i coeff (plain, flags) =
    if ltb coeff 2
    then (plain, flags)
    else (let c = halve_even 64 coeff in
        if flags % c == 0
        then (set_plain (context_map_cypher_to_plain i) plain, flags / c)
        else (plain, flags))

pub decode_from : ℕ → List ℕ → List Bool × ℕ → List Bool
unfolding decode_round
decode_from i [] (plain, flags) = plain
decode_from i (coeff ∷ rest) s = decode_from (i + 1) rest (decode_round i coeff s)

pub decode_context_flags : ℕ → List Bool
unfolding decode_from
decode_context_flags flags =
    if flags == 0 then no_flags else decode_from 0 context_coefficients (no_flags, flags)

-- "return true if not in editor"; `mi` is not read.
pub check_flags_sf_mi : ℕ → ℕ → Bool
check_flags_sf_mi sf mi =
    let sfs = decode_context_flags sf in
    if get_or sfs 5 false || get_or sfs 7 false || get_or sfs 9 false || get_or sfs 11 false
    then false
    else get_or sfs 2 false || get_or sfs 3 false || get_or sfs 4 false
