-- ===== src/Router/Wire/Words.antt =====
-- The words of the wire of src/router.rs: little-endian, four bytes.
use dd2_server.Prelude.{
  ℕ, ◌+◌, ◌*◌, ◌/◌, ◌%◌, ◌^◌, ◌<◌, ◌≡◌, refl, ap, List, [], ◌∷◌, ◌++◌, length, length-append,
  take-append, drop-append, take-append-drop, length-take, All, Result, ok, arith,
}
use dd2_server.Router.Wire.{IoError, write_u32_le, read_u32_le, read_exact}

-- The items of a list are bytes.
abbrev pub IsByte : ℕ → Type 0
IsByte n = n < 256

word_bytes :
    (n : ℕ)
    → n % 256 + 256 * (n / 256 % 256) + 65536 * (n / 65536 % 256) + 16777216 * (n / 16777216 % 256)
      ≡ n % 4294967296
word_bytes n = omega arith

pub read_u32_le-write :
    (n : ℕ) (rest : List ℕ) → read_u32_le (write_u32_le n ++ rest) ≡ ok (n % 2 ^ 32, rest)
unfolding read_u32_le write_u32_le
read_u32_le-write n rest = ap (λ w. ok (w, rest)) (word_bytes n)

bytes_word :
    (a b c d n : ℕ)
    → a < 256
    → b < 256
    → c < 256
    → d < 256
    → a + 256 * b + 65536 * c + 16777216 * d ≡ n
    → (a ≡ n % 256)
      × (b ≡ n / 256 % 256)
      × (c ≡ n / 65536 % 256)
      × (d ≡ n / 16777216 % 256)
      × n < 4294967296
bytes_word a b c d n ha hb hc hd e = omega arith

read_eq :
    (m n : ℕ) (stream rest : List ℕ)
    → ◌≡◌ {A = Result IoError (ℕ × List ℕ)} (ok (m, stream)) (ok (n, rest))
    → (m ≡ n) × (stream ≡ rest)
read_eq m n stream rest e = ground arith

pub read_u32_le_sound :
    (stream : List ℕ) (n : ℕ) (rest : List ℕ)
    → All IsByte stream
    → read_u32_le stream ≡ ok (n, rest)
    → (stream ≡ write_u32_le n ++ rest) × (n < 2 ^ 32) × All IsByte rest
unfolding read_u32_le write_u32_le
read_u32_le_sound [] n rest h e = cc
read_u32_le_sound (a ∷ []) n rest h e = cc
read_u32_le_sound (a ∷ b ∷ []) n rest h e = cc
read_u32_le_sound (a ∷ b ∷ c ∷ []) n rest h e = cc
read_u32_le_sound (a ∷ b ∷ c ∷ d ∷ stream) n rest (ha, (hb, (hc, (hd, h)))) e =
    let (here, there) = read_eq _ n stream rest e in
    let (pa, pb, pc, pd, bound) = bytes_word a b c d n ha hb hc hd here in
    (rw (pa, pb, pc, pd, there) refl, bound, rw there at h)

pub read_exact-append :
    (body rest : List ℕ) → read_exact (length body) (body ++ rest) ≡ ok (body, rest)
unfolding read_exact
read_exact-append body rest =
    ground (arith, length-append body rest, take-append body rest, drop-append body rest)

pub read_exact_sound :
    (n : ℕ) (stream body rest : List ℕ)
    → read_exact n stream ≡ ok (body, rest)
    → (stream ≡ body ++ rest) × (length body ≡ n)
unfolding read_exact
read_exact_sound n stream body rest e =
    ground (arith, length-take n stream, take-append-drop n stream)

digits_mod :
    (n : ℕ)
    → (n % 4294967296 % 256 ≡ n % 256)
      × (n % 4294967296 / 256 % 256 ≡ n / 256 % 256)
      × (n % 4294967296 / 65536 % 256 ≡ n / 65536 % 256)
      × (n % 4294967296 / 16777216 % 256 ≡ n / 16777216 % 256)
digits_mod n = omega arith

pub write_u32_le-mod : (n : ℕ) → write_u32_le (n % 2 ^ 32) ≡ write_u32_le n
unfolding write_u32_le
write_u32_le-mod n = let (a, b, c, d) = digits_mod n in rw (a, b, c, d) refl
