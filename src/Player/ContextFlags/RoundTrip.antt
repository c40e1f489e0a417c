-- ===== src/Player/ContextFlags/RoundTrip.antt =====
-- src/player.rs: decoding the encoded flags gives the flags back.
use dd2_server.Prelude.{
  ℕ, zero, suc, ◌+◌, ◌*◌, ◌/◌, ◌%◌, ◌<◌, ◌≤◌, ◌≡◌, refl, Bool, true, false, not, ◌&&◌, List, [],
  ◌∷◌, if◌then◌else◌, ◌==◌, nat_eq, length, ap, arith, Bool-cases, inl, inr, ◌↔◌, ◌⊎◌,
}
use dd2_server.Player.ContextFlags.{
  u64_mod, trim, encode_round, encode_from, encode_context_flags, decode_context_flags,
  context_map_plain_to_cypher, coefficient, check_flags_sf_mi,
}

trim-le : (fuel ret : ℕ) → trim fuel ret ≤ ret
unfolding trim
trim-le zero ret = omega arith
trim-le (suc fuel) ret = elim (Bool-cases (ret % 2 == 0)) [
  | inl even ↦ rw (even, trim) (omega (arith, trim-le fuel (ret / 2)))
  | inr odd ↦ rw (odd, trim) (omega arith)
]

encode_round-lt : (on : Bool) (i ret : ℕ) → ret < u64_mod → encode_round on i ret < u64_mod
unfolding encode_round
encode_round-lt true i ret h =
    omega (arith, trim-le 64 ((ret * coefficient (context_map_plain_to_cypher i)) % u64_mod))
encode_round-lt false i ret h = omega (arith, trim-le 64 ret)

-- A flag with no place in the tables has the coefficient 1 and is lost.
encode_round_unmapped :
    (on : Bool) (i ret : ℕ)
    → coefficient (context_map_plain_to_cypher i) ≡ 1
    → ret < u64_mod
    → encode_round on i ret ≡ encode_round false i ret
unfolding encode_round
encode_round_unmapped true i ret e h =
    rw e (ap (trim 64) {x = (ret * 1) % u64_mod} {y = ret} (omega arith))
encode_round_unmapped false i ret e h = refl

all_flags : ℕ → (List Bool → Bool) → Bool
all_flags zero p = p []
all_flags (suc n) p = all_flags n (λ bs. p (true ∷ bs)) && all_flags n (λ bs. p (false ∷ bs))

all_flags_sound :
    (bs : List Bool) (p : List Bool → Bool) → all_flags (length bs) p ≡ true → p bs ≡ true
unfolding all_flags
all_flags_sound [] p h = h
all_flags_sound (true ∷ bs) p h = all_flags_sound bs (λ bs. p (true ∷ bs)) (ground arith)
all_flags_sound (false ∷ bs) p h = all_flags_sound bs (λ bs. p (false ∷ bs)) (ground arith)

bool_beq : Bool → Bool → Bool
bool_beq true b = b
bool_beq false b = not b

flags_beq : List Bool → List Bool → Bool
unfolding bool_beq
flags_beq [] [] = true
flags_beq (a ∷ as') (b ∷ bs) = bool_beq a b && flags_beq as' bs
flags_beq _ _ = false

flags_beq-eq : (as' bs : List Bool) → flags_beq as' bs ≡ true → as' ≡ bs
unfolding flags_beq
flags_beq-eq [] [] h = refl
flags_beq-eq [] (b ∷ bs) h = cc
flags_beq-eq (a ∷ as') [] h = cc
flags_beq-eq (a ∷ as') (b ∷ bs) h = ground (arith, flags_beq-eq as' bs)

-- The eleven mapped flags at their places.
abbrev spread : List Bool → List Bool
spread (b0 ∷ b1 ∷ b2 ∷ b4 ∷ b5 ∷ b6 ∷ b8 ∷ b9 ∷ b12 ∷ b13 ∷ b14 ∷ []) =
    b0 ∷ b1 ∷ b2 ∷ false ∷ b4 ∷ b5 ∷ b6 ∷ false ∷ b8 ∷ b9 ∷ false ∷ false ∷ b12 ∷ b13 ∷ b14 ∷ []
spread bs = bs

-- The round trip of the eleven flags that the tables map, as a test.
trip : List Bool → Bool
unfolding flags_beq
trip bs = flags_beq (decode_context_flags (encode_context_flags (spread bs))) (spread bs)

trip_table : all_flags 11 trip ≡ true
unfolding all_flags trip encode_context_flags decode_context_flags
trip_table = refl

-- The flags that the tables leave out, set to false.
without_unmapped : ℕ → List Bool → List Bool
without_unmapped i [] = []
without_unmapped i (b ∷ bs) =
    (if coefficient (context_map_plain_to_cypher i) == 1 then false else b)
    ∷ without_unmapped (i + 1) bs

encode_from-without_unmapped :
    (i : ℕ) (bs : List Bool) (ret : ℕ)
    → ret < u64_mod
    → encode_from i bs ret ≡ encode_from i (without_unmapped i bs) ret
unfolding encode_from without_unmapped
encode_from-without_unmapped i [] ret h = refl
encode_from-without_unmapped i (b ∷ bs) ret h =
    elim (Bool-cases (coefficient (context_map_plain_to_cypher i) == 1)) [
      | inl one ↦ rw one (
          rw (encode_round_unmapped b i ret ((nat_eq.beq_iff _ _).0 one) h)
            (encode_from-without_unmapped (i + 1) bs _ (encode_round-lt false i ret h)))
      | inr more ↦ rw more (encode_from-without_unmapped (i + 1) bs _ (encode_round-lt b i ret h))
    ]

odd_table : all_flags 11 (λ bs. encode_from 0 (spread bs) 1 % 2 == 1) ≡ true
unfolding all_flags encode_from
odd_table = refl

module _ (b0 b1 b2 b3 b4 b5 b6 b7 b8 b9 b10 b11 b12 b13 b14 : Bool) where
  abbrev pub flags : List Bool
  flags = b0 ∷ b1 ∷ b2 ∷ b3 ∷ b4 ∷ b5 ∷ b6 ∷ b7 ∷ b8 ∷ b9 ∷ b10 ∷ b11 ∷ b12 ∷ b13 ∷ b14 ∷ []

  abbrev pub mapped_flags : List Bool
  mapped_flags =
      b0 ∷ b1 ∷ b2 ∷ false ∷ b4 ∷ b5 ∷ b6 ∷ false ∷ b8 ∷ b9 ∷ false ∷ false ∷ b12 ∷ b13 ∷ b14 ∷ []

  pub encode-mapped_flags : encode_context_flags flags ≡ encode_context_flags mapped_flags
  unfolding encode_context_flags without_unmapped
  encode-mapped_flags = encode_from-without_unmapped 0 flags 1 (omega arith)

  -- Decoding what was encoded gives each flag back, except the flags 3, 7, 10 and 11, which the
  -- encoding has no place for: those come back false.
  pub decode-encode : decode_context_flags (encode_context_flags flags) ≡ mapped_flags
  unfolding trip
  decode-encode = rw encode-mapped_flags (
      flags_beq-eq _ _ (
        all_flags_sound (b0 ∷ b1 ∷ b2 ∷ b4 ∷ b5 ∷ b6 ∷ b8 ∷ b9 ∷ b12 ∷ b13 ∷ b14 ∷ []) trip
          trip_table))

  -- The encoding is odd: the loop that halves an even `ret`, which would not end at 0, has ended
  -- within its 64 rounds.
  pub encode-odd : encode_context_flags flags % 2 ≡ 1
  unfolding encode_context_flags
  encode-odd = rw encode-mapped_flags (
      (nat_eq.beq_iff _ _).0 (
        all_flags_sound (b0 ∷ b1 ∷ b2 ∷ b4 ∷ b5 ∷ b6 ∷ b8 ∷ b9 ∷ b12 ∷ b13 ∷ b14 ∷ [])
          (λ bs. encode_from 0 (spread bs) 1 % 2 == 1) odd_table))

  -- Of the encoded flags, `check_flags_sf_mi` accepts exactly those with flag 2 or 4 set and
  -- neither 5 nor 9. The flags 3, 7 and 11, which its tests name too, change nothing.
  pub check_flags_sf_mi-encode :
      (mi : ℕ)
      → (check_flags_sf_mi (encode_context_flags flags) mi ≡ true)
        ↔ ((b5 ≡ false) × (b9 ≡ false) × ((b2 ≡ true) ⊎ (b4 ≡ true)))
  unfolding check_flags_sf_mi
  check_flags_sf_mi-encode mi = rw decode-encode (ground arith)
