-- ===== src/Nadeo/Gbx/Comments.antt =====
-- The comment that src/nadeo.rs extracts from the bytes of a map stands in them, between its
-- markers.
use dd2_server.Prelude.{
  ℕ, zero, suc, ◌+◌, ◌-◌, ◌%◌, ◌^◌, ◌≤◌, ◌≡◌, refl, sym, ◌⊎◌, inl, inr, true, Option, none, some,
  List, [], ◌∷◌, nat_eq, length, take, drop, length-take, arith, Bool-cases, Option-cases,
}
use dd2_server.Nadeo.Gbx.Utf8.{is_utf8}
use dd2_server.Nadeo.Gbx.{
  u32_at, starts_with, position, find_subslice, comments_open, comments_close, Extracted, found,
  truncated, missing, attempt, or_second, extract_after, extract_comments,
}

position-starts :
    (bytes needle : List ℕ) (n : ℕ)
    → position bytes needle ≡ some n
    → starts_with (drop n bytes) needle ≡ true
unfolding position
position-starts [] needle n e = absurd (ground (arith, e))
position-starts (b ∷ bytes) needle n e = elim (Bool-cases (starts_with (b ∷ bytes) needle)) [
  | inl here ↦ let first : 0 ≡ n = ground (arith, e, here) in rw⁻¹ first here
  | inr later ↦ elim (Option-cases (position bytes needle)) [
    | inl bad ↦ absurd (ground (arith, e, later, bad))
    | inr (m, good) ↦
        let next : suc m ≡ n = ground (arith, e, later, good) in
        rw⁻¹ next (position-starts bytes needle m good)
  ]
]

find_subslice-starts :
    (haystack needle : List ℕ) (n : ℕ)
    → find_subslice haystack needle ≡ some n
    → starts_with (drop n haystack) needle ≡ true
unfolding find_subslice
find_subslice-starts haystack [] n e = absurd (ground (arith, e))
find_subslice-starts haystack (x ∷ needle) n e =
    position-starts haystack (x ∷ needle) n (ground (arith, e))

-- A comment after the opening marker at `marker`: `consumed` bytes that end in its length, then the
-- comment itself, of 1 to 32,768 bytes, all of it there, and then the closing marker.
pub record IsComment (buf text : List ℕ) (marker consumed : ℕ) : Type 0 where
  pub opens : starts_with (drop marker buf) comments_open ≡ true
  pub lengths : (consumed ≡ 4) ⊎ (consumed ≡ 8)
  pub sized : u32_at buf (marker + 10 + consumed - 4) % 2 ^ 31 ≡ length text
  pub not_empty : 1 ≤ length text
  pub bounded : length text ≤ 32768
  pub reads : text ≡ take (length text) (drop (marker + 10 + consumed) buf)
  pub closes : starts_with (drop (marker + 10 + consumed + length text) buf) comments_close ≡ true
  pub utf8 : is_utf8 text ≡ true

length-drop : (n : ℕ) (xs : List ℕ) → length (drop n xs) ≡ length xs - n
length-drop zero xs = omega arith
length-drop (suc n) [] = omega arith
length-drop (suc n) (x ∷ xs) = omega (arith, length-drop n xs)

length-taken :
    (len start : ℕ) (buf : List ℕ)
    → start + len ≤ length buf
    → length (take len (drop start buf)) ≡ len
length-taken len start buf h =
    let size = length-drop start buf in length-take len (drop start buf) (omega (arith, h, size))

attempt-IsComment :
    (buf text : List ℕ) (marker consumed : ℕ)
    → starts_with (drop marker buf) comments_open ≡ true
    → (consumed ≡ 4) ⊎ (consumed ≡ 8)
    → attempt buf (marker + 10) consumed ≡ found text
    → IsComment buf text marker consumed
unfolding attempt
attempt-IsComment buf text marker consumed opens lengths e =
    let len : ℕ = u32_at buf (marker + 10 + consumed - 4) % 2 ^ 31 in
    let start : ℕ = marker + 10 + consumed in
    let fits : start + len ≤ length buf = ground (arith, e) in
    let same : take len (drop start buf) ≡ text = ground (arith, e) in
    let size : length text ≡ len = rw⁻¹ same (length-taken len start buf fits) in
    let closes : starts_with (drop (start + len) buf) comments_close ≡ true = ground (arith, e) in
    let valid : is_utf8 (take len (drop start buf)) ≡ true = ground (arith, e) in
    record {
      opens = opens;
      lengths = lengths;
      sized = sym size;
      not_empty = ground (arith, e, size);
      bounded = ground (arith, e, size);
      reads = rw size (sym same);
      closes = rw size closes;
      utf8 = rw same at valid;
    }

second_found :
    (a b : Extracted) (text : List ℕ)
    → or_second a b ≡ found text
    → (a ≡ found text) ⊎ (b ≡ found text)
second_found (found t) b text e = inl e
second_found truncated (found t) text e = inr e
second_found truncated truncated text e = absurd (ground (arith, e))
second_found truncated missing text e = absurd (ground (arith, e))
second_found missing b text e = inr e

extract_after-IsComment :
    (buf text : List ℕ) (o : Option ℕ)
    → find_subslice buf comments_open ≡ o
    → extract_after buf o ≡ found text
    → (marker consumed : ℕ) × IsComment buf text marker consumed
unfolding extract_after
extract_after-IsComment buf text none at e = absurd (ground (arith, e))
extract_after-IsComment buf text (some marker) at e =
    let opens = find_subslice-starts buf comments_open marker at in
    elim (second_found (attempt buf (marker + 10) 4) (attempt buf (marker + 10) 8) text e) [
      | inl first ↦ (marker, 4, attempt-IsComment buf text marker 4 opens (inl refl) first)
      | inr second ↦ (marker, 8, attempt-IsComment buf text marker 8 opens (inr refl) second)
    ]

-- A comment that is found stands in the bytes: after an opening marker and one or two lengths, the
-- last of them its own; it has from 1 to 32,768 bytes, is UTF-8, and the closing marker follows it.
pub extract_comments-IsComment :
    (buf text : List ℕ)
    → extract_comments buf ≡ found text
    → (marker consumed : ℕ) × IsComment buf text marker consumed
unfolding extract_comments
extract_comments-IsComment buf text e =
    extract_after-IsComment buf text (find_subslice buf comments_open) refl e
