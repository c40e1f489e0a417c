-- ===== src/Nadeo/Gbx/Laws.antt =====
-- What src/nadeo.rs finds in the bytes of a map file is there.
use dd2_server.Prelude.{
  ℕ, zero, suc, ◌+◌, ◌-◌, ◌*◌, ◌/◌, ◌%◌, ◌^◌, ◌<◌, ◌≤◌, ◌≡◌, refl, ap, sym, ◌∙◌, inl, inr, true,
  some, List, [], ◌∷◌, nat_eq, length, All, arith, Bool-cases, Option-cases,
}
use dd2_server.Nadeo.Gbx.{
  u32_at, is_chunk, entries_at, table_at, scan_tables, parse_header_chunk_table,
}

-- The words of a table: `count` pairs of an id and a size from position `p` on.
abbrev pub words : List ℕ → ℕ → ℕ → List (ℕ × ℕ)
words head zero p = []
words head (suc count) p = (u32_at head p, u32_at head (p + 4)) ∷ words head count (p + 8)

abbrev pub IsChunk : ℕ × ℕ → Type 0
IsChunk (id, raw_size) = (id / 65536 ≡ 772) × (raw_size % 2 ^ 31 ≤ 2 ^ 28)

-- A table at `start`: its count is there and between 1 and 64, its entries are the words after it
-- and end within the bytes, at `offset`, and each is a chunk of a map.
pub record IsTable (head : List ℕ) (start offset : ℕ) (entries : List (ℕ × ℕ)) : Type 0 where
  pub count : u32_at head start ≡ length entries
  pub some_entries : 1 ≤ length entries
  pub few_entries : length entries ≤ 64
  pub reads : entries ≡ words head (length entries) (start + 4)
  pub ends : offset ≡ start + 4 + length entries * 8
  pub inside : offset ≤ length head
  pub chunks : All IsChunk entries

is_chunk-IsChunk : (id raw_size : ℕ) → is_chunk id raw_size ≡ true → IsChunk (id, raw_size)
unfolding is_chunk
is_chunk-IsChunk id raw_size h = ground (arith, nat_eq.beq_iff (id / 65536) 772)

entries_at_sound :
    (head : List ℕ) (count p : ℕ) (entries : List (ℕ × ℕ))
    → entries_at head count p ≡ some entries
    → (length entries ≡ count) × (entries ≡ words head count p) × All IsChunk entries
unfolding entries_at
entries_at_sound head zero p [] e = (refl, refl, tt)
entries_at_sound head zero p (entry ∷ entries) e = absurd (ground (arith, e))
entries_at_sound head (suc count) p entries e =
    elim (Bool-cases (is_chunk (u32_at head p) (u32_at head (p + 4)))) [
      | inl chunk ↦ elim (Option-cases (entries_at head count (p + 8))) [
        | inl bad ↦ absurd (ground (arith, e, chunk, bad))
        | inr (rest, good) ↦
            let (size, reads, chunks) = entries_at_sound head count (p + 8) rest good in
            let parts : (u32_at head p, u32_at head (p + 4)) ∷ rest ≡ entries =
              ground (arith, e, chunk, good) in
            rw⁻¹ parts (
              ap (λ (n : ℕ). suc n) size,
              ap (λ es. (u32_at head p, u32_at head (p + 4)) ∷ es) reads,
              (is_chunk-IsChunk _ _ chunk, chunks),
            )
      ]
      | inr other ↦ absurd (ground (arith, e, other))
    ]

table_at-IsTable :
    (head : List ℕ) (start offset : ℕ) (entries : List (ℕ × ℕ))
    → table_at head start ≡ some (offset, entries)
    → IsTable head start offset entries
unfolding table_at
table_at-IsTable head start offset entries e =
    elim (Option-cases (entries_at head (u32_at head start) (start + 4))) [
      | inl bad ↦ absurd (ground (arith, e, bad))
      | inr (found_entries, good) ↦
          let (size, reads, chunks) =
            entries_at_sound head (u32_at head start) (start + 4) found_entries good in
          let parts : found_entries ≡ entries = ground (arith, e, good) in
          rw⁻¹ parts (record {
            count = sym size;
            some_entries = ground (arith, e, good, size);
            few_entries = ground (arith, e, good, size);
            reads = rw size reads;
            ends = ground (arith, e, good, size);
            inside = ground (arith, e, good, size);
            chunks = chunks;
          })
    ]

scan_tables-IsTable :
    (head : List ℕ) (n start offset : ℕ) (entries : List (ℕ × ℕ))
    → scan_tables head n start ≡ some (offset, entries)
    → (at : ℕ) × (start ≤ at) × (at < start + n) × IsTable head at offset entries
unfolding scan_tables
scan_tables-IsTable head zero start offset entries e = absurd (ground (arith, e))
scan_tables-IsTable head (suc n) start offset entries e =
    elim (Option-cases (table_at head start)) [
      | inl bad ↦
          let (at, low, high, table) =
            scan_tables-IsTable head n (start + 1) offset entries (rw (bad, scan_tables) at e) in
          (at, omega (arith, low), omega (arith, high), table)
      | inr ((o, es), good) ↦
          let same : table_at head start ≡ some (offset, entries) =
            good ∙ (rw (good, scan_tables) at e) in
          (start, omega arith, omega arith, table_at-IsTable head start offset entries same)
    ]

-- A header's chunk table that is found stands in the bytes, at or after byte 8: its count is from 1
-- to 64, its entries are the words that follow, each of a map's class and of at most 2 ^ 28 bytes,
-- and its end, where the chunks' data starts, is within the bytes.
pub parse_header_chunk_table-IsTable :
    (head : List ℕ) (offset : ℕ) (entries : List (ℕ × ℕ))
    → parse_header_chunk_table head ≡ some (offset, entries)
    → (start : ℕ) × (8 ≤ start) × IsTable head start offset entries
unfolding parse_header_chunk_table
parse_header_chunk_table-IsTable head offset entries e =
    let (start, low, high, table) =
      scan_tables-IsTable head (length head - 12 - 8) 8 offset entries e in
    (start, low, table)
