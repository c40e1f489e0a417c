-- ===== src/Nadeo/Gbx.antt =====
-- src/nadeo.rs, the bytes of a map file: `parse_header_chunk_table`, `find_subslice` and
-- `extract_comments`.
pub mod Utf8
pub mod Laws
pub mod Comments
mod Tests
use dd2_server.Prelude.{
  ℕ, zero, suc, ◌+◌, ◌-◌, ◌*◌, ◌/◌, ◌%◌, ◌^◌, Bool, true, false, not, ◌&&◌, ◌||◌, Option, none,
  some, List, [], ◌∷◌, if◌then◌else◌, ltb, leb, nat_eq, ◌==◌, length, get_or, take, drop,
}
use dd2_server.Nadeo.Gbx.Utf8.{is_utf8}

-- `u32::from_le_bytes` of the four bytes at a position.
pub u32_at : List ℕ → ℕ → ℕ
u32_at bytes i =
    get_or bytes i 0
    + 256 * get_or bytes (i + 1) 0
    + 65536 * get_or bytes (i + 2) 0
    + 16777216 * get_or bytes (i + 3) 0

-- A chunk's id and its raw size, whose top bit is a flag.
pub is_chunk : ℕ → ℕ → Bool
is_chunk id raw_size = id / 65536 == 772 && leb (raw_size % 2 ^ 31) (2 ^ 28)

abbrev pub cons_to : {A : Type 0} → A → Option (List A) → Option (List A)
cons_to x none = none
cons_to x (some xs) = some (x ∷ xs)

-- The entries from position `p` on, if all are plausible.
pub entries_at : List ℕ → ℕ → ℕ → Option (List (ℕ × ℕ))
entries_at head zero p = some []
entries_at head (suc count) p =
    let rest = entries_at head count (p + 8) in
    if is_chunk (u32_at head p) (u32_at head (p + 4))
    then cons_to (u32_at head p, u32_at head (p + 4)) rest
    else none

abbrev pub with_offset : ℕ → Option (List (ℕ × ℕ)) → Option (ℕ × List (ℕ × ℕ))
with_offset offset none = none
with_offset offset (some entries) = some (offset, entries)

-- The table whose count stands at `start`.
pub table_at : List ℕ → ℕ → Option (ℕ × List (ℕ × ℕ))
table_at head start =
    let count = u32_at head start in
    let table = start + 4 in
    if not (leb 1 count && leb count 64)
    then none
    else if ltb (length head) (table + count * 8)
    then none
    else with_offset (table + count * 8) (entries_at head count table)

-- The first table at one of the next `n` starts.
pub scan_tables : List ℕ → ℕ → ℕ → Option (ℕ × List (ℕ × ℕ))
scan_tables head zero start = none
scan_tables head (suc n) start =
    let later = scan_tables head n (start + 1) in
    elim (table_at head start) [ none ↦ later | some table ↦ some table ]

pub parse_header_chunk_table : List ℕ → Option (ℕ × List (ℕ × ℕ))
parse_header_chunk_table head = scan_tables head (length head - 12 - 8) 8

pub starts_with : List ℕ → List ℕ → Bool
starts_with bytes [] = true
starts_with [] (p ∷ ps) = false
starts_with (b ∷ bytes) (p ∷ ps) = b == p && starts_with bytes ps

abbrev pub suc_of : Option ℕ → Option ℕ
suc_of none = none
suc_of (some n) = some (suc n)

-- `windows(..).position(..)`: the first place where the needle stands.
pub position : List ℕ → List ℕ → Option ℕ
position [] needle = none
position (b ∷ bytes) needle =
    let later = position bytes needle in
    if starts_with (b ∷ bytes) needle then some 0 else suc_of later

pub find_subslice : List ℕ → List ℕ → Option ℕ
find_subslice haystack [] = none
find_subslice haystack (n ∷ needle) =
    if ltb (length haystack) (length (n ∷ needle)) then none else position haystack (n ∷ needle)

-- "<Comments>" and "</Comments>".
abbrev pub comments_open : List ℕ
comments_open = 60 ∷ 67 ∷ 111 ∷ 109 ∷ 109 ∷ 101 ∷ 110 ∷ 116 ∷ 115 ∷ 62 ∷ []

abbrev pub comments_close : List ℕ
comments_close = 60 ∷ 47 ∷ 67 ∷ 111 ∷ 109 ∷ 109 ∷ 101 ∷ 110 ∷ 116 ∷ 115 ∷ 62 ∷ []

abbrev pub comment_max_len : ℕ
comment_max_len = 32 * 1024

-- The text by its bytes.
pub data Extracted : Type 0 where
  found : (text : List ℕ) → Extracted
  truncated missing : Extracted

-- What one of the two lengths of the header before the text comes to; `missing` where it is not
-- the one.
pub attempt : List ℕ → ℕ → ℕ → Extracted
attempt buf after consumed =
    let len_at = after + consumed - 4 in
    let len = u32_at buf len_at % 2 ^ 31 in
    let start = after + consumed in
    let end = start + len in
    if ltb (length buf) (len_at + 4)
    then truncated
    else if len == 0 || ltb comment_max_len len
    then missing
    else if ltb (length buf) end
    then truncated
    else if not (starts_with (drop end buf) comments_close)
    then missing
    else if is_utf8 (take len (drop start buf))
    then found (take len (drop start buf))
    else missing

abbrev pub is_truncated : Extracted → Bool
is_truncated (found text) = false
is_truncated truncated = true
is_truncated missing = false

-- The second attempt, after the first.
abbrev pub or_second : Extracted → Extracted → Extracted
or_second (found text) second = found text
or_second truncated (found text) = found text
or_second truncated truncated = truncated
or_second truncated missing = truncated
or_second missing second = second

pub extract_after : List ℕ → Option ℕ → Extracted
extract_after buf none = missing
extract_after buf (some marker) =
    let after = marker + length comments_open in
    or_second (attempt buf after 4) (attempt buf after 8)

pub extract_comments : List ℕ → Extracted
extract_comments buf = extract_after buf (find_subslice buf comments_open)
