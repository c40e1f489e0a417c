-- ===== src/Nadeo/Gbx/Tests.antt =====
-- A chunk table and a comment of src/nadeo.rs, in bytes like those of its own tests.
use dd2_server.Prelude.{ℕ, ◌≤◌, ◌≡◌, refl, some, List, [], ◌∷◌, ◌++◌}
use dd2_server.Nadeo.Gbx.Utf8.{lead, is_utf8_from, is_utf8}
use dd2_server.Nadeo.Gbx.{
  u32_at, is_chunk, entries_at, table_at, scan_tables, parse_header_chunk_table, starts_with,
  position, find_subslice, comments_open, comments_close, found, truncated, missing, attempt,
  extract_after, extract_comments,
}
use dd2_server.Nadeo.Gbx.Laws.{IsTable, parse_header_chunk_table-IsTable}
use dd2_server.Nadeo.Gbx.Comments.{IsComment, extract_comments-IsComment}

-- Eight bytes, a count of one, the chunk of the thumbnail with 16 bytes, and padding.
abbrev head : List ℕ
head =
    71 ∷ 66 ∷ 88 ∷ 6 ∷ 0 ∷ 66 ∷ 85 ∷ 67 ∷ 1 ∷ 0 ∷ 0 ∷ 0 ∷ 7 ∷ 48 ∷ 4 ∷ 3 ∷ 16 ∷ 0 ∷ 0 ∷ 128 ∷ 9 ∷ 9
    ∷ 9 ∷ []

table_found : parse_header_chunk_table head ≡ some (20, (50606087, 2147483664) ∷ [])
unfolding parse_header_chunk_table scan_tables table_at entries_at is_chunk u32_at
table_found = refl

parse_header_chunk_table-IsTable_example :
    (start : ℕ) × (8 ≤ start) × IsTable head start 20 ((50606087, 2147483664) ∷ [])
parse_header_chunk_table-IsTable_example =
    parse_header_chunk_table-IsTable head 20 ((50606087, 2147483664) ∷ []) table_found

-- "hi", with its length twice.
abbrev comment : List ℕ
comment = 255 ∷ comments_open ++ (2 ∷ 0 ∷ 0 ∷ 0 ∷ 2 ∷ 0 ∷ 0 ∷ 0 ∷ 104 ∷ 105 ∷ comments_close)

comment_found : extract_comments comment ≡ found (104 ∷ 105 ∷ [])
unfolding extract_comments extract_after attempt find_subslice position starts_with u32_at is_utf8
    is_utf8_from lead
comment_found = refl

-- A comment that the window cuts, and none.
others :
    (extract_comments (comments_open ++ (2 ∷ 0 ∷ 0 ∷ 0 ∷ 104 ∷ [])) ≡ truncated)
    × (extract_comments (104 ∷ 105 ∷ []) ≡ missing)
unfolding extract_comments extract_after attempt find_subslice position starts_with u32_at is_utf8
    is_utf8_from lead
others = (refl, refl)

extract_comments-IsComment_example :
    (marker consumed : ℕ) × IsComment comment (104 ∷ 105 ∷ []) marker consumed
extract_comments-IsComment_example =
    extract_comments-IsComment comment (104 ∷ 105 ∷ []) comment_found
