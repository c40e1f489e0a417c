-- ===== src/Prelude/Text/Split.antt =====
-- Texts cut at a character, and into lines.
use Prim.Native.Nat.{ℕ}
use Prim.Native.Char.{Char, code}
use Prim.Native.String.{String, [], ◌∷◌}
use mathlib.Core.Bool.{Bool, true, false, ◌&&◌}
use mathlib.Core.Option.{Option, none, some}
use mathlib.Core.List.{List, [] as no_pieces, ◌∷◌ as ◌◁◌}
use dd2_server.Prelude.Tests.{if◌then◌else◌, nat_beq}
use dd2_server.Prelude.Text.{is_empty, strip_prefix}

abbrev pub is_some : {A : Type 0} → Option A → Bool
is_some none = false
is_some (some a) = true

-- `str::starts_with`.
unfoldable pub is_prefix_of : String → String → Bool
unfolding strip_prefix
is_prefix_of prefix s = is_some (strip_prefix prefix s)

-- The first piece, and those after it.
unfoldable pub cut : ℕ → String → String × List String
cut separator [] = ([], no_pieces)
cut separator (c ∷ s) =
    let (first, rest) = cut separator s in
    if nat_beq (code c) separator then ([], first ◁ rest) else (c ∷ first, rest)

-- `str::split` at a character, by its code.
unfoldable pub split : ℕ → String → List String
unfolding cut
split separator s = let (first, rest) = cut separator s in first ◁ rest

unfoldable pub strip_return : String → String
strip_return [] = []
strip_return (c ∷ s) =
    let rest = strip_return s in if is_empty s && nat_beq (code c) 13 then [] else c ∷ rest

-- A line that ends loses its "\r"; after the last there is none.
unfoldable pub ended_lines : String → List String → List String
unfolding strip_return
ended_lines last no_pieces = if is_empty last then no_pieces else last ◁ no_pieces
ended_lines line (next ◁ rest) = strip_return line ◁ ended_lines next rest

-- `str::lines`.
unfoldable pub lines : String → List String
unfolding cut ended_lines
lines s = let (first, rest) = cut 10 s in ended_lines first rest

abbrev pub push_first : Char → Option (String × String) → Option (String × String)
push_first c none = none
push_first c (some (before, after)) = some (c ∷ before, after)

-- `str::split_once` at a character, by its code.
unfoldable pub split_once : ℕ → String → Option (String × String)
split_once separator [] = none
split_once separator (c ∷ s) =
    let rest = split_once separator s in
    if nat_beq (code c) separator then some ([], s) else push_first c rest
