-- ===== src/Server/PluginVersion.antt =====
-- src/server2.rs: the version that a plugin reports, and the least that is let in.
pub mod Laws
mod Tests
use dd2_server.Prelude.{
  ℕ, Bool, true, false, not, Option, none, some, List, [], ◌∷◌, String, if◌then◌else◌, ltb,
}
use dd2_server.Prelude.Text.{parse_u32}
use dd2_server.Prelude.Text.Split.{split, lines, is_prefix_of}

abbrev pub min_plugin_version : List ℕ
min_plugin_version = 0 ∷ 4 ∷ 15 ∷ []

pub version_less : List ℕ → List ℕ → Bool
version_less [] v2 = false
version_less (a ∷ v1) [] = false
version_less (a ∷ v1) (b ∷ v2) =
    let rest = version_less v1 v2 in if ltb a b then true else if ltb b a then false else rest

abbrev pub cons_to : Option ℕ → Option (List ℕ) → Option (List ℕ)
cons_to none parts = none
cons_to (some part) none = none
cons_to (some part) (some parts) = some (part ∷ parts)

pub parse_parts : List String → Option (List ℕ)
parse_parts [] = some []
parse_parts (s ∷ strings) = cons_to (parse_u32 s) (parse_parts strings)

-- Parts are separated by ".", whose code is 46.
pub version_str_to_parts : String → Option (List ℕ)
version_str_to_parts version = parse_parts (split 46 version)

abbrev pub last_of : String → List String → String
last_of s [] = s
last_of s (t ∷ strings) = last_of t strings

pub find_version : List String → String
find_version [] = "0.0.0"
find_version (line ∷ rest) =
    let later = find_version rest in
    if is_prefix_of "Version:" line then last_of line (split 58 line) else later

-- What follows the last ":" of the first line that starts with "Version:".
pub plugin_info_extract_version : String → String
plugin_info_extract_version plugin_info = find_version (lines plugin_info)

abbrev pub parts_or_zero : Option (List ℕ) → List ℕ
parts_or_zero none = 0 ∷ 0 ∷ 0 ∷ []
parts_or_zero (some parts) = parts

-- Whether the plugin is let in; one that is not waits 10 seconds for its error.
pub check_min_plugin_version : String → Bool
check_min_plugin_version plugin_info = not (
    version_less (parts_or_zero (version_str_to_parts (plugin_info_extract_version plugin_info)))
      min_plugin_version)
