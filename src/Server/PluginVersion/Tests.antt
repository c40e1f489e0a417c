-- ===== src/Server/PluginVersion/Tests.antt =====
-- Plugins that src/server2.rs lets in and refuses.
use dd2_server.Prelude.{◌≤◌, ◌≡◌, refl, ◌↔◌, ◌⊎◌, inr, true, some, [], ◌∷◌, String}
use dd2_server.Prelude.Text.{is_empty, strip_prefix, parse_digits, strip_plus, parse_u32}
use dd2_server.Prelude.Text.Split.{is_prefix_of, cut, split, strip_return, ended_lines, lines}
use dd2_server.Server.PluginVersion.{
  parse_parts, version_str_to_parts, find_version, plugin_info_extract_version,
  check_min_plugin_version,
}
use dd2_server.Server.PluginVersion.Laws.{
  check_min_plugin_version-exact, check_min_plugin_version-short,
}

abbrev info : String
info = "Name:Dips++\r\nVersion:0.5.6\nAuthor:XertroV"

abbrev short : String
short = "Version:0.4"

info_parts : version_str_to_parts (plugin_info_extract_version info) ≡ some (0 ∷ 5 ∷ 6 ∷ [])
unfolding version_str_to_parts parse_parts plugin_info_extract_version find_version lines
    ended_lines strip_return cut split is_prefix_of strip_prefix parse_u32 parse_digits strip_plus
    is_empty
info_parts = refl

short_parts : version_str_to_parts (plugin_info_extract_version short) ≡ some (0 ∷ 4 ∷ [])
unfolding version_str_to_parts parse_parts plugin_info_extract_version find_version lines
    ended_lines strip_return cut split is_prefix_of strip_prefix parse_u32 parse_digits strip_plus
    is_empty
short_parts = refl

check_min_plugin_version-exact_example :
    (check_min_plugin_version info ≡ true) ↔ ((1 ≤ 0) ⊎ (5 ≤ 5) ⊎ ((4 ≤ 5) × (15 ≤ 6)))
check_min_plugin_version-exact_example = check_min_plugin_version-exact info 0 5 6 [] info_parts

check_min_plugin_version-short_example : check_min_plugin_version short ≡ true
check_min_plugin_version-short_example =
    check_min_plugin_version-short short (0 ∷ 4 ∷ []) short_parts (inr refl)
