-- ===== src/Server/PluginVersion/Laws.antt =====
-- The order of versions in src/server2.rs, and the plugins that it lets in.
use dd2_server.Prelude.{
  ℕ, ◌≡◌, ◌≤◌, refl, ◌↔◌, ◌⊎◌, inl, inr, true, false, some, List, [], ◌∷◌, String, nat_eq, arith,
}
use dd2_server.Server.PluginVersion.{
  version_less, version_str_to_parts, plugin_info_extract_version, check_min_plugin_version,
}

version_less-nil : (v : List ℕ) → version_less v [] ≡ false
unfolding version_less
version_less-nil [] = refl
version_less-nil (a ∷ v) = refl

-- A version of three parts or more is let in exactly when it is at least 0.4.15, by its first three
-- parts in order.
pub check_min_plugin_version-exact :
    (plugin_info : String) (a b c : ℕ) (rest : List ℕ)
    → version_str_to_parts (plugin_info_extract_version plugin_info) ≡ some (a ∷ b ∷ c ∷ rest)
    → (check_min_plugin_version plugin_info ≡ true) ↔ ((1 ≤ a) ⊎ (5 ≤ b) ⊎ ((4 ≤ b) × (15 ≤ c)))
unfolding check_min_plugin_version version_less
check_min_plugin_version-exact plugin_info a b c rest h = ground (arith, h, version_less-nil rest)

pub check_min_plugin_version-short :
    (plugin_info : String) (v : List ℕ)
    → version_str_to_parts (plugin_info_extract_version plugin_info) ≡ some v
    → (v ≡ 0 ∷ []) ⊎ (v ≡ 0 ∷ 4 ∷ [])
    → check_min_plugin_version plugin_info ≡ true
unfolding check_min_plugin_version version_less
check_min_plugin_version-short plugin_info v h (inl e) = rw (h, e) refl
check_min_plugin_version-short plugin_info v h (inr e) = rw (h, e) refl
