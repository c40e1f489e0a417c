-- ===== src/Server/Reports/Laws.antt =====
-- Reports that src/server2.rs stores: those of an official context.
use dd2_server.Prelude.{
  ℕ, ◌≡◌, refl, Bool, not, ◌&&◌, Option, none, some, if◌then◌else◌, Result, ok, Bool-cases, inl,
  inr,
}
use dd2_server.Player.ContextFlags.{check_flags_sf_mi}
use dd2_server.Router.Values.{Map}
use dd2_server.Router.Context.{new, is_true, on_dd2}
use dd2_server.Router.Context.Laws.{asked, check_official-asked}
use dd2_server.Server.Reports.{stored, on_report_pb_height}

abbrev pub is_official_ctx : ℕ → ℕ → Option Map → Option Bool → Bool
is_official_ctx sf mi map e = not (is_true e) && check_flags_sf_mi sf mi && on_dd2 map

module _ {E R : Type 0} (n sf mi : ℕ) (map : Option Map) (i : Bool) (e : Option Bool) where
  pub on_report_pb_height-exact :
      (update : Result E R) (h : ℕ)
      → ((on_report_pb_height update (some (asked n (new sf mi map i e))) h).writes
          ≡ (if is_official_ctx sf mi map e then some h else none))
        × ((on_report_pb_height update (some (asked n (new sf mi map i e))) h).result
            ≡ (if is_official_ctx sf mi map e then stored update else ok none))
  unfolding on_report_pb_height
  on_report_pb_height-exact update h =
      rw (check_official-asked n sf mi map i e) (elim (Bool-cases (is_official_ctx sf mi map e)) [
        | inl yes_official ↦ rw yes_official (refl, refl)
        | inr unofficial ↦ rw unofficial (refl, refl)
      ])
