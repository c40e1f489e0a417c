-- ===== src/Router/Request/Codes.antt =====
-- The codes of src/router.rs, `Request`, and its names: which determines which.
use dd2_server.Prelude.{◌≡◌, refl, ◌↔◌, some, string_eq, nat_eq, arith}
use dd2_server.Prelude.HashMap
use dd2_server.Prelude.HashMap.{HashMap}
use dd2_server.Router.Request.{
  Request, ty, authenticate, resume_session, report_context, report_gc_nod_msg, ping,
  report_vehicle_state, report_respawn, report_finish, report_fall_start, report_fall_end,
  report_stats, report_pb_height, report_player_color, report_twitch, downgrade_stats,
  report_map_curr_pos, report_custom_map_aux_spec, delete_custom_map_aux_spec,
  list_custom_map_aux_specs, report_map_stats, report_minigame_attempt, report_minigame_map,
  report_collectible_unlock, report_collectible_collect, report_hat_unlock, report_hat_equip,
  get_my_stats, get_global_lb, get_friends_lb, get_global_overview, get_server_stats, get_my_rank,
  get_players_pb, get_donations, get_gfm_donations, get_twitch, get_my_profile, set_my_profile,
  get_my_preferences, set_my_preferences, get_users_profile, get_players_spec_info,
  get_map_overview, get_map_lb, get_map_live, get_map_my_rank, get_map_rank, get_minigame_lb,
  get_minigame_my_rank, get_minigame_list, get_collectible_list, get_collectible_mine,
  get_hats_mine, get_hats_on_map, get_secret_assets, stress_me,
}
use dd2_server.Router.Request.Names.{name}
use dd2_server.Router.Request.Tables.{discriminants, names}

-- The code that requests are checked by is, for every request, the discriminant that the
-- declaration of the enum gives its variant.
pub ty-discriminants :
    {J : Type 0} (r : Request J) → HashMap.get (name r) discriminants ≡ some (ty r)
unfolding ty name HashMap.get
ty-discriminants (authenticate _ _ _ _) = refl
ty-discriminants (resume_session _ _ _ _) = refl
ty-discriminants (report_context _ _ _ _ _ _) = refl
ty-discriminants (report_gc_nod_msg _) = refl
ty-discriminants ping = refl
ty-discriminants (report_vehicle_state _ _ _) = refl
ty-discriminants (report_respawn _) = refl
ty-discriminants (report_finish _) = refl
ty-discriminants (report_fall_start _ _ _ _) = refl
ty-discriminants (report_fall_end _ _ _) = refl
ty-discriminants (report_stats _) = refl
ty-discriminants (report_pb_height _) = refl
ty-discriminants (report_player_color _ _) = refl
ty-discriminants (report_twitch _) = refl
ty-discriminants (downgrade_stats _) = refl
ty-discriminants (report_map_curr_pos _ _ _) = refl
ty-discriminants (report_custom_map_aux_spec _ _ _) = refl
ty-discriminants (delete_custom_map_aux_spec _ _) = refl
ty-discriminants (list_custom_map_aux_specs _) = refl
ty-discriminants (report_map_stats _ _) = refl
ty-discriminants (report_minigame_attempt _ _ _ _ _) = refl
ty-discriminants (report_minigame_map _ _) = refl
ty-discriminants (report_collectible_unlock _ _ _) = refl
ty-discriminants (report_collectible_collect _ _ _ _ _ _ _) = refl
ty-discriminants (report_hat_unlock _ _ _) = refl
ty-discriminants (report_hat_equip _ _) = refl
ty-discriminants get_my_stats = refl
ty-discriminants (get_global_lb _ _) = refl
ty-discriminants (get_friends_lb _) = refl
ty-discriminants get_global_overview = refl
ty-discriminants get_server_stats = refl
ty-discriminants get_my_rank = refl
ty-discriminants (get_players_pb _) = refl
ty-discriminants get_donations = refl
ty-discriminants get_gfm_donations = refl
ty-discriminants (get_twitch _) = refl
ty-discriminants get_my_profile = refl
ty-discriminants (set_my_profile _) = refl
ty-discriminants get_my_preferences = refl
ty-discriminants (set_my_preferences _) = refl
ty-discriminants (get_users_profile _) = refl
ty-discriminants (get_players_spec_info _ _) = refl
ty-discriminants (get_map_overview _) = refl
ty-discriminants (get_map_lb _ _ _) = refl
ty-discriminants (get_map_live _) = refl
ty-discriminants (get_map_my_rank _) = refl
ty-discriminants (get_map_rank _ _) = refl
ty-discriminants (get_minigame_lb _ _ _ _) = refl
ty-discriminants (get_minigame_my_rank _ _) = refl
ty-discriminants (get_minigame_list _) = refl
ty-discriminants (get_collectible_list _) = refl
ty-discriminants (get_collectible_mine _) = refl
ty-discriminants (get_hats_mine _) = refl
ty-discriminants (get_hats_on_map _) = refl
ty-discriminants get_secret_assets = refl
ty-discriminants stress_me = refl

names-ty : {J : Type 0} (r : Request J) → HashMap.get (ty r) names ≡ some (name r)
unfolding ty name HashMap.get
names-ty (authenticate _ _ _ _) = refl
names-ty (resume_session _ _ _ _) = refl
names-ty (report_context _ _ _ _ _ _) = refl
names-ty (report_gc_nod_msg _) = refl
names-ty ping = refl
names-ty (report_vehicle_state _ _ _) = refl
names-ty (report_respawn _) = refl
names-ty (report_finish _) = refl
names-ty (report_fall_start _ _ _ _) = refl
names-ty (report_fall_end _ _ _) = refl
names-ty (report_stats _) = refl
names-ty (report_pb_height _) = refl
names-ty (report_player_color _ _) = refl
names-ty (report_twitch _) = refl
names-ty (downgrade_stats _) = refl
names-ty (report_map_curr_pos _ _ _) = refl
names-ty (report_custom_map_aux_spec _ _ _) = refl
names-ty (delete_custom_map_aux_spec _ _) = refl
names-ty (list_custom_map_aux_specs _) = refl
names-ty (report_map_stats _ _) = refl
names-ty (report_minigame_attempt _ _ _ _ _) = refl
names-ty (report_minigame_map _ _) = refl
names-ty (report_collectible_unlock _ _ _) = refl
names-ty (report_collectible_collect _ _ _ _ _ _ _) = refl
names-ty (report_hat_unlock _ _ _) = refl
names-ty (report_hat_equip _ _) = refl
names-ty get_my_stats = refl
names-ty (get_global_lb _ _) = refl
names-ty (get_friends_lb _) = refl
names-ty get_global_overview = refl
names-ty get_server_stats = refl
names-ty get_my_rank = refl
names-ty (get_players_pb _) = refl
names-ty get_donations = refl
names-ty get_gfm_donations = refl
names-ty (get_twitch _) = refl
names-ty get_my_profile = refl
names-ty (set_my_profile _) = refl
names-ty get_my_preferences = refl
names-ty (set_my_preferences _) = refl
names-ty (get_users_profile _) = refl
names-ty (get_players_spec_info _ _) = refl
names-ty (get_map_overview _) = refl
names-ty (get_map_lb _ _ _) = refl
names-ty (get_map_live _) = refl
names-ty (get_map_my_rank _) = refl
names-ty (get_map_rank _ _) = refl
names-ty (get_minigame_lb _ _ _ _) = refl
names-ty (get_minigame_my_rank _ _) = refl
names-ty (get_minigame_list _) = refl
names-ty (get_collectible_list _) = refl
names-ty (get_collectible_mine _) = refl
names-ty (get_hats_mine _) = refl
names-ty (get_hats_on_map _) = refl
names-ty get_secret_assets = refl
names-ty stress_me = refl

-- Two requests have one code exactly when they have one name: no two variants share a code.
pub ty-name_iff : {J : Type 0} (r q : Request J) → (ty r ≡ ty q) ↔ (name r ≡ name q)
ty-name_iff r q = (
  (λ e. let p = rw e at (names-ty r) in ground (arith, p, names-ty q)),
  λ e. let p = rw e at (ty-discriminants r) in ground (arith, p, ty-discriminants q),
)
