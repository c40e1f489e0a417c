-- ===== src/Router/Request/Names.antt =====
-- src/router.rs, `Request::name`: the names in the logs.
use dd2_server.Prelude.{String}
use dd2_server.Router.Request.{
  Request, authenticate, resume_session, report_context, report_gc_nod_msg, ping,
  report_vehicle_state, report_respawn, report_finish, report_fall_start, report_fall_end,
  report_stats, report_pb_height, report_player_color, report_twitch, downgrade_stats,
  report_map_curr_pos, report_custom_map_aux_spec, delete_custom_map_aux_spec,
  list_custom_map_aux_specs, report_map_stats, report_minigame_attempt, report_minigame_map,
  report_collectible_unlock, report_collectible_collect, report_hat_unlock, report_hat_equip,
  get_my_stats, get_global_lb, get_friends_lb, get_global_overview, get_server_stats, get_my_rank,
  get_players_pb, get_donations, get_gfm_donations, get_twitch, get_my_profile, set_my_profile,
  get_my_preferences, set_my_preferences, get_users_profile, get_players_spec_info,
  get_map_overview, get_map_lb, get_map_live, get_map_my_rank, get_map_rank, get_minigame_lb,
  get_minigame_my_rank, get_minigame_list, get_collectible_list, get_collectible_mine,
  get_hats_mine, get_hats_on_map, get_secret_assets, stress_me,
}

unfoldable pub name : {J : Type 0} → Request J → String
name (authenticate _ _ _ _) = "Authenticate"
name (resume_session _ _ _ _) = "ResumeSession"
name (report_context _ _ _ _ _ _) = "ReportContext"
name (report_gc_nod_msg _) = "ReportGameCamNod"
name ping = "Ping"
name (report_vehicle_state _ _ _) = "ReportVehicleState"
name (report_respawn _) = "ReportRespawn"
name (report_finish _) = "ReportFinish"
name (report_fall_start _ _ _ _) = "ReportFallStart"
name (report_fall_end _ _ _) = "ReportFallEnd"
name (report_stats _) = "ReportStats"
name (report_pb_height _) = "ReportPBHeight"
name (report_player_color _ _) = "ReportPlayerColor"
name (report_twitch _) = "ReportTwitch"
name (downgrade_stats _) = "DowngradeStats"
name (report_map_curr_pos _ _ _) = "ReportMapCurrPos"
name (report_custom_map_aux_spec _ _ _) = "ReportCustomMapAuxSpec"
name (delete_custom_map_aux_spec _ _) = "DeleteCustomMapAuxSpec"
name (list_custom_map_aux_specs _) = "ListCustomMapAuxSpecs"
name (report_map_stats _ _) = "ReportMapStats"
name (report_minigame_attempt _ _ _ _ _) = "ReportMinigameAttempt"
name (report_minigame_map _ _) = "ReportMinigameMap"
name (report_collectible_unlock _ _ _) = "ReportCollectibleUnlock"
name (report_collectible_collect _ _ _ _ _ _ _) = "ReportCollectibleCollect"
name (report_hat_unlock _ _ _) = "ReportHatUnlock"
name (report_hat_equip _ _) = "ReportHatEquip"
name get_my_stats = "GetMyStats"
name (get_global_lb _ _) = "GetGlobalLB"
name (get_friends_lb _) = "GetFriendsLB"
name get_global_overview = "GetGlobalOverview"
name get_server_stats = "GetServerStats"
name get_my_rank = "GetMyRank"
name (get_players_pb _) = "GetPlayersPb"
name get_donations = "GetDonations"
name get_gfm_donations = "GetGfmDonations"
name (get_twitch _) = "GetTwitch"
name get_my_profile = "GetMyProfile"
name (set_my_profile _) = "SetMyProfile"
name get_my_preferences = "GetMyPreferences"
name (set_my_preferences _) = "SetMyPreferences"
name (get_users_profile _) = "GetUsersProfile"
name (get_players_spec_info _ _) = "GetPlayersSpecInfo"
name (get_map_overview _) = "GetMapOverview"
name (get_map_lb _ _ _) = "GetMapLB"
name (get_map_live _) = "GetMapLive"
name (get_map_my_rank _) = "GetMapMyRank"
name (get_map_rank _ _) = "GetMapRank"
name (get_minigame_lb _ _ _ _) = "GetMinigameLB"
name (get_minigame_my_rank _ _) = "GetMinigameMyRank"
name (get_minigame_list _) = "GetMinigameList"
name (get_collectible_list _) = "GetCollectibleList"
name (get_collectible_mine _) = "GetCollectibleMine"
name (get_hats_mine _) = "GetHatsMine"
name (get_hats_on_map _) = "GetHatsOnMap"
name get_secret_assets = "GetSecretAssets"
name stress_me = "StressMe"
