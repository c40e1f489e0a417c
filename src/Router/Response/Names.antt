-- ===== src/Router/Response/Names.antt =====
-- src/router.rs, `Response::name`: the names in the logs.
use dd2_server.Prelude.{String}
use dd2_server.Router.Response.{
  Response, auth_fail, auth_success, context_ack, ping, server_info, non_fatal_error_msg,
  new_record, stats, global_lb, friends_lb, global_overview, top3, my_rank, players_pb, donations,
  gfm_donations, twitch_name, users_profile, your_preferences, players_spec_info, map_overview,
  map_lb, map_live_players, map_rank, minigame_lb, minigame_rank, minigame_list, collectible_list,
  collectible_mine, hats_mine, hats_on_map, hats_on_map_update, task_response, task_response_json,
  secret_assets,
}

unfoldable pub name : {J : Type 0} → Response J → String
name (auth_fail _) = "AuthFail"
name (auth_success _) = "AuthSuccess"
name (context_ack _) = "ContextAck"
name ping = "Ping"
name (server_info _) = "ServerInfo"
name (non_fatal_error_msg _ _) = "NonFatalErrorMsg"
name (new_record _ _ _) = "NewRecord"
name (stats _ _) = "Stats"
name (global_lb _) = "GlobalLB"
name (friends_lb _) = "FriendsLB"
name (global_overview _) = "GlobalOverview"
name (top3 _) = "Top3"
name (my_rank _) = "MyRank"
name (players_pb _ _ _ _ _ _) = "PlayersPB"
name (donations _ _) = "Donations"
name (gfm_donations _) = "GfmDonations"
name (twitch_name _ _) = "TwitchName"
name (users_profile _) = "UsersProfile"
name (your_preferences _) = "YourPreferences"
name (players_spec_info _ _ _ _) = "PlayersSpecInfo"
name (map_overview _ _ _) = "MapOverview"
name (map_lb _ _) = "MapLB"
name (map_live_players _ _) = "MapLivePlayers"
name (map_rank _ _ _ _ _) = "MapRank"
name (minigame_lb _ _ _) = "MinigameLB"
name (minigame_rank _ _ _) = "MinigameRank"
name (minigame_list _ _) = "MinigameList"
name (collectible_list _ _) = "CollectibleList"
name (collectible_mine _ _) = "CollectibleMine"
name (hats_mine _ _ _) = "HatsMine"
name (hats_on_map _ _) = "HatsOnMap"
name (hats_on_map_update _ _) = "HatsOnMapUpdate"
name (task_response _ _ _) = "TaskResponse"
name (task_response_json _ _) = "TaskResponseJson"
name (secret_assets _) = "SecretAssets"
