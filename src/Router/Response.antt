-- ===== src/Router/Response.antt =====
-- src/router.rs, `Response`: what the server sends, and its code on the wire.
pub mod Names
pub mod Tables
pub mod Codes
mod Tests
use dd2_server.Prelude.{ℕ, Bool, Option, List, String}
use dd2_server.Router.Values.{
  U8, U32, I32, I64, F32, F64, Stats, LeaderboardEntry, LeaderboardEntry2, MinigameLbEntry,
  MinigameListGame, CollectibleListItem, CollectibleMineItem, HatMineItem, HatOnMapPlayer, Donor,
  Donation, AssetRef,
}

pub data Response (JsonValue : Type 0) : Type 0 where
  auth_fail : (err : String) → Response JsonValue
  auth_success : (session_token : String) → Response JsonValue
  context_ack : (ctx_session : String) → Response JsonValue
  ping : Response JsonValue
  server_info : (nb_players_live : U32) → Response JsonValue
  non_fatal_error_msg : (level : U8) (msg : String) → Response JsonValue
  new_record : (name : String) (height : F32) (ts : U32) → Response JsonValue
  stats : (stats_ : Stats JsonValue) (rank : U32) → Response JsonValue
  global_lb : (entries : List LeaderboardEntry) → Response JsonValue
  friends_lb : (entries : List LeaderboardEntry) → Response JsonValue
  global_overview : (j : JsonValue) → Response JsonValue
  top3 : (top3_ : List LeaderboardEntry) → Response JsonValue
  my_rank : (r : Option LeaderboardEntry) → Response JsonValue
  players_pb :
      (name : String) (height : F64) (rank : I64) (wsid : String) (ts : I64) (update_count : I32)
      → Response JsonValue
  donations : (donors : List Donor) (donations_ : List Donation) → Response JsonValue
  gfm_donations : (total : F64) → Response JsonValue
  twitch_name : (user_id twitch_name_ : String) → Response JsonValue
  users_profile : (profile : JsonValue) → Response JsonValue
  your_preferences : (preferences : JsonValue) → Response JsonValue
  players_spec_info : (wsid uid : String) (total_map_time now_ts : I64) → Response JsonValue
  map_overview : (uid : String) (nb_players_on_lb nb_playing_now : U32) → Response JsonValue
  map_lb : (uid : String) (entries : List LeaderboardEntry2) → Response JsonValue
  map_live_players : (uid : String) (players : List LeaderboardEntry2) → Response JsonValue
  map_rank :
      (uid : String) (r : Option LeaderboardEntry2) (banned : Bool)
      (ban_public_message : Option String) (unofficial : Bool)
      → Response JsonValue
  minigame_lb : (uid slug : String) (entries : List MinigameLbEntry) → Response JsonValue
  minigame_rank : (uid slug : String) (r : Option MinigameLbEntry) → Response JsonValue
  minigame_list : (uid : String) (games : List MinigameListGame) → Response JsonValue
  collectible_list : (uid : String) (items : List CollectibleListItem) → Response JsonValue
  collectible_mine : (uid : String) (items : List CollectibleMineItem) → Response JsonValue
  hats_mine : (uid equipped : String) (items : List HatMineItem) → Response JsonValue
  hats_on_map : (uid : String) (hats : List HatOnMapPlayer) → Response JsonValue
  hats_on_map_update : (uid : String) (hats : List HatOnMapPlayer) → Response JsonValue
  task_response : (id : U32) (success : Bool) (error : Option String) → Response JsonValue
  task_response_json : (id : U32) (message : JsonValue) → Response JsonValue
  secret_assets : (filenames_and_urls : List AssetRef) → Response JsonValue

pub into : {J : Type 0} → Response J → ℕ
into (auth_fail _) = 1
into (auth_success _) = 2
into (context_ack _) = 3
into ping = 8
into (server_info _) = 9
into (non_fatal_error_msg _ _) = 10
into (new_record _ _ _) = 32
into (stats _ _) = 128
into (global_lb _) = 129
into (friends_lb _) = 130
into (global_overview _) = 131
into (top3 _) = 132
into (my_rank _) = 133
into (players_pb _ _ _ _ _ _) = 134
into (donations _ _) = 135
into (gfm_donations _) = 136
into (twitch_name _ _) = 137
into (users_profile _) = 138
into (your_preferences _) = 139
into (players_spec_info _ _ _ _) = 143
into (map_overview _ _ _) = 192
into (map_lb _ _) = 193
into (map_live_players _ _) = 194
into (map_rank _ _ _ _ _) = 195
into (minigame_lb _ _ _) = 208
into (minigame_rank _ _ _) = 209
into (minigame_list _ _) = 210
into (collectible_list _ _) = 211
into (collectible_mine _ _) = 212
into (hats_mine _ _ _) = 213
into (hats_on_map _ _) = 214
into (hats_on_map_update _ _) = 215
into (task_response _ _ _) = 253
into (task_response_json _ _) = 252
into (secret_assets _) = 254
