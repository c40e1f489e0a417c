-- ===== src/Router/Request.antt =====
-- src/router.rs, `Request`: what a client sends, and its code on the wire.
pub mod Names
pub mod Tables
pub mod Codes
mod Tests
use dd2_server.Prelude.{ℕ, Bool, Option, List, String}
use dd2_server.Router.Values.{U8, U32, I32, I64, F32, F64, Map, Stats}

-- `serde_json::Value` is a parameter.
pub data Request (JsonValue : Type 0) : Type 0 where
  authenticate : (token plugin_info game_info gamer_info : String) → Request JsonValue
  resume_session : (session_token plugin_info game_info gamer_info : String) → Request JsonValue
  report_context :
      (sf mi : String) (map : Option Map) (i : Option Bool) (bi : I32 × I32) (e : Option Bool)
      → Request JsonValue
  report_gc_nod_msg : (message : String) → Request JsonValue
  ping : Request JsonValue
  report_vehicle_state :
      (pos : F32 × F32 × F32) (rotq : F32 × F32 × F32 × F32) (vel : F32 × F32 × F32)
      → Request JsonValue
  report_respawn : (race_time : I64) → Request JsonValue
  report_finish : (race_time : I32) → Request JsonValue
  report_fall_start :
      (floor : U8) (pos : F32 × F32 × F32) (speed : F32) (start_time : I32) → Request JsonValue
  report_fall_end : (floor : U8) (pos : F32 × F32 × F32) (end_time : I32) → Request JsonValue
  report_stats : (stats : Stats JsonValue) → Request JsonValue
  report_pb_height : (h : F32) → Request JsonValue
  report_player_color : (wsid : String) (color : F64 × F64 × F64) → Request JsonValue
  report_twitch : (twitch_name : String) → Request JsonValue
  downgrade_stats : (stats : Stats JsonValue) → Request JsonValue
  report_map_curr_pos :
      (uid : String) (pos : F64 × F64 × F64) (race_time : Option I64) → Request JsonValue
  report_custom_map_aux_spec : (id : U32) (name_id : String) (spec : JsonValue) → Request JsonValue
  delete_custom_map_aux_spec : (id : U32) (name_id : String) → Request JsonValue
  list_custom_map_aux_specs : (id : U32) → Request JsonValue
  report_map_stats : (uid : String) (stats : JsonValue) → Request JsonValue
  report_minigame_attempt :
      (uid slug : String) (spec_id elapsed_ms : I64) (status : String) → Request JsonValue
  report_minigame_map : (uid : String) (spec_id : I64) → Request JsonValue
  report_collectible_unlock : (uid slug : String) (spec_id : I64) → Request JsonValue
  report_collectible_collect :
      (uid slug : String) (spec_id : I64) (x y z : F32) (source : String) → Request JsonValue
  report_hat_unlock : (uid slug : String) (spec_id : I64) → Request JsonValue
  report_hat_equip : (uid slug : String) → Request JsonValue
  get_my_stats : Request JsonValue
  get_global_lb : (start end : U32) → Request JsonValue
  get_friends_lb : (friends : List String) → Request JsonValue
  get_global_overview : Request JsonValue
  get_server_stats : Request JsonValue
  get_my_rank : Request JsonValue
  get_players_pb : (wsid : String) → Request JsonValue
  get_donations : Request JsonValue
  get_gfm_donations : Request JsonValue
  get_twitch : (wsid : Option String) → Request JsonValue
  get_my_profile : Request JsonValue
  set_my_profile : (body : JsonValue) → Request JsonValue
  get_my_preferences : Request JsonValue
  set_my_preferences : (body : JsonValue) → Request JsonValue
  get_users_profile : (wsid : String) → Request JsonValue
  get_players_spec_info : (uid wsid : String) → Request JsonValue
  get_map_overview : (uid : String) → Request JsonValue
  get_map_lb : (uid : String) (start end : U32) → Request JsonValue
  get_map_live : (uid : String) → Request JsonValue
  get_map_my_rank : (uid : String) → Request JsonValue
  get_map_rank : (uid wsid : String) → Request JsonValue
  get_minigame_lb : (uid slug : String) (start end : U32) → Request JsonValue
  get_minigame_my_rank : (uid slug : String) → Request JsonValue
  get_minigame_list : (uid : String) → Request JsonValue
  get_collectible_list : (uid : String) → Request JsonValue
  get_collectible_mine : (uid : String) → Request JsonValue
  get_hats_mine : (uid : String) → Request JsonValue
  get_hats_on_map : (uid : String) → Request JsonValue
  get_secret_assets : Request JsonValue
  stress_me : Request JsonValue

unfoldable pub ty : {J : Type 0} → Request J → ℕ
ty (authenticate _ _ _ _) = 1
ty (resume_session _ _ _ _) = 2
ty (report_context _ _ _ _ _ _) = 3
ty (report_gc_nod_msg _) = 4
ty ping = 8
ty (report_vehicle_state _ _ _) = 32
ty (report_respawn _) = 33
ty (report_finish _) = 34
ty (report_fall_start _ _ _ _) = 35
ty (report_fall_end _ _ _) = 36
ty (report_stats _) = 37
ty (report_pb_height _) = 39
ty (report_player_color _ _) = 40
ty (report_twitch _) = 41
ty (downgrade_stats _) = 42
ty (report_map_curr_pos _ _ _) = 64
ty (report_custom_map_aux_spec _ _ _) = 65
ty (delete_custom_map_aux_spec _ _) = 66
ty (list_custom_map_aux_specs _) = 67
ty (report_map_stats _ _) = 68
ty (report_minigame_attempt _ _ _ _ _) = 80
ty (report_minigame_map _ _) = 81
ty (report_collectible_unlock _ _ _) = 82
ty (report_collectible_collect _ _ _ _ _ _ _) = 83
ty (report_hat_unlock _ _ _) = 84
ty (report_hat_equip _ _) = 85
ty get_my_stats = 128
ty (get_global_lb _ _) = 129
ty (get_friends_lb _) = 130
ty get_global_overview = 131
ty get_server_stats = 132
ty get_my_rank = 133
ty (get_players_pb _) = 134
ty get_donations = 135
ty get_gfm_donations = 136
ty (get_twitch _) = 137
ty get_my_profile = 138
ty (set_my_profile _) = 139
ty get_my_preferences = 140
ty (set_my_preferences _) = 141
ty (get_users_profile _) = 142
ty (get_players_spec_info _ _) = 143
ty (get_map_overview _) = 192
ty (get_map_lb _ _ _) = 193
ty (get_map_live _) = 194
ty (get_map_my_rank _) = 195
ty (get_map_rank _ _) = 196
ty (get_minigame_lb _ _ _ _) = 208
ty (get_minigame_my_rank _ _) = 209
ty (get_minigame_list _) = 210
ty (get_collectible_list _) = 211
ty (get_collectible_mine _) = 212
ty (get_hats_mine _) = 213
ty (get_hats_on_map _) = 214
ty get_secret_assets = 254
ty stress_me = 255
