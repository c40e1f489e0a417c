-- ===== src/Router/Response/Codes.antt =====
-- The codes of src/router.rs, `Response`, and its names: which determines which.
use dd2_server.Prelude.{◌≡◌, refl, ◌↔◌, some, string_eq, nat_eq, arith}
use dd2_server.Prelude.HashMap
use dd2_server.Prelude.HashMap.{HashMap}
use dd2_server.Router.Response.{
  Response, into, auth_fail, auth_success, context_ack, ping, server_info, non_fatal_error_msg,
  new_record, stats, global_lb, friends_lb, global_overview, top3, my_rank, players_pb, donations,
  gfm_donations, twitch_name, users_profile, your_preferences, players_spec_info, map_overview,
  map_lb, map_live_players, map_rank, minigame_lb, minigame_rank, minigame_list, collectible_list,
  collectible_mine, hats_mine, hats_on_map, hats_on_map_update, task_response, task_response_json,
  secret_assets,
}
use dd2_server.Router.Response.Names.{name}
use dd2_server.Router.Response.Tables.{codes, names}

pub into-codes : {J : Type 0} (r : Response J) → HashMap.get (name r) codes ≡ some (into r)
unfolding into name HashMap.get
into-codes (auth_fail _) = refl
into-codes (auth_success _) = refl
into-codes (context_ack _) = refl
into-codes ping = refl
into-codes (server_info _) = refl
into-codes (non_fatal_error_msg _ _) = refl
into-codes (new_record _ _ _) = refl
into-codes (stats _ _) = refl
into-codes (global_lb _) = refl
into-codes (friends_lb _) = refl
into-codes (global_overview _) = refl
into-codes (top3 _) = refl
into-codes (my_rank _) = refl
into-codes (players_pb _ _ _ _ _ _) = refl
into-codes (donations _ _) = refl
into-codes (gfm_donations _) = refl
into-codes (twitch_name _ _) = refl
into-codes (users_profile _) = refl
into-codes (your_preferences _) = refl
into-codes (players_spec_info _ _ _ _) = refl
into-codes (map_overview _ _ _) = refl
into-codes (map_lb _ _) = refl
into-codes (map_live_players _ _) = refl
into-codes (map_rank _ _ _ _ _) = refl
into-codes (minigame_lb _ _ _) = refl
into-codes (minigame_rank _ _ _) = refl
into-codes (minigame_list _ _) = refl
into-codes (collectible_list _ _) = refl
into-codes (collectible_mine _ _) = refl
into-codes (hats_mine _ _ _) = refl
into-codes (hats_on_map _ _) = refl
into-codes (hats_on_map_update _ _) = refl
into-codes (task_response _ _ _) = refl
into-codes (task_response_json _ _) = refl
into-codes (secret_assets _) = refl

names-into : {J : Type 0} (r : Response J) → HashMap.get (into r) names ≡ some (name r)
unfolding into name HashMap.get
names-into (auth_fail _) = refl
names-into (auth_success _) = refl
names-into (context_ack _) = refl
names-into ping = refl
names-into (server_info _) = refl
names-into (non_fatal_error_msg _ _) = refl
names-into (new_record _ _ _) = refl
names-into (stats _ _) = refl
names-into (global_lb _) = refl
names-into (friends_lb _) = refl
names-into (global_overview _) = refl
names-into (top3 _) = refl
names-into (my_rank _) = refl
names-into (players_pb _ _ _ _ _ _) = refl
names-into (donations _ _) = refl
names-into (gfm_donations _) = refl
names-into (twitch_name _ _) = refl
names-into (users_profile _) = refl
names-into (your_preferences _) = refl
names-into (players_spec_info _ _ _ _) = refl
names-into (map_overview _ _ _) = refl
names-into (map_lb _ _) = refl
names-into (map_live_players _ _) = refl
names-into (map_rank _ _ _ _ _) = refl
names-into (minigame_lb _ _ _) = refl
names-into (minigame_rank _ _ _) = refl
names-into (minigame_list _ _) = refl
names-into (collectible_list _ _) = refl
names-into (collectible_mine _ _) = refl
names-into (hats_mine _ _ _) = refl
names-into (hats_on_map _ _) = refl
names-into (hats_on_map_update _ _) = refl
names-into (task_response _ _ _) = refl
names-into (task_response_json _ _) = refl
names-into (secret_assets _) = refl

-- Two responses have one code exactly when they have one name: no two variants share a code.
pub into-name_iff : {J : Type 0} (r q : Response J) → (into r ≡ into q) ↔ (name r ≡ name q)
into-name_iff r q = (
  (λ e. let p = rw e at (names-into r) in ground (arith, p, names-into q)),
  λ e. let p = rw e at (into-codes r) in ground (arith, p, into-codes q),
)
