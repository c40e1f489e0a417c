-- ===== src/Moderation/Requests.antt =====
-- src/moderation_http.rs, `routes`: the requests of the admin pages that change a table.
pub mod Keeps
use dd2_server.Prelude.{ℕ, Bool, Option, String}
use dd2_server.Moderation.Handlers.{
  Env, session_by, session_user, fetched_meta, refresh_meta, use_meta, ensure_map_meta,
  can_moderate_map, require_moderator,
}
use dd2_server.Moderation.Bans.{
  CreateBanBody, handle_create_ban, handle_lift_ban, handle_add_delegate, handle_remove_delegate,
}
use dd2_server.Moderation.Admins.{
  Oauth, OauthCallbackQuery, handle_oauth_start, handle_oauth_callback, handle_logout,
  handle_add_super_mod, handle_remove_super_mod,
}
use dd2_server.Moderation.Handling.{Reply, Handler}

-- The requests of `routes` that change a table.
pub data Request : Type 0 where
  login : Option Oauth → String → ℕ → Request
  callback : Option Oauth → ℕ → ℕ → OauthCallbackQuery → Option String → Request
  logout : Option String → Request
  create_ban : ℕ → String → Option String → CreateBanBody → Request
  lift_ban : String → String → Option String → Bool → Request
  add_delegate : String → Option String → Option String → Option String → Request
  remove_delegate : String → String → Option String → Request
  add_super_mod : Option String → Option String → Option String → Request
  remove_super_mod : String → Option String → Request

module _ (e : Env) where
  unfoldable pub handle : Request → Handler Reply
  unfolding handle_oauth_start handle_oauth_callback handle_logout handle_create_ban handle_lift_ban
      handle_add_delegate handle_remove_delegate handle_add_super_mod handle_remove_super_mod
  handle (login oauth new_state now) = handle_oauth_start oauth new_state now
  handle (callback oauth new_id now q cookie) = handle_oauth_callback oauth new_id now q cookie
  handle (logout cookie) = handle_logout e cookie
  handle (create_ban now uid cookie body) = handle_create_ban e now uid cookie body
  handle (lift_ban uid user_id cookie keep) = handle_lift_ban e uid user_id cookie keep
  handle (add_delegate uid cookie user_id name) = handle_add_delegate e uid cookie user_id name
  handle (remove_delegate uid user_id cookie) = handle_remove_delegate e uid user_id cookie
  handle (add_super_mod cookie user_id name) = handle_add_super_mod e cookie user_id name
  handle (remove_super_mod user_id cookie) = handle_remove_super_mod e user_id cookie
