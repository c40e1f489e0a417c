-- ===== src/Moderation/Requests/Keeps.antt =====
-- What every statement keeps, every request of the admin pages keeps.
use dd2_server.Prelude.{ℕ, Bool, Option, none, some, String, Result, ok, err}
use dd2_server.Moderation.Tables.{Db, MapMeta}
use dd2_server.Moderation.Handlers.{
  Env, session_by, session_user, fetched_meta, refresh_meta, use_meta, ensure_map_meta,
  can_moderate_map, require_moderator,
}
use dd2_server.Moderation.Bans.{
  CreateBanBody, handle_create_ban, handle_lift_ban, handle_add_delegate, handle_remove_delegate,
  target_of, parsed_or_reply, audited, require_author, or_false, is_protected_from_map_ban,
  ensure_reference,
}
use dd2_server.Moderation.Admins.{
  Oauth, OauthCallbackQuery, handle_oauth_start, handle_oauth_callback, handle_logout,
  handle_add_super_mod, handle_remove_super_mod, require_super_mod, require_session, no_error,
  or_bad_gateway, delete_session,
}
use dd2_server.Moderation.Handling.{World, respond}
use dd2_server.Moderation.Handling.Keeps.{Keeps, IsStable, keeps_rules, respond-Keeps}
use dd2_server.Moderation.Requests.{
  Request, handle, login, callback, logout, create_ban, lift_ban, add_delegate, remove_delegate,
  add_super_mod, remove_super_mod,
}

module _ (e : Env) {P : Db → Type 0} where
  session-Keeps : (o : Option ℕ) → Keeps P (session_by e o)
  unfolding session_by
  session-Keeps none = search keeps_rules
  session-Keeps (some sid) = search keeps_rules

  fetched-Keeps :
      (uid : String) (r : Result String (ℕ × Option String × Option String))
      → Keeps P (fetched_meta e uid r)
  unfolding fetched_meta
  fetched-Keeps uid (ok found) = search keeps_rules
  fetched-Keeps uid (err error) = search keeps_rules

  refresh-Keeps : (uid : String) → Keeps P (refresh_meta e uid)
  unfolding refresh_meta
  refresh-Keeps uid = search (keeps_rules, fetched-Keeps)

  use_meta-Keeps : (uid : String) (o : Option (ℕ × Option MapMeta)) → Keeps P (use_meta e uid o)
  unfolding use_meta
  use_meta-Keeps uid none = search keeps_rules
  use_meta-Keeps uid (some (now, none)) = refresh-Keeps uid
  use_meta-Keeps uid (some (now, some meta)) = search (keeps_rules, refresh-Keeps)

  moderator-Keeps :
      (uid : String) (cookie : Option String) → Keeps P (require_moderator e uid cookie)
  unfolding require_moderator ensure_map_meta session_user can_moderate_map
  moderator-Keeps uid cookie =
      search (keeps_rules, use_meta-Keeps, session-Keeps) depth 12 fits 4000

  target-Keeps :
      (missing : String) (user_id display_name : Option String)
      → Keeps P (target_of e.parse_uuid missing user_id display_name)
  unfolding target_of
  target-Keeps missing (some id) name = search keeps_rules
  target-Keeps missing none (some name) = search keeps_rules
  target-Keeps missing none none = search keeps_rules

  parsed-Keeps : (r : Result String (Option ℕ)) → Keeps P (parsed_or_reply r)
  unfolding parsed_or_reply
  parsed-Keeps (ok expires_at) = search keeps_rules
  parsed-Keeps (err error) = search keeps_rules

  audited-Keeps :
      (actor : ℕ) (action : String) (uid : Option String) (target : Option ℕ)
      → Keeps P (audited actor action uid target)
  unfolding audited
  audited-Keeps actor action uid target = search keeps_rules

  author-Keeps :
      (uid : String) (actor : ℕ) (refusal : String) → Keeps P (require_author e uid actor refusal)
  unfolding require_author or_false
  author-Keeps uid actor refusal = search keeps_rules depth 8

  super_mod-Keeps : (cookie : Option String) → Keeps P (require_super_mod e cookie)
  unfolding require_super_mod require_session session_user
  super_mod-Keeps cookie = search (keeps_rules, session-Keeps) depth 8

  create_ban-Keeps :
      (now : ℕ) (uid : String) (cookie : Option String) (body : CreateBanBody)
      → Keeps P (handle_create_ban e now uid cookie body)
  unfolding handle_create_ban is_protected_from_map_ban ensure_reference
  create_ban-Keeps now uid cookie body =
      search (keeps_rules, moderator-Keeps, parsed-Keeps, target-Keeps, audited-Keeps) depth 14 fits
        4000

  lift_ban-Keeps :
      (uid user_id : String) (cookie : Option String) (keep : Bool)
      → Keeps P (handle_lift_ban e uid user_id cookie keep)
  unfolding handle_lift_ban
  lift_ban-Keeps uid user_id cookie keep =
      search (keeps_rules, moderator-Keeps, audited-Keeps) depth 10

  add_delegate-Keeps :
      (uid : String) (cookie user_id name : Option String)
      → Keeps P (handle_add_delegate e uid cookie user_id name)
  unfolding handle_add_delegate ensure_reference
  add_delegate-Keeps uid cookie user_id name =
      search (keeps_rules, moderator-Keeps, author-Keeps, target-Keeps, audited-Keeps) depth 12

  remove_delegate-Keeps :
      (uid user_id : String) (cookie : Option String)
      → Keeps P (handle_remove_delegate e uid user_id cookie)
  unfolding handle_remove_delegate
  remove_delegate-Keeps uid user_id cookie =
      search (keeps_rules, moderator-Keeps, author-Keeps, audited-Keeps) depth 12

  add_super_mod-Keeps :
      (cookie user_id name : Option String) → Keeps P (handle_add_super_mod e cookie user_id name)
  unfolding handle_add_super_mod ensure_reference
  add_super_mod-Keeps cookie user_id name =
      search (keeps_rules, super_mod-Keeps, target-Keeps, audited-Keeps) depth 12

  remove_super_mod-Keeps :
      (user_id : String) (cookie : Option String)
      → Keeps P (handle_remove_super_mod e user_id cookie)
  unfolding handle_remove_super_mod
  remove_super_mod-Keeps user_id cookie =
      search (keeps_rules, super_mod-Keeps, audited-Keeps) depth 12

  no_error-Keeps : (error : Option String) → Keeps P (no_error error)
  unfolding no_error
  no_error-Keeps none = search keeps_rules
  no_error-Keeps (some error) = search keeps_rules

  gateway-Keeps : {A : Type 0} (r : Result String A) → Keeps P (or_bad_gateway r)
  unfolding or_bad_gateway
  gateway-Keeps (ok a) = search keeps_rules
  gateway-Keeps (err error) = search keeps_rules

  callback-Keeps :
      (oauth : Option Oauth) (new_id now : ℕ) (q : OauthCallbackQuery) (cookie : Option String)
      → Keeps P (handle_oauth_callback oauth new_id now q cookie)
  unfolding handle_oauth_callback
  callback-Keeps oauth new_id now q cookie =
      search (keeps_rules, no_error-Keeps, gateway-Keeps) depth 16 fits 4000

  delete-Keeps : (o : Option ℕ) → Keeps P (delete_session o)
  unfolding delete_session
  delete-Keeps none = search keeps_rules
  delete-Keeps (some id) = search keeps_rules

  handle-Keeps : (r : Request) → Keeps P (handle e r)
  unfolding handle handle_oauth_start handle_logout
  handle-Keeps (login oauth new_state now) = search keeps_rules
  handle-Keeps (callback oauth new_id now q cookie) = callback-Keeps oauth new_id now q cookie
  handle-Keeps (logout cookie) = search (keeps_rules, delete-Keeps)
  handle-Keeps (create_ban now uid cookie body) = create_ban-Keeps now uid cookie body
  handle-Keeps (lift_ban uid user_id cookie keep) = lift_ban-Keeps uid user_id cookie keep
  handle-Keeps (add_delegate uid cookie user_id name) = add_delegate-Keeps uid cookie user_id name
  handle-Keeps (remove_delegate uid user_id cookie) = remove_delegate-Keeps uid user_id cookie
  handle-Keeps (add_super_mod cookie user_id name) = add_super_mod-Keeps cookie user_id name
  handle-Keeps (remove_super_mod user_id cookie) = remove_super_mod-Keeps user_id cookie

  pub respond-handle-Keeps :
      (r : Request) (w : World) (db : Db) → IsStable P → P db → P (respond (handle e r) w db).1
  respond-handle-Keeps r w db stable h = respond-Keeps (handle e r) w db (handle-Keeps r) stable h
