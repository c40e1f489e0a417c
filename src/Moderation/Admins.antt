-- ===== src/Moderation/Admins.antt =====
-- src/moderation_http.rs: the handlers of the super mods, of the login by OAuth and of the logout.
-- The texts of the cookies and of the login's address are left out.
pub mod Laws
use dd2_server.Prelude.{
  ℕ, ◌+◌, ◌*◌, Bool, true, false, not, Option, none, some, String, if◌then◌else◌, leb, string_eq,
  option_eq, ◌==◌, List, [], ◌∷◌, Result, ok, err,
}
use dd2_server.Prelude.Text.{trim, join, strip_prefix}
use dd2_server.Prelude.Text.Split.{split}
use dd2_server.Moderation.Tables.{Db, Statement, is_super_mod, count_super_mods}
use dd2_server.Moderation.Handling.{
  Query, Status, Reply, json_ok, json_err, logged_out, logged_in, sent_to_login, rejected_not_found,
  Handler, pure, reply, try_read, read, try_execute, execute, or_reply, ◌>>=◌, ◌>>◌, guard,
}
use dd2_server.Moderation.Handlers.{Env, session_user, and_then, cookie_value}
use dd2_server.Moderation.Bans.{audited, target_of, ensure_reference}

module _ (e : Env) where
  unfoldable pub require_session : Option String → Handler (ℕ × String)
  require_session cookie = do
    session ← session_user e cookie
    or_reply (json_err Status.unauthorized "not logged in") session

  unfoldable pub require_super_mod : Option String → Handler ℕ
  unfolding require_session
  require_super_mod cookie = do
    user ← require_session cookie
    super ← read Query.super_mod (λ now. is_super_mod user.0)
    guard super (json_err Status.forbidden "super-mod only")
    pure user.0

  unfoldable pub handle_add_super_mod :
      Option String → Option String → Option String → Handler Reply
  unfolding require_super_mod
  handle_add_super_mod cookie user_id display_name = do
    actor ← require_super_mod cookie
    target ← target_of e.parse_uuid "user not found" user_id display_name
    ensure_reference target display_name
    execute Query.super_mod_add (Statement.super_mod_add target actor)
    audited actor "super_mod.add" none (some target)

  unfoldable pub handle_remove_super_mod : String → Option String → Handler Reply
  unfolding require_super_mod
  handle_remove_super_mod user_id cookie = do
    actor ← require_super_mod cookie
    target ← or_reply (json_err Status.bad_request "invalid user_id") (e.parse_uuid user_id)
    count ← read Query.super_mod_count (λ now. count_super_mods)
    guard (not (leb count 1)) (json_err Status.conflict "cannot remove the last Super-mod")
    removed ← execute Query.super_mod_remove (Statement.super_mod_remove target)
    guard removed (json_err Status.not_found "not a Super-mod")
    audited actor "super_mod.remove" none (some target)

-- What the login uses of Trackmania's OAuth: the token of a code, and a token's user, the id
-- `none` if it is no UUID.
pub record Oauth : Type 0 where
  pub exchange_code : String → Result String String
  pub fetch_user : String → Result String (Option ℕ × String)

pub record OauthCallbackQuery : Type 0 where
  pub code : Option String
  pub state : Option String
  pub error : Option String

abbrev pub oauth_state_cookie : String
oauth_state_cookie = "dd2_oauth_state"

abbrev pub ten_minutes : ℕ
ten_minutes = 10 * 60000000

abbrev pub fourteen_days : ℕ
fourteen_days = 14 * 86400000000

unfoldable pub no_error : Option String → Handler (Unit {0})
no_error none = pure tt
no_error (some error) = reply (json_err Status.bad_request (join "oauth error: " error))

unfoldable pub or_bad_gateway : {A : Type 0} → Result String A → Handler A
or_bad_gateway (ok a) = pure a
or_bad_gateway (err error) = reply (json_err Status.bad_gateway error)

-- `new_id` and `new_state` are of `Uuid::new_v4()`, `now` of `Utc::now()`.
unfoldable pub handle_oauth_start : Option Oauth → String → ℕ → Handler Reply
handle_oauth_start oauth new_state now = do
  config ← or_reply (json_err Status.service_unavailable "TM OAuth not configured") oauth
  execute Query.oauth_save (Statement.oauth_save new_state (now + ten_minutes))
  pure (sent_to_login new_state)

unfoldable pub handle_oauth_callback :
    Option Oauth → ℕ → ℕ → OauthCallbackQuery → Option String → Handler Reply
unfolding no_error or_bad_gateway
handle_oauth_callback oauth new_id now q cookie = do
  no_error q.error
  config ← or_reply (json_err Status.service_unavailable "TM OAuth not configured") oauth
  code ← or_reply rejected_not_found q.code
  st ← or_reply rejected_not_found q.state
  guard (and_then cookie (λ header. cookie_value header oauth_state_cookie) == some st)
      (json_err Status.bad_request "oauth state does not match browser")
  was_taken ← execute Query.oauth_take (Statement.oauth_take st)
  guard was_taken (json_err Status.bad_request "invalid oauth state")
  token ← or_bad_gateway (config.exchange_code code)
  user ← or_bad_gateway (config.fetch_user token)
  user_id ← or_reply (json_err Status.bad_gateway "invalid account id") user.0
  execute Query.user_upsert (Statement.user_upsert user_id user.1)
  execute Query.session_insert
      (Statement.session_insert new_id user_id user.1 (now + fourteen_days))
  pure (logged_in new_id)

-- The first part that starts with the session's name and "=".
abbrev pub or_later : Option String → Option String → Option String
or_later none later = later
or_later (some value) later = some value

unfoldable pub first_session : List String → Option String
first_session [] = none
first_session (part ∷ parts) =
    or_later (strip_prefix "dd2_session=" (trim part)) (first_session parts)

unfoldable pub delete_session : Option ℕ → Handler (Unit {0})
delete_session none = pure tt
delete_session (some id) = do
  deleted ← try_execute Query.session_delete (Statement.session_delete id)
  pure tt

unfoldable pub handle_logout : Env → Option String → Handler Reply
unfolding first_session delete_session
handle_logout e cookie = do
  delete_session
      (and_then (and_then cookie (λ header. first_session (split 59 header))) e.parse_uuid)
  pure logged_out
