-- ===== src/Moderation/Bans.antt =====
-- src/moderation_http.rs: the handlers of a map's bans and of its delegates.
pub mod Laws
pub mod Created
use dd2_server.Prelude.{
  ℕ, Bool, true, false, not, ◌&&◌, ◌||◌, Option, none, some, String, if◌then◌else◌, Result, ok, err,
}
use dd2_server.Prelude.Text.{is_empty, trim}
use dd2_server.Moderation.Tables
use dd2_server.Moderation.Tables.{Db, Statement}
use dd2_server.Moderation.Handling.{
  Query, Status, Reply, json_ok, json_err, Handler, pure, reply, try_read, read, try_execute,
  execute, or_reply, ◌>>=◌, ◌>>◌, guard,
}
use dd2_server.Moderation.Handlers.{Env, parse_ban_expires_at, require_moderator, is_true}

pub record CreateBanBody : Type 0 where
  pub user_id : Option String
  pub display_name : Option String
  pub private_reason : String
  pub public_message : String
  pub expires_at : Option String

-- An event that is not written is not answered.
unfoldable pub audited : ℕ → String → Option String → Option ℕ → Handler Reply
audited actor action map_uid target = do
  written ← try_execute Query.audit (Statement.audit actor action map_uid target)
  pure json_ok

unfoldable pub parsed_or_reply : Result String (Option ℕ) → Handler (Option ℕ)
parsed_or_reply (ok expires_at) = pure expires_at
parsed_or_reply (err error) = reply (json_err Status.bad_request error)

-- The user that a body names: by its id, or else by its name.
unfoldable pub target_of :
    (parse_uuid : String → Option ℕ)
    → (missing : String) → Option String
    → Option String
    → Handler ℕ
target_of parse_uuid missing (some id) display_name =
    or_reply (json_err Status.bad_request "invalid user_id") (parse_uuid id)
target_of parse_uuid missing none (some name) = do
  found ← read Query.user_by_name (λ now. Tables.find_user_id_by_display_name name)
  or_reply (json_err Status.not_found missing) found
target_of parse_uuid missing none none =
    reply (json_err Status.bad_request "user_id or display_name required")

unfoldable pub is_protected_from_map_ban : String → ℕ → Handler Bool
is_protected_from_map_ban map_uid target = do
  super ← read Query.protected_super_mod (λ now. Tables.is_super_mod target)
  author ←
      if super
      then pure true
      else read Query.protected_author (λ now. Tables.is_map_author map_uid target)
  if author
      then pure true
      else read Query.protected_delegate (λ now. Tables.is_map_delegate map_uid target)

-- `unwrap_or(false)`.
unfoldable pub or_false : Query → (Db → Bool) → Handler Bool
or_false q f = do found ← try_read q (λ now. f); pure (is_true found)

unfoldable pub ensure_reference : ℕ → Option String → Handler Bool
ensure_reference target display_name =
    execute Query.user_reference (Statement.user_reference target display_name)

module _ (e : Env) (now : ℕ) where
  unfoldable pub handle_create_ban : String → Option String → CreateBanBody → Handler Reply
  unfolding audited parsed_or_reply target_of is_protected_from_map_ban ensure_reference
  handle_create_ban map_uid cookie body = do
    actor ← require_moderator e map_uid cookie
    guard (not (is_empty (trim body.private_reason) || is_empty (trim body.public_message)))
        (json_err Status.bad_request "private_reason and public_message required")
    expires_at ← parsed_or_reply (parse_ban_expires_at e now body.expires_at)
    target ← target_of e.parse_uuid "user not found by display name" body.user_id body.display_name
    is_protected ← is_protected_from_map_ban map_uid target
    guard (not is_protected)
        (json_err Status.forbidden "cannot Map-Ban Map Author, Super-mod, or Map Delegate")
    ensure_reference target body.display_name
    execute Query.map_ban (
        Statement.map_ban map_uid target actor (trim body.private_reason) (trim body.public_message)
          expires_at)
    audited actor "ban.create" (some map_uid) (some target)

module _ (e : Env) where
  unfoldable pub handle_lift_ban : String → String → Option String → Bool → Handler Reply
  unfolding audited
  handle_lift_ban map_uid user_id cookie keep_unofficial = do
    actor ← require_moderator e map_uid cookie
    target ← or_reply (json_err Status.bad_request "invalid user_id") (e.parse_uuid user_id)
    lifted ← execute Query.ban_lift (Statement.ban_lift map_uid target actor keep_unofficial)
    guard lifted (json_err Status.not_found "no active Map Ban")
    audited actor "ban.lift" (some map_uid) (some target)

  -- Only the author and super mods change the delegates.
  unfoldable pub require_author : String → ℕ → String → Handler (Unit {0})
  unfolding or_false
  require_author map_uid actor refusal = do
    super ← or_false Query.super_mod_again (Tables.is_super_mod actor)
    author ← or_false Query.map_author_again (Tables.is_map_author map_uid actor)
    guard (super || author) (json_err Status.forbidden refusal)

  unfoldable pub handle_add_delegate :
      String → Option String → Option String → Option String → Handler Reply
  unfolding audited target_of require_author ensure_reference
  handle_add_delegate map_uid cookie user_id display_name = do
    actor ← require_moderator e map_uid cookie
    require_author map_uid actor "only Map Author or Super-mod can add Delegates"
    target ← target_of e.parse_uuid "user not found" user_id display_name
    ban ← read Query.active_ban (Tables.get_active_ban map_uid target)
    guard (Tables.is_none ban)
        (json_err Status.conflict "lift the active Map Ban before adding this Delegate")
    ensure_reference target display_name
    execute Query.delegate_add (Statement.delegate_add map_uid target actor)
    audited actor "delegate.add" (some map_uid) (some target)

  unfoldable pub handle_remove_delegate : String → String → Option String → Handler Reply
  unfolding audited require_author
  handle_remove_delegate map_uid user_id cookie = do
    actor ← require_moderator e map_uid cookie
    require_author map_uid actor "only Map Author or Super-mod can remove Delegates"
    target ← or_reply (json_err Status.bad_request "invalid user_id") (e.parse_uuid user_id)
    execute Query.delegate_remove (Statement.delegate_remove map_uid target)
    audited actor "delegate.remove" (some map_uid) (some target)
