-- ===== src/Moderation/Handlers.antt =====
-- src/moderation_http.rs: the session of a request, and the handlers of a map's bans.
use dd2_server.Prelude.{
  ℕ, ◌+◌, ◌*◌, Bool, true, false, Option, none, some, String, if◌then◌else◌, ltb, leb, ◌==◌,
  string_eq, List, [], ◌∷◌, Result, ok, err,
}
use dd2_server.Prelude.Text.{is_empty, trim, join}
use dd2_server.Prelude.Text.Split.{split, split_once}
use dd2_server.Moderation.Tables.{
  MapMeta, Statement, is_some, get_map_meta, get_web_session, is_super_mod, is_map_author,
  is_map_delegate,
}
use dd2_server.Moderation.Handling.{
  Query, Status, json_err, Handler, pure, try_read, read, try_execute, or_reply, ◌>>=◌, ◌>>◌, guard,
}

-- What the handlers use of other packages: the parsing of ids and times, and Nadeo, with the
-- author, the name and the thumbnail of a map.
pub record Env : Type 0 where
  pub parse_uuid : String → Option ℕ
  pub parse_rfc3339 : String → Option ℕ
  pub parse_naive_seconds : String → Option ℕ
  pub parse_naive_minutes : String → Option ℕ
  pub is_configured : Bool
  pub author_id_for_uid : String → Result String (ℕ × Option String × Option String)

-- The value of the first cookie of that name; a part without "=" is skipped. ";" is 59, "=" 61.
abbrev pub value_of : String → Option (String × String) → Option String → Option String
value_of name none later = later
value_of name (some (cookie_name, value)) later = if cookie_name == name then some value else later

unfoldable pub find_cookie : String → List String → Option String
unfolding split_once trim
find_cookie name [] = none
find_cookie name (part ∷ parts) = value_of name (split_once 61 (trim part)) (find_cookie name parts)

unfoldable pub cookie_value : String → String → Option String
unfolding find_cookie split
cookie_value header name = find_cookie name (split 59 header)

abbrev pub and_then : {A B : Type 0} → Option A → (A → Option B) → Option B
and_then none f = none
and_then (some a) f = f a

abbrev pub is_true : Option Bool → Bool
is_true none = false
is_true (some b) = b

abbrev pub flatten : {A : Type 0} → Option (Option A) → Option A
flatten none = none
flatten (some o) = o

abbrev pub session_cookie : String
session_cookie = "dd2_session"

-- A filter and a trim of an optional text.
abbrev pub not_blank : Option String → Option String
not_blank none = none
not_blank (some s) = if is_empty (trim s) then none else some (trim s)

abbrev pub or_else : {A : Type 0} → Option A → Option A → Option A
or_else none b = b
or_else (some a) b = some a

abbrev pub in_future : String → ℕ → Option ℕ → Result String (Option ℕ)
in_future s now none = err (join "invalid expires_at: " s)
in_future s now (some parsed) =
    if leb parsed now then err "expires_at must be in the future" else ok (some parsed)

abbrev pub seven_days : ℕ
seven_days = 7 * 86400000000

module _ (e : Env) where
  unfoldable pub sid_of : Option String → Option ℕ
  unfolding cookie_value
  sid_of cookie =
      and_then (and_then cookie (λ header. cookie_value header session_cookie)) e.parse_uuid

  unfoldable pub session_by : Option ℕ → Handler (Option (ℕ × String))
  session_by none = pure none
  session_by (some sid) = do
    found ← try_read Query.web_session (get_web_session sid)
    pure (flatten found)

  unfoldable pub session_user : Option String → Handler (Option (ℕ × String))
  unfolding sid_of session_by
  session_user cookie = session_by (sid_of cookie)

  unfoldable pub expires_of : ℕ → Option String → Result String (Option ℕ)
  expires_of now none = ok none
  expires_of now (some s) =
      in_future s now
        (or_else (e.parse_rfc3339 s) (or_else (e.parse_naive_seconds s) (e.parse_naive_minutes s)))

  -- `now` is `Utc::now()`.
  unfoldable pub parse_ban_expires_at : ℕ → Option String → Result String (Option ℕ)
  unfolding expires_of
  parse_ban_expires_at now raw = expires_of now (not_blank raw)

  unfoldable pub fetched_meta :
      String → Result String (ℕ × Option String × Option String) → Handler Bool
  fetched_meta map_uid (err error) = pure false
  fetched_meta map_uid (ok (author_id, name, thumbnail_url)) = do
    written ←
        try_execute Query.map_meta_upsert
          (Statement.map_meta_upsert map_uid author_id name thumbnail_url)
    pure (is_some written)

  unfoldable pub refresh_meta : String → Handler Bool
  unfolding fetched_meta
  refresh_meta map_uid =
      if e.is_configured
      then fetched_meta map_uid (e.author_id_for_uid map_uid)
      else try_read Query.map_meta_again (λ now db. get_map_meta map_uid db) >>= λ found.
          pure (is_some (flatten found))

  -- What was read of the map's row, and when.
  unfoldable pub use_meta : String → Option (ℕ × Option MapMeta) → Handler Bool
  unfolding refresh_meta
  use_meta map_uid none = pure false
  use_meta map_uid (some (now, none)) = refresh_meta map_uid
  use_meta map_uid (some (now, some meta)) =
      if ltb now (meta.fetched_at + seven_days) then pure true else refresh_meta map_uid

  -- Whether there is a row of the map in the end. `Utc::now()` is read with the row.
  unfoldable pub ensure_map_meta : String → Handler Bool
  unfolding use_meta
  ensure_map_meta map_uid =
      try_read Query.map_meta (λ now db. (now, get_map_meta map_uid db)) >>= use_meta map_uid

  unfoldable pub can_moderate_map : String → ℕ → Handler Bool
  can_moderate_map map_uid user_id = do
    super ← read Query.super_mod (λ now. is_super_mod user_id)
    author ←
        if super then pure true else read Query.map_author (λ now. is_map_author map_uid user_id)
    if author then pure true else read Query.map_delegate (λ now. is_map_delegate map_uid user_id)

  unfoldable pub require_moderator : String → Option String → Handler ℕ
  unfolding session_user ensure_map_meta can_moderate_map
  require_moderator map_uid cookie = do
    session ← session_user cookie
    user ← or_reply (json_err Status.unauthorized "not logged in") session
    ensured ← ensure_map_meta map_uid
    can ← can_moderate_map map_uid user.0
    guard can (json_err Status.forbidden "not a moderator for this map")
    pure user.0
