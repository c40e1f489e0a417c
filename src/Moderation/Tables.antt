-- ===== src/Moderation/Tables.antt =====
-- The tables of src/queries/moderation.rs, with its statements as functions of them. A table is
-- its rows by their primary key; a user's id is a number, a time is in microseconds.
use dd2_server.Prelude.{
  ℕ, Bool, true, false, ◌&&◌, Option, none, some, List, [], ◌∷◌, String, if◌then◌else◌, ltb, ◌==◌,
  nat_eq, string_eq, pair_eq, length,
}
use dd2_server.Prelude.HashMap
use dd2_server.Prelude.HashMap.{HashMap}

pub record MapMeta : Type 0 where
  pub author_id : ℕ
  pub map_name : Option String
  pub thumbnail_url : Option String
  pub fetched_at : ℕ
  pub updated_at : ℕ

pub record MapBan : Type 0 where
  pub private_reason : String
  pub public_message : String
  pub created_by : ℕ
  pub created_at : ℕ
  pub expires_at : Option ℕ
  pub lifted_at : Option ℕ
  pub lifted_by : Option ℕ

pub record Delegation : Type 0 where
  pub granted_by : ℕ
  pub created_at : ℕ

pub record WebSession : Type 0 where
  pub user_id : ℕ
  pub display_name : String
  pub expires_at : ℕ

-- The details of an event are left out.
pub record AuditEvent : Type 0 where
  pub at : ℕ
  pub actor_id : ℕ
  pub action : String
  pub map_uid : Option String
  pub target_user_id : Option ℕ

-- The key of a table of a map's players.
abbrev pub MapUser : Type 0
MapUser = String × ℕ

-- `map_unofficial` holds who set the mark; `super_mods` who granted the role; `users` the names.
pub record Db : Type 0 where
  pub map_meta : HashMap String MapMeta
  pub super_mods : HashMap ℕ ℕ
  pub map_delegates : HashMap MapUser Delegation
  pub map_bans : HashMap MapUser MapBan
  pub map_unofficial : HashMap MapUser ℕ
  pub users : HashMap ℕ String
  pub web_sessions : HashMap ℕ WebSession
  pub oauth_states : HashMap String ℕ
  pub audit_events : List AuditEvent

abbrev pub is_some : {A : Type 0} → Option A → Bool
is_some none = false
is_some (some a) = true

abbrev pub is_none : {A : Type 0} → Option A → Bool
is_none none = true
is_none (some a) = false

-- `is_none_or(|t| now < t)`.
abbrev pub is_ahead : ℕ → Option ℕ → Bool
is_ahead now none = true
is_ahead now (some t) = ltb now t

-- A ban that is neither lifted nor over.
abbrev pub is_active : ℕ → MapBan → Bool
is_active now ban = is_none ban.lifted_at && is_ahead now ban.expires_at

abbrev pub filtered : {A : Type 0} → (A → Bool) → Option A → Option A
filtered p none = none
filtered p (some a) = if p a then some a else none

abbrev pub authored : ℕ → Option MapMeta → Bool
authored user_id none = false
authored user_id (some meta) = meta.author_id == user_id

unfoldable pub is_super_mod : ℕ → Db → Bool
is_super_mod user_id db = is_some (HashMap.get user_id db.super_mods)

unfoldable pub is_map_delegate : String → ℕ → Db → Bool
is_map_delegate map_uid user_id db = is_some (HashMap.get (map_uid, user_id) db.map_delegates)

unfoldable pub is_map_author : String → ℕ → Db → Bool
is_map_author map_uid user_id db = authored user_id (HashMap.get map_uid db.map_meta)

unfoldable pub get_active_ban : String → ℕ → ℕ → Db → Option MapBan
get_active_ban map_uid user_id now db =
    filtered (is_active now) (HashMap.get (map_uid, user_id) db.map_bans)

unfoldable pub is_unofficial : String → ℕ → Db → Bool
is_unofficial map_uid user_id db = is_some (HashMap.get (map_uid, user_id) db.map_unofficial)

unfoldable pub get_map_meta : String → Db → Option MapMeta
get_map_meta map_uid db = HashMap.get map_uid db.map_meta

unfoldable pub upsert_map_meta : String → ℕ → Option String → Option String → ℕ → Db → Db
upsert_map_meta map_uid author_id map_name thumbnail_url now db = record db {
  map_meta =
      HashMap.insert map_uid
        (record {
          author_id = author_id;
          map_name = map_name;
          thumbnail_url = thumbnail_url;
          fetched_at = now;
          updated_at = now;
        })
        db.map_meta;
}

-- `ON CONFLICT DO NOTHING`.
abbrev pub insert_new : {K V : Type 0} → Option V → HashMap K V → HashMap K V → HashMap K V
insert_new none old new = new
insert_new (some v) old new = old

unfoldable pub add_delegate : String → ℕ → ℕ → ℕ → Db → Db
add_delegate map_uid user_id granted_by now db = record db {
  map_delegates = insert_new (HashMap.get (map_uid, user_id) db.map_delegates) db.map_delegates (
      HashMap.insert (map_uid, user_id) (record { granted_by = granted_by; created_at = now })
        db.map_delegates);
}

unfoldable pub remove_delegate : String → ℕ → Db → Db
remove_delegate map_uid user_id db = record db {
  map_delegates = HashMap.remove (map_uid, user_id) db.map_delegates;
}

-- The two statements of one transaction.
unfoldable pub apply_map_ban : String → ℕ → ℕ → String → String → Option ℕ → ℕ → Db → Db
apply_map_ban map_uid user_id created_by private_reason public_message expires_at now db =
    record db {
      map_bans =
          HashMap.insert (map_uid, user_id)
            (record {
              private_reason = private_reason;
              public_message = public_message;
              created_by = created_by;
              created_at = now;
              expires_at = expires_at;
              lifted_at = none;
              lifted_by = none;
            })
            db.map_bans;
      map_unofficial = HashMap.insert (map_uid, user_id) created_by db.map_unofficial;
    }

abbrev pub mark_lifted : String → ℕ → ℕ → Bool → ℕ → Option MapBan → Db → Bool × Db
mark_lifted map_uid user_id lifted_by keep_unofficial now none db = (false, db)
mark_lifted map_uid user_id lifted_by keep_unofficial now (some ban) db = (
  true,
  record db {
    map_bans =
        HashMap.insert (map_uid, user_id)
          (record ban { lifted_at = some now; lifted_by = some lifted_by }) db.map_bans;
    map_unofficial =
        if keep_unofficial
        then db.map_unofficial
        else HashMap.remove (map_uid, user_id) db.map_unofficial;
  },
)

-- The two statements of one transaction; the second runs if the first changed a row.
unfoldable pub lift_map_ban : String → ℕ → ℕ → Bool → ℕ → Db → Bool × Db
unfolding get_active_ban
lift_map_ban map_uid user_id lifted_by keep_unofficial now db =
    mark_lifted map_uid user_id lifted_by keep_unofficial now
      (get_active_ban map_uid user_id now db) db

unfoldable pub ensure_user : ℕ → String → Db → Db
ensure_user user_id display_name db = record db {
  users = HashMap.insert user_id display_name db.users;
}

abbrev pub or_unknown : Option String → String
or_unknown none = "unknown"
or_unknown (some name) = name

unfoldable pub ensure_user_reference : ℕ → Option String → Db → Db
ensure_user_reference user_id display_name db = record db {
  users =
      insert_new (HashMap.get user_id db.users) db.users
        (HashMap.insert user_id (or_unknown display_name) db.users);
}

unfoldable pub add_super_mod : ℕ → ℕ → Db → Db
add_super_mod user_id granted_by db = record db {
  super_mods =
      insert_new (HashMap.get user_id db.super_mods) db.super_mods
        (HashMap.insert user_id granted_by db.super_mods);
}

unfoldable pub remove_super_mod : ℕ → Db → Bool × Db
unfolding is_super_mod
remove_super_mod user_id db =
    (is_super_mod user_id db, record db { super_mods = HashMap.remove user_id db.super_mods })

unfoldable pub count_super_mods : Db → ℕ
count_super_mods db = length db.super_mods

unfoldable pub create_web_session : ℕ → ℕ → String → ℕ → Db → Db
create_web_session session_id user_id display_name expires_at db = record db {
  web_sessions =
      HashMap.insert session_id
        (record { user_id = user_id; display_name = display_name; expires_at = expires_at })
        db.web_sessions;
}

abbrev pub live_user : ℕ → Option WebSession → Option (ℕ × String)
live_user now none = none
live_user now (some session) =
    if ltb now session.expires_at then some (session.user_id, session.display_name) else none

unfoldable pub get_web_session : ℕ → ℕ → Db → Option (ℕ × String)
get_web_session session_id now db = live_user now (HashMap.get session_id db.web_sessions)

unfoldable pub delete_web_session : ℕ → Db → Db
delete_web_session session_id db = record db {
  web_sessions = HashMap.remove session_id db.web_sessions;
}

unfoldable pub save_oauth_state : String → ℕ → Db → Db
save_oauth_state state expires_at db = record db {
  oauth_states = HashMap.insert state expires_at db.oauth_states;
}

abbrev pub taken : String → Option ℕ → Db → Bool × Db
taken state none db = (false, db)
taken state (some expires_at) db =
    (true, record db { oauth_states = HashMap.remove state db.oauth_states })

unfoldable pub take_oauth_state : String → ℕ → Db → Bool × Db
take_oauth_state state now db =
    taken state (filtered (ltb now) (HashMap.get state db.oauth_states)) db

-- `LIMIT 1` without an order: any user of that name. Here it is the first row.
unfoldable pub find_user_id_by_display_name : String → Db → Option ℕ
find_user_id_by_display_name name db = elim db.users [
  | [] ↦ none
  | row ∷ (rows → found) ↦ if row.1 == name then some row.0 else found
]

unfoldable pub insert_audit_event : ℕ → String → Option String → Option ℕ → ℕ → Db → Db
insert_audit_event actor_id action map_uid target_user_id now db = record db {
  audit_events =
      record {
        at = now;
        actor_id = actor_id;
        action = action;
        map_uid = map_uid;
        target_user_id = target_user_id;
      }
      ∷ db.audit_events;
}

-- The statements that change a table.
pub data Statement : Type 0 where
  map_meta_upsert : String → ℕ → Option String → Option String → Statement
  delegate_add : String → ℕ → ℕ → Statement
  delegate_remove : String → ℕ → Statement
  map_ban : String → ℕ → ℕ → String → String → Option ℕ → Statement
  ban_lift : String → ℕ → ℕ → Bool → Statement
  user_upsert : ℕ → String → Statement
  user_reference : ℕ → Option String → Statement
  super_mod_add : ℕ → ℕ → Statement
  super_mod_remove : ℕ → Statement
  session_insert : ℕ → ℕ → String → ℕ → Statement
  session_delete : ℕ → Statement
  oauth_save : String → ℕ → Statement
  oauth_take : String → Statement
  audit : ℕ → String → Option String → Option ℕ → Statement

-- A statement at a time, and whether it changed a row where its function says so.
unfoldable pub run : Statement → ℕ → Db → Bool × Db
unfolding upsert_map_meta add_delegate remove_delegate apply_map_ban lift_map_ban ensure_user
    ensure_user_reference add_super_mod remove_super_mod create_web_session delete_web_session
    save_oauth_state take_oauth_state insert_audit_event
run (map_meta_upsert uid author_id name url) now db =
    (true, upsert_map_meta uid author_id name url now db)
run (delegate_add uid user_id granted_by) now db =
    (true, add_delegate uid user_id granted_by now db)
run (delegate_remove uid user_id) now db = (true, remove_delegate uid user_id db)
run (map_ban uid user_id created_by reason message expires_at) now db =
    (true, apply_map_ban uid user_id created_by reason message expires_at now db)
run (ban_lift uid user_id lifted_by keep) now db = lift_map_ban uid user_id lifted_by keep now db
run (user_upsert user_id name) now db = (true, ensure_user user_id name db)
run (user_reference user_id name) now db = (true, ensure_user_reference user_id name db)
run (super_mod_add user_id granted_by) now db = (true, add_super_mod user_id granted_by db)
run (super_mod_remove user_id) now db = remove_super_mod user_id db
run (session_insert sid user_id name expires_at) now db =
    (true, create_web_session sid user_id name expires_at db)
run (session_delete sid) now db = (true, delete_web_session sid db)
run (oauth_save state expires_at) now db = (true, save_oauth_state state expires_at db)
run (oauth_take state) now db = take_oauth_state state now db
run (audit actor_id action uid target) now db =
    (true, insert_audit_event actor_id action uid target now db)

-- Statements with their times, the first one first.
unfoldable pub run_all : List (ℕ × Statement) → Db → Db
unfolding run
run_all [] db = db
run_all ((now, statement) ∷ rest) db = run_all rest (run statement now db).1
