-- ===== src/Moderation/Tests.antt =====
-- Runs of the requests of src/moderation_http.rs, and its theorems at concrete requests.
use dd2_server.Prelude.{
  ◌≡◌, ◌≢◌, ◌⊎◌, refl, true, false, Option, none, some, [], ◌∷◌, String, arith, err, string_eq,
  nat_eq, pair_eq,
}
use dd2_server.Prelude.HashMap
use dd2_server.Prelude.Text.{parse_u32}
use dd2_server.Moderation.Tables.{
  Db, MapBan, get_active_ban, is_unofficial, count_super_mods, get_web_session, get_map_meta,
  is_map_author, is_map_delegate,
}
use dd2_server.Moderation.Handling.{
  json_ok, World, respond, ◌>>=◌, pure, or_reply, guard, try_read, read, execute,
}
use dd2_server.Moderation.Handling.Triples.{IsAlone}
use dd2_server.Moderation.Handlers.{Env, sid_of, require_moderator, parse_ban_expires_at}
use dd2_server.Moderation.Bans.{CreateBanBody, handle_create_ban}
use dd2_server.Moderation.Bans.Laws.{IsUntouched}
use dd2_server.Moderation.Bans.Created.{IsBanned, respond-handle_create_ban}
use dd2_server.Moderation.Admins.{handle_remove_super_mod}
use dd2_server.Moderation.Admins.Laws.{
  HasSuperMod, racing, respond-handle_remove_super_mod, respond-handle_remove_super_mod_race,
}
use dd2_server.Moderation.Requests.{handle, create_ban}
use dd2_server.Moderation.Standing.{start, answers, Reach-is_unofficial}

abbrev env : Env
env = record {
  parse_uuid = parse_u32;
  parse_rfc3339 = parse_u32;
  parse_naive_seconds = λ s. none;
  parse_naive_minutes = λ s. none;
  is_configured = false;
  author_id_for_uid = λ uid. err "no map";
}

-- Two super mods, 1 and 2; the first is logged in.
abbrev two_mods : Db
two_mods = record {
  map_meta = [];
  super_mods = (1, 1) ∷ (2, 1) ∷ [];
  map_delegates = [];
  map_bans = [];
  map_unofficial = [];
  users = [];
  web_sessions = (7, record { user_id = 1; display_name = "one"; expires_at = 100 }) ∷ [];
  oauth_states = [];
  audit_events = [];
}

abbrev quiet : World
quiet = record { fails = λ q. false; now = λ q. 10; others = λ q. [] }

abbrev ban_of : String → CreateBanBody
ban_of id = record {
  user_id = some id;
  display_name = none;
  private_reason = "cut";
  public_message = "A cut.";
  expires_at = some "50";
}

abbrev cookie : Option String
cookie = some "a; dd2_session=7"

abbrev after_ban : Db
after_ban = (respond (handle env (create_ban 10 "map" cookie (ban_of "5"))) quiet two_mods).1

alone : IsAlone quiet
alone = record { at = λ q. refl }

respond-handle_create_ban_example :
    ((respond (handle_create_ban env 10 "map" cookie (ban_of "5")) quiet two_mods).0 ≡ json_ok
      × IsBanned env 10 "map"
          (ban_of "5")
          two_mods
          (respond (handle_create_ban env 10 "map" cookie (ban_of "5")) quiet two_mods).1)
    ⊎ ((respond (handle_create_ban env 10 "map" cookie (ban_of "5")) quiet two_mods).0 ≢ json_ok
        × IsUntouched two_mods
            (respond (handle_create_ban env 10 "map" cookie (ban_of "5")) quiet two_mods).1)
respond-handle_create_ban_example =
    respond-handle_create_ban two_mods quiet alone env 10 "map" cookie (ban_of "5")

two_mods-HasSuperMod : HasSuperMod two_mods
unfolding count_super_mods HashMap.get
two_mods-HasSuperMod = record { unique = (refl, (refl, tt)); some_mod = omega arith }

respond-handle_remove_super_mod_example :
    HasSuperMod (respond (handle_remove_super_mod env "2" cookie) quiet two_mods).1
respond-handle_remove_super_mod_example =
    respond-handle_remove_super_mod quiet alone env "2" cookie two_mods two_mods-HasSuperMod

logged_in_one : get_web_session 7 10 two_mods ≡ some (1, "one")
unfolding get_web_session HashMap.get
logged_in_one = refl

parsed_two : parse_u32 "2" ≡ some 2
unfolding parse_u32
parsed_two = refl

sid_seven : sid_of env cookie ≡ some 7
unfolding sid_of parse_u32
sid_seven = refl

respond-handle_remove_super_mod_race_example :
    ((respond (handle_remove_super_mod env "2" cookie) (racing 10 1) two_mods).0 ≡ json_ok)
    × (count_super_mods (respond (handle_remove_super_mod env "2" cookie) (racing 10 1) two_mods).1
        ≡ 0)
respond-handle_remove_super_mod_race_example =
    respond-handle_remove_super_mod_race env 10 1 2 1 1 7 "one" "2" cookie two_mods (omega arith)
      refl sid_seven logged_in_one parsed_two

abbrev the_ban : MapBan
the_ban = record {
  private_reason = "cut";
  public_message = "A cut.";
  created_by = 1;
  created_at = 10;
  expires_at = some 50;
  lifted_at = none;
  lifted_by = none;
}

banned_five : get_active_ban "map" 5 20 after_ban ≡ some the_ban
unfolding respond handle get_active_ban parse_u32 HashMap.get HashMap.insert ◌>>=◌ pure or_reply
    guard try_read read execute require_moderator parse_ban_expires_at get_web_session get_map_meta
    is_map_author is_map_delegate
banned_five = refl

Reach-is_unofficial_example : is_unofficial "map" 5 after_ban ≡ true
Reach-is_unofficial_example =
    Reach-is_unofficial (answers (create_ban 10 "map" cookie (ban_of "5")) quiet (start refl)) "map"
      5 20 the_ban banned_five
