-- ===== src/Server/MapTracking/Tests.antt =====
-- A player of src/server2.rs who comes to a map, reports it, and leaves it.
use dd2_server.Prelude.{
  ℕ, ◌≡◌, refl, false, none, some, [], ◌∷◌, String, string_eq, option_eq, eq_ignore_ascii_case, ok,
  err,
}
use dd2_server.Router.Values.{HatOnMapPlayer}
use dd2_server.Server.CommentBind.{observe_map}
use dd2_server.Server.MapTracking.{
  Tracking, Player, Equipped, hat_push, push_leave, push_join, broadcast_hat_context_transition,
  set_wayfinder_map, observe, adopt_wayfinder_map, update_last_map, apply_context_map_change,
  report_context_map,
}
use dd2_server.Server.MapTracking.Presence.{
  shown, Reach, starts, adopts, reports, Reach-shown_elsewhere,
}
use dd2_server.Server.MapTracking.Laws.{report_context_map-exact}

abbrev uid : String
uid = "AAAAAAAAAAAAAAAAAAAAAAAAAAA"

abbrev player : Player
player = record { user_id = "id"; display_name = "name" }

abbrev hat : HatOnMapPlayer
hat = record { wsid = "id"; name = "name"; slug = "crown" }

abbrev equipped : Equipped String
equipped map_uid = ok (some hat)

abbrev failing : Equipped String
failing map_uid = err "no database"

abbrev md5_hex : String → String
md5_hex map_uid = "0123456789abcdef0123456789abcdef"

abbrev away : Tracking ℕ
away = record { tracked = none; context_map_uid = none; sent = []; binds = []; spawned = [] }

abbrev here : Tracking ℕ
here = record away { tracked = some uid; sent = hat_push uid hat ∷ [] }

-- A failed query moves the player without a join push.
failed :
    adopt_wayfinder_map player failing false 0 uid away
    ≡ (err "no database", record away { tracked = some uid })
unfolding adopt_wayfinder_map set_wayfinder_map broadcast_hat_context_transition push_join
    push_leave observe observe_map
failed = refl

at_start : Reach String md5_hex player away
at_start = starts []

report_context_map-exact_example :
    report_context_map md5_hex player equipped (some "0123456789ABCDEF0123456789abcd") here
    ≡ record here { context_map_uid = some "0123456789ABCDEF0123456789abcd" }
unfolding eq_ignore_ascii_case
report_context_map-exact_example =
    report_context_map-exact md5_hex player equipped here uid "0123456789ABCDEF0123456789abcd" refl
      refl

left : Reach String md5_hex player (
    report_context_map md5_hex player equipped none
      (adopt_wayfinder_map player equipped false 0 uid away).1)
left = reports equipped none (adopts equipped false 0 uid at_start)

Reach-shown_elsewhere_example :
    shown "B"
      (report_context_map md5_hex player equipped none
        (adopt_wayfinder_map player equipped false 0 uid away).1).sent
    ≡ ""
unfolding report_context_map update_last_map apply_context_map_change set_wayfinder_map
    broadcast_hat_context_transition push_join push_leave adopt_wayfinder_map observe
Reach-shown_elsewhere_example = Reach-shown_elsewhere "B" left refl
