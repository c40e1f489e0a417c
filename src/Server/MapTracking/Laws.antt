-- ===== src/Server/MapTracking/Laws.antt =====
-- How requests and context reports of src/server2.rs move a connection, and what they push.
use dd2_server.Prelude.{
  ℕ, ◌≡◌, refl, Bool, true, false, ◌||◌, Option, none, some, ◌∷◌, String, if◌then◌else◌, string_eq,
  option_eq, nat_eq, ◌==◌, beq_refl, ok, arith, eq_ignore_ascii_case,
}
use Prim.Native.String.{slice}
use dd2_server.Router.Values.{HatOnMapPlayer}
use dd2_server.Server.MapTracking.{
  Tracking, Player, Equipped, is_map_uid, hat_push, bare_entry, push_leave, push_join,
  broadcast_hat_context_transition, set_wayfinder_map, observe, adopt_wayfinder_map,
  update_last_map, obfuscated_map_uid, context_uid_refers_to_map, apply_context_map_change,
  report_context_map,
}
use dd2_server.Server.MapTracking.Presence.{shown, IsPresent, shown-push_leave, observe-IsPresent}

abbrev pub worn : Option HatOnMapPlayer → String
worn none = ""
worn (some entry) = entry.slug

module _ {J E : Type 0} (player : Player) (equipped : Equipped E) (uid : String) where
  shown-set :
      (entry : Option HatOnMapPlayer) (s : Tracking J)
      → IsPresent s
      → (s.tracked == some uid) ≡ false
      → is_map_uid uid ≡ true
      → equipped uid ≡ ok entry
      → ((set_wayfinder_map player equipped (some uid) s).0 ≡ ok (some uid))
        × (shown uid (set_wayfinder_map player equipped (some uid) s).1.sent ≡ worn entry)
  unfolding set_wayfinder_map broadcast_hat_context_transition push_join shown
  shown-set none s v away real found =
      rw (away, real, found) (refl, rw (shown-push_leave, away) (v.quiet uid away))
  shown-set (some entry) s v away real found = rw (away, real, found, beq_refl uid) (refl, refl)

  -- A player who comes to another map is shown there with the hat that the database has for it,
  -- and with none if it has none, in what all its pushes so far show.
  pub shown-adopt :
      (configured : Bool) (now : ℕ) (entry : Option HatOnMapPlayer) (s : Tracking J)
      → IsPresent s
      → (s.tracked == some uid) ≡ false
      → is_map_uid uid ≡ true
      → equipped uid ≡ ok entry
      → ((adopt_wayfinder_map player equipped configured now uid s).0 ≡ ok (some uid))
        × (shown uid (adopt_wayfinder_map player equipped configured now uid s).1.sent ≡ worn entry)
  unfolding adopt_wayfinder_map observe
  shown-adopt configured now entry s v away real found = rw real (
      shown-set entry (observe configured now uid s) (observe-IsPresent configured now uid s v) away
        real found)

module _ {J E : Type 0} (md5_hex : String → String) (player : Player) (equipped : Equipped E) where
  pub report_context_map-exact :
      (s : Tracking J) (uid context_uid : String)
      → s.tracked ≡ some uid
      → is_map_uid uid ≡ true
      → report_context_map md5_hex player equipped (some context_uid) s ≡ (
          if s.context_map_uid == some context_uid
            || (context_uid == uid || eq_ignore_ascii_case context_uid (slice (md5_hex uid) 0 30))
          then record s { context_map_uid = some context_uid }
          else record s {
            context_map_uid = some context_uid;
            tracked = none;
            sent = hat_push uid (bare_entry player) ∷ s.sent;
          })
  unfolding report_context_map update_last_map apply_context_map_change context_uid_refers_to_map
      obfuscated_map_uid set_wayfinder_map broadcast_hat_context_transition push_join push_leave
  report_context_map-exact s uid context_uid on real = ground (
    arith,
    on,
    real,
    (option_eq ⦃e = string_eq⦄).beq_iff s.context_map_uid (some context_uid),
    eq_ignore_ascii_case context_uid (slice (md5_hex uid) 0 30),
  )
