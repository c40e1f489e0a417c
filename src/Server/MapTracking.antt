-- ===== src/Server/MapTracking.antt =====
-- src/server2.rs, the Wayfinder map that a connection is on: how requests and context reports move
-- it, and the pushes that tell the players of a map who wears a hat there.
pub mod Laws
pub mod Presence
mod Tests
use dd2_server.Prelude.{
  ℕ, Bool, true, false, not, ◌||◌, Option, none, some, List, [], ◌∷◌, String, if◌then◌else◌,
  string_eq, option_eq, nat_eq, ◌==◌, eq_ignore_ascii_case, Result, ok, err,
}
use Prim.Native.String.{len, slice}
use dd2_server.Router.Values.{HatOnMapPlayer}
use dd2_server.Router.Response.{Response, hats_on_map_update}
use dd2_server.Server.Delivery.{ToPlayerMgr, broadcast_to_map}
use dd2_server.Server.CommentBind.{States, observe_map}

-- `update_last_map`: whether the map changed, and the last map after it.
pub update_last_map : Option String → Option String → Bool × Option String
update_last_map last current = if last == current then (false, last) else (true, current)

-- A connection: its map, the map id of its last context report, what it sent to the manager, the
-- newest message first, and the comment lookups that it shares with the other connections.
pub record Tracking (J : Type 0) : Type 0 where
  pub tracked : Option String
  pub context_map_uid : Option String
  pub sent : List (ToPlayerMgr J)
  pub binds : States
  pub spawned : List String

-- The player as pushes name it.
pub record Player : Type 0 where
  pub user_id : String
  pub display_name : String

-- `equipped_push_entry`, the database's answer at that time: the hat worn on a map, or an error.
abbrev pub Equipped : Type 0 → Type 0
Equipped E = String → Result E (Option HatOnMapPlayer)

abbrev pub is_map_uid : String → Bool
is_map_uid uid = len uid == 27

abbrev pub bare_entry : Player → HatOnMapPlayer
bare_entry player = record { wsid = player.user_id; name = player.display_name; slug = "" }

module _ {J : Type 0} where
  -- The manager's channel outlives the connections.
  abbrev pub send : ToPlayerMgr J → Tracking J → Tracking J
  send message s = record s { sent = message ∷ s.sent }

  abbrev pub hat_push : String → HatOnMapPlayer → ToPlayerMgr J
  hat_push uid entry = broadcast_to_map uid (hats_on_map_update uid (entry ∷ []))

  pub push_leave : Player → Option String → Tracking J → Tracking J
  push_leave player none s = s
  push_leave player (some uid) s =
      if is_map_uid uid then send (hat_push uid (bare_entry player)) s else s

  -- `observe_map_for_comment_bind`, up to the task that it spawns for the map.
  pub observe : Bool → ℕ → String → Tracking J → Tracking J
  observe configured now uid s =
      let (spawns, binds') = observe_map configured uid now s.binds in
      record s { binds = binds'; spawned = (if spawns then uid ∷ s.spawned else s.spawned) }

module _ {J E : Type 0} where
  abbrev pub push_entry :
      String → Result E (Option HatOnMapPlayer) → Tracking J → Result E Unit × Tracking J
  push_entry uid (err e) s = (err e, s)
  push_entry uid (ok none) s = (ok tt, s)
  push_entry uid (ok (some entry)) s = (ok tt, send (hat_push uid entry) s)

  pub push_join : Equipped E → Option String → Tracking J → Result E Unit × Tracking J
  push_join equipped none s = (ok tt, s)
  push_join equipped (some uid) s =
      if is_map_uid uid then push_entry uid (equipped uid) s else (ok tt, s)

  pub broadcast_hat_context_transition :
      Player → Equipped E → Option String → Option String → Tracking J → Result E Unit × Tracking J
  broadcast_hat_context_transition player equipped previous current s =
      if previous == current
      then (ok tt, s)
      else push_join equipped current (push_leave player previous s)

  abbrev pub moved :
      Option String → Result E Unit × Tracking J → Result E (Option String) × Tracking J
  moved next (ok _, s) = (ok next, s)
  moved next (err e, s) = (err e, s)

  pub set_wayfinder_map :
      Player → Equipped E → Option String → Tracking J → Result E (Option String) × Tracking J
  set_wayfinder_map player equipped next s =
      if s.tracked == next
      then (ok s.tracked, s)
      else moved next (
          broadcast_hat_context_transition player equipped s.tracked next
            (record s { tracked = next }))

  pub adopt_wayfinder_map :
      Player → Equipped E → Bool → ℕ → String → Tracking J → Result E (Option String) × Tracking J
  adopt_wayfinder_map player equipped configured now uid s =
      if not (is_map_uid uid)
      then (ok s.tracked, s)
      else set_wayfinder_map player equipped (some uid) (observe configured now uid s)

  abbrev pub or_tracked : Result E (Option String) × Tracking J → Option String × Tracking J
  or_tracked (ok current, s) = (current, s)
  or_tracked (err e, s) = (s.tracked, s)

  pub adopt_wayfinder_map_or_tracked :
      Player → Equipped E → Bool → ℕ → String → Tracking J → Option String × Tracking J
  adopt_wayfinder_map_or_tracked player equipped configured now uid s =
      or_tracked (adopt_wayfinder_map player equipped configured now uid s)

-- `md5_hex` is the hex of the MD5 digest of a text.
module _ (md5_hex : String → String) where
  pub obfuscated_map_uid : String → String
  obfuscated_map_uid map_uid = slice (md5_hex map_uid) 0 30

  pub context_uid_refers_to_map : Option String → String → Bool
  context_uid_refers_to_map none tracked = false
  context_uid_refers_to_map (some uid) tracked =
      uid == tracked || eq_ignore_ascii_case uid (obfuscated_map_uid tracked)

  abbrev pub refers_to_tracked : Option String → Option String → Bool
  refers_to_tracked context_uid none = false
  refers_to_tracked context_uid (some tracked) = context_uid_refers_to_map context_uid tracked

  pub apply_context_map_change :
      {J E : Type 0}
      → Player
      → Equipped E
      → Option String
      → Tracking J
      → Result E (Option String) × Tracking J
  apply_context_map_change player equipped context_uid s =
      if refers_to_tracked context_uid s.tracked
      then (ok s.tracked, s)
      else set_wayfinder_map player equipped none s

  -- The `ReportContext` arm of the connection's loop, once its context is stored; an error of the
  -- pushes is logged.
  pub report_context_map :
      {J E : Type 0} → Player → Equipped E → Option String → Tracking J → Tracking J
  report_context_map player equipped context_uid s =
      let (changed, last) = update_last_map s.context_map_uid context_uid in
      let s' = record s { context_map_uid = last } in
      if changed then (apply_context_map_change player equipped context_uid s').1 else s'
