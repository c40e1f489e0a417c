-- ===== src/Server/Delivery.antt =====
-- src/server2.rs, `PlayerMgr`: what the manager's messages put in the queues of the players.
pub mod Laws
mod Tests
use dd2_server.Prelude.{
  Bool, true, false, not, Option, none, some, List, [], ◌∷◌, ◌++◌, String, if◌then◌else◌, string_eq,
  option_eq, ◌==◌,
}
use dd2_server.Router.Response.{Response}

-- `ToPlayerMgr` of src/router.rs.
pub data ToPlayerMgr (JsonValue : Type 0) : Type 0 where
  recheck_records auth_failed socket_error new_top3 : ToPlayerMgr JsonValue
  broadcast : (response : Response JsonValue) → ToPlayerMgr JsonValue
  broadcast_to_map : (map_uid : String) (response : Response JsonValue) → ToPlayerMgr JsonValue

-- A player's queue by what was put in it, in order, and whether its receiver is gone.
pub record PlayerDelivery (JsonValue : Type 0) : Type 0 where
  pub queue : List (Response JsonValue)
  pub is_closed : Bool
  pub wayfinder_map_uid : Option String

pub delivery_matches_map : Option String → String → Bool
delivery_matches_map current target = current == some target

module _ {J : Type 0} where
  -- An `UnboundedSender` fails, and the failure is ignored, once its receiver is gone.
  pub send : Response J → PlayerDelivery J → PlayerDelivery J
  send response player =
      if player.is_closed then player else record player { queue = player.queue ++ (response ∷ []) }

  abbrev pub retain_open : List (PlayerDelivery J) → List (PlayerDelivery J)
  retain_open [] = []
  retain_open (player ∷ players) =
      let rest = retain_open players in if not player.is_closed then player ∷ rest else rest

  pub send_all : Response J → List (PlayerDelivery J) → List (PlayerDelivery J)
  unfolding send
  send_all response [] = []
  send_all response (player ∷ players) = send response player ∷ send_all response players

  -- Before each player's turn the loop waits for the lock of its map. What the player's own tasks
  -- do until then is `meanwhile`: they change the map, or close the receiver.
  pub send_matching :
      (PlayerDelivery J → PlayerDelivery J)
      → String
      → Response J
      → List (PlayerDelivery J)
      → List (PlayerDelivery J)
  unfolding send delivery_matches_map
  send_matching meanwhile map_uid response [] = []
  send_matching meanwhile map_uid response (player ∷ players) =
      let now = meanwhile player in
      (if delivery_matches_map now.wayfinder_map_uid map_uid then send response now else now)
      ∷ send_matching meanwhile map_uid response players

  pub deliver_player_mgr_message :
      (PlayerDelivery J → PlayerDelivery J)
      → ToPlayerMgr J
      → List (PlayerDelivery J)
      → List (PlayerDelivery J)
  unfolding send_all send_matching
  deliver_player_mgr_message meanwhile (broadcast response) players =
      send_all response (retain_open players)
  deliver_player_mgr_message meanwhile (broadcast_to_map map_uid response) players =
      send_matching meanwhile map_uid response (retain_open players)
  deliver_player_mgr_message meanwhile recheck_records players = retain_open players
  deliver_player_mgr_message meanwhile auth_failed players = retain_open players
  deliver_player_mgr_message meanwhile socket_error players = retain_open players
  deliver_player_mgr_message meanwhile new_top3 players = retain_open players
