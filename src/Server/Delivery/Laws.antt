-- ===== src/Server/Delivery/Laws.antt =====
-- What the players' queues have after a run of messages to the manager of src/server2.rs.
use dd2_server.Prelude.{
  ◌≡◌, refl, ap, sym, ◌∙◌, false, Option, some, List, [], ◌∷◌, ◌++◌, String, if◌then◌else◌, map,
  All, append_assoc, string_eq, option_eq, ◌==◌, arith, Bool-cases, inl, inr,
}
use dd2_server.Router.Response.{Response}
use dd2_server.Server.Delivery.{
  ToPlayerMgr, recheck_records, auth_failed, socket_error, new_top3, broadcast, broadcast_to_map,
  PlayerDelivery, send, delivery_matches_map, retain_open, send_all, send_matching,
  deliver_player_mgr_message,
}

append-nil : {A : Type 0} (xs : List A) → xs ++ [] ≡ xs
append-nil [] = refl
append-nil (x ∷ xs) = ap (λ ys. x ∷ ys) (append-nil xs)

module _ {J : Type 0} where
  -- What a player on a map, or on none, gets of a message.
  abbrev pub received : Option String → ToPlayerMgr J → List (Response J)
  received current (broadcast response) = response ∷ []
  received current (broadcast_to_map map_uid response) =
      if current == some map_uid then response ∷ [] else []
  received current recheck_records = []
  received current auth_failed = []
  received current socket_error = []
  received current new_top3 = []

  abbrev pub received_all : Option String → List (ToPlayerMgr J) → List (Response J)
  received_all current [] = []
  received_all current (message ∷ messages) =
      received current message ++ received_all current messages

  abbrev pub with_received : List (ToPlayerMgr J) → PlayerDelivery J → PlayerDelivery J
  with_received messages player = record player {
    queue = player.queue ++ received_all player.wayfinder_map_uid messages;
  }

  -- The manager handles its messages in order.
  pub deliver_all : List (ToPlayerMgr J) → List (PlayerDelivery J) → List (PlayerDelivery J)
  deliver_all [] players = players
  deliver_all (message ∷ messages) players =
      deliver_all messages (deliver_player_mgr_message (λ player. player) message players)

  abbrev pub IsOpen : PlayerDelivery J → Type 0
  IsOpen player = player.is_closed ≡ false

  with_one : ToPlayerMgr J → PlayerDelivery J → PlayerDelivery J
  with_one message player = record player {
    queue = player.queue ++ received player.wayfinder_map_uid message;
  }

  retain_open-open :
      (players : List (PlayerDelivery J)) → All IsOpen players → retain_open players ≡ players
  retain_open-open [] h = refl
  retain_open-open (player ∷ players) (opened, h) = ground (arith, retain_open-open players h)

  abbrev same_queue : PlayerDelivery J → PlayerDelivery J
  same_queue player = record player { queue = player.queue ++ [] }

  unchanged : (players : List (PlayerDelivery J)) → map same_queue players ≡ players
  unchanged [] = refl
  unchanged (player ∷ players) = rw (append-nil player.queue, unchanged players) refl

  send_all-open :
      (response : Response J) (players : List (PlayerDelivery J))
      → All IsOpen players
      → send_all response players ≡ map (with_one (broadcast response)) players
  unfolding send_all send with_one
  send_all-open response [] h = refl
  send_all-open response (player ∷ players) (opened, h) =
      rw (opened, send_all-open response players h) refl

  send_matching-open :
      (uid : String) (response : Response J) (players : List (PlayerDelivery J))
      → All IsOpen players
      → send_matching (λ p. p) uid response players
        ≡ map (with_one (broadcast_to_map uid response)) players
  unfolding send_matching send delivery_matches_map with_one
  send_matching-open uid response [] h = refl
  send_matching-open uid response (player ∷ players) (opened, h) =
      elim (Bool-cases (player.wayfinder_map_uid == some uid)) [
        | inl here ↦ rw (here, opened, send_matching-open uid response players h) refl
        | inr elsewhere ↦
            rw (elsewhere, append-nil player.queue, send_matching-open uid response players h) refl
      ]

  deliver_one :
      (message : ToPlayerMgr J) (players : List (PlayerDelivery J))
      → All IsOpen players
      → deliver_player_mgr_message (λ p. p) message players ≡ map (with_one message) players
  unfolding deliver_player_mgr_message with_one
  deliver_one (broadcast response) players h =
      rw (retain_open-open players h) (send_all-open response players h)
  deliver_one (broadcast_to_map uid response) players h =
      rw (retain_open-open players h) (send_matching-open uid response players h)
  deliver_one recheck_records players h = rw (retain_open-open players h) (sym (unchanged players))
  deliver_one auth_failed players h = rw (retain_open-open players h) (sym (unchanged players))
  deliver_one socket_error players h = rw (retain_open-open players h) (sym (unchanged players))
  deliver_one new_top3 players h = rw (retain_open-open players h) (sym (unchanged players))

  with_one-IsOpen :
      (message : ToPlayerMgr J) (players : List (PlayerDelivery J))
      → All IsOpen players
      → All IsOpen (map (with_one message) players)
  unfolding with_one
  with_one-IsOpen message [] h = h
  with_one-IsOpen message (player ∷ players) (opened, h) =
      (opened, with_one-IsOpen message players h)

  with_received-one :
      (message : ToPlayerMgr J) (messages : List (ToPlayerMgr J))
      (players : List (PlayerDelivery J))
      → map (with_received messages) (map (with_one message) players)
        ≡ map (with_received (message ∷ messages)) players
  unfolding with_one
  with_received-one message messages [] = refl
  with_received-one message messages (player ∷ players) =
      rw (append_assoc, with_received-one message messages players) refl

  nothing_received : (players : List (PlayerDelivery J)) → players ≡ map (with_received []) players
  nothing_received players = sym (unchanged players)

  -- While the players stay connected and on their maps, any run of messages puts in each queue, in
  -- the order of the messages, one response for each broadcast and for each message to the player's
  -- map, and nothing else; and no player is dropped.
  pub deliver_all_exact :
      (messages : List (ToPlayerMgr J)) (players : List (PlayerDelivery J))
      → All IsOpen players
      → deliver_all messages players ≡ map (with_received messages) players
  unfolding deliver_all
  deliver_all_exact [] players h = nothing_received players
  deliver_all_exact (message ∷ messages) players h = rw (deliver_one message players h) (
      deliver_all_exact messages (map (with_one message) players)
        (with_one-IsOpen message players h)
      ∙ with_received-one message messages players)
