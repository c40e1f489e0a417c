-- ===== src/Server/Delivery/Tests.antt =====
-- Messages to the manager of src/server2.rs, for two players on two maps and one that is gone.
use dd2_server.Prelude.{◌≡◌, refl, true, false, some, [], ◌∷◌, string_eq, option_eq}
use dd2_server.Router.Response.{ping, context_ack}
use dd2_server.Server.Delivery.{
  new_top3, broadcast, broadcast_to_map, PlayerDelivery, send, delivery_matches_map, send_matching,
  deliver_player_mgr_message,
}
use dd2_server.Server.Delivery.Laws.{deliver_all, deliver_all_exact}
use dd2_server.Prelude.{ℕ}

abbrev on_a : PlayerDelivery ℕ
on_a = record { queue = []; is_closed = false; wayfinder_map_uid = some "a" }

abbrev on_b : PlayerDelivery ℕ
on_b = record { queue = []; is_closed = false; wayfinder_map_uid = some "b" }

abbrev gone : PlayerDelivery ℕ
gone = record { queue = []; is_closed = true; wayfinder_map_uid = some "a" }

to_a :
    deliver_player_mgr_message (λ p. p) (broadcast_to_map "a" ping) (on_a ∷ gone ∷ on_b ∷ [])
    ≡ record on_a { queue = ping ∷ [] } ∷ on_b ∷ []
unfolding deliver_player_mgr_message send_matching send delivery_matches_map
to_a = refl

deliver_all_exact_example :
    deliver_all
      (broadcast_to_map "a" ping ∷ new_top3 ∷ broadcast (context_ack "c") ∷ [])
      (on_a ∷ on_b ∷ [])
    ≡ record on_a { queue = ping ∷ context_ack "c" ∷ [] }
      ∷ record on_b { queue = context_ack "c" ∷ [] }
      ∷ []
deliver_all_exact_example =
    deliver_all_exact (broadcast_to_map "a" ping ∷ new_top3 ∷ broadcast (context_ack "c") ∷ [])
      (on_a ∷ on_b ∷ []) (refl, (refl, tt))
