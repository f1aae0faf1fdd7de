-- ===== src/Tests/Relay.antt =====
-- A broadcast and a frame to a known address, relayed among three sessions.
use ntap_a.Base.{◌≡◌, refl, [], ◌∷◌, true, false, some, arith, ◌||◌, map, set, take, drop, ◌≢◌}
use ntap_a.Base.Texts.{bytes_equal}
use ntap_a.Base.Words.{Bytes}
use ntap_a.Session.{session_enqueue_tap}
use ntap_a.Hub.{find_index, session_find, session_active}
use ntap_a.Hub.Flood.{flood_allowed, session_allows, network_allows, roll_session}
use ntap_a.Hub.Mac.{
  mac_age, mac_expired, mac_learn, mac_update, mac_insert, mac_relearn, mac_is_learnable_src,
  mac_is_zero, mac_is_broadcast, mac_is_multicast, mac_is_l2_control,
}
use ntap_a.Hub.Relay.{relay_tap_frame}
use ntap_a.Hub.Relay.Reach.{Goes, offered, relay_tap_frame_broadcast}
use ntap_a.Hub.Relay.Known.{relay_tap_frame_known}
use ntap_a.Hub.Mac.Freeze.{mac_entry}
use ntap_a.Tests.Hub.{always, on_fd, small_hub, to_all, entry_a}

to_all-Goes : Goes to_all 5 3 101 1 small_hub
unfolding session_find find_index mac_is_l2_control mac_age mac_expired session_active mac_learn
    mac_update mac_insert mac_relearn mac_is_learnable_src mac_is_zero mac_is_multicast bytes_equal
to_all-Goes = record { long = refl; found = refl; plain = refl; learns = refl }

to_all_broadcast : mac_is_broadcast (0xff ∷ 0xff ∷ 0xff ∷ 0xff ∷ 0xff ∷ 0xff ∷ []) ≡ true
unfolding mac_is_broadcast bytes_equal
to_all_broadcast = refl

flood_ok : (flood_allowed (on_fd 5 true) 101 small_hub.rates).0 ≡ true
unfolding flood_allowed session_allows network_allows roll_session
flood_ok = refl

relay_tap_frame_broadcast_example :
    (relay_tap_frame always 5 3 to_all (1 ∷ []) 101 small_hub).2.sessions
    ≡ map
        (offered always 5 3 (1 ∷ []) 101 (flood_allowed (on_fd 5 true) 101 small_hub.rates).1)
        (set small_hub.sessions 1 (flood_allowed (on_fd 5 true) 101 small_hub.rates).1)
relay_tap_frame_broadcast_example =
    relay_tap_frame_broadcast always 5 3 (1 ∷ []) 101 to_all 1 small_hub to_all-Goes
      to_all_broadcast flood_ok

-- From client 5 to the address of the node.
abbrev to_node : Bytes
to_node = 2 ∷ 0 ∷ 0 ∷ 0 ∷ 0 ∷ 1 ∷ 2 ∷ 0 ∷ 0 ∷ 0 ∷ 0 ∷ 2 ∷ 8 ∷ 0 ∷ 69 ∷ []

to_node-Goes : Goes to_node 5 3 101 1 small_hub
unfolding session_find find_index mac_is_l2_control mac_age mac_expired session_active mac_learn
    mac_update mac_insert mac_relearn mac_is_learnable_src mac_is_zero mac_is_multicast bytes_equal
to_node-Goes = record { long = refl; found = refl; plain = refl; learns = refl }

to_node_one :
    (mac_is_broadcast (2 ∷ 0 ∷ 0 ∷ 0 ∷ 0 ∷ 1 ∷ []) || mac_is_multicast (2 ∷ 0 ∷ 0 ∷ 0 ∷ 0 ∷ 1 ∷ []))
    ≡ false
unfolding mac_is_broadcast mac_is_multicast bytes_equal
to_node_one = refl

to_node_other : take 6 to_node ≢ take 6 (drop 6 to_node)
to_node_other = λ e. ground (arith, e)

to_node_known : mac_entry 3 (2 ∷ 0 ∷ 0 ∷ 0 ∷ 0 ∷ 1 ∷ []) small_hub.macs ≡ some entry_a
unfolding mac_entry bytes_equal
to_node_known = refl

node_found : session_find 4 3 small_hub.sessions ≡ some 0
unfolding session_find find_index
node_found = refl

relay_tap_frame_known_example :
    (relay_tap_frame always 5 3 to_node (1 ∷ []) 101 small_hub).2.sessions
    ≡ set small_hub.sessions 0 (session_enqueue_tap (always 4) (on_fd 4 false) (1 ∷ []) false 101).1
relay_tap_frame_known_example =
    relay_tap_frame_known always 5 3 to_node (1 ∷ []) 101 1 0 small_hub entry_a to_node-Goes
      to_node_one to_node_other to_node_known (omega arith) node_found (omega arith) refl
