-- ===== src/Tests/Hub.antt =====
-- The relay and its tables of src/a/node_server.c.
use ntap_a.Base.{
  ℕ, ◌+◌, ◌≤◌, ◌<◌, List, ◌≡◌, refl, [], ◌∷◌, Bool, true, false, some, none, arith, get_or,
}
use ntap_a.Base.Texts.{bytes_equal}
use ntap_a.Base.Words.{Bytes}
use ntap_a.Session.{Session}
use ntap_a.Hub.{Hub, MacEntry, find_index, session_active}
use ntap_a.Hub.Flood.{empty_rate}
use ntap_a.Hub.Flood.Limit.{flooded, flooded_limit}
use ntap_a.Hub.Mac.{
  count_move, window_over, mac_learn, mac_update, mac_count_for_fd, mac_is_learnable_src,
  mac_is_zero, mac_is_multicast, frozen,
}
use ntap_a.Hub.Mac.Freeze.{mac_entry, mac_learn_freeze}
use ntap_a.Hub.Mac.Limit.{mac_learn_limit}
use ntap_a.Hub.Mac.Moves.{mac_learn_moved}
use ntap_a.Hub.Mac.Unique.{IsUnique}
use ntap_a.Hub.Relay.{no_session, relay_tap_frame, floods_to}
use ntap_a.Hub.Relay.Delivery.{Relayed}
use ntap_a.Hub.Relay.Isolation.{sender, relay_tap_frame-Relayed}
use ntap_a.Hub.Steps.{reset_hub, start, logs_in, relays}
use ntap_a.Hub.Steps.Table.{Reachable-IsUnique}
use ntap_a.Hub.Registry.{
  RuntimeConfig, Login, session_register, unregister_locked, unregister_stop, is_on, slot_is_free,
}
use ntap_a.Hub.Registry.Slots.{IsMute, session_register-keeps, unregister_stop-IsMute}

abbrev pub always : ℕ → ℕ → Bool
always fd n = true

-- A node and two clients of network 3, and a free slot.
abbrev pub on_fd : ℕ → Bool → Session
on_fd fd is_client = record no_session {
  active = true;
  fd = fd;
  session_id = fd;
  network_id = 3;
  is_tap_client = is_client;
  mac_ttl_sec = 300;
  session_broadcast_limit_pps = 2;
  max_mac_per_session = 1;
  tap_queue_limit_bytes = 4096;
  writer_started = true;
}

abbrev pub mac_a : Bytes
mac_a = 2 ∷ 0 ∷ 0 ∷ 0 ∷ 0 ∷ 1 ∷ []

-- The address a, seen on the node, which moved once at 100.
abbrev pub entry_a : MacEntry
entry_a = record {
  active = true;
  network_id = 3;
  fd = 4;
  mac = mac_a;
  ttl_sec = 300;
  last_seen = 100;
  move_window_sec = 100;
  move_count = 1;
  frozen_until = 0;
}

abbrev pub free_entry : MacEntry
free_entry = record entry_a { active = false }

abbrev pub small_hub : Hub
small_hub = record {
  sessions = on_fd 4 false ∷ on_fd 5 true ∷ on_fd 6 true ∷ no_session ∷ [];
  macs = entry_a ∷ free_entry ∷ [];
  rates = empty_rate ∷ [];
}

-- From client 5 to everybody.
abbrev pub to_all : Bytes
to_all = 0xff ∷ 0xff ∷ 0xff ∷ 0xff ∷ 0xff ∷ 0xff ∷ 2 ∷ 0 ∷ 0 ∷ 0 ∷ 0 ∷ 2 ∷ 8 ∷ 0 ∷ 69 ∷ []

relay_tap_frame-Relayed_example :
    let (k, m, hub') = relay_tap_frame always 5 3 to_all (1 ∷ []) 101 small_hub in
    Relayed (floods_to 5 3 (sender 5 3 small_hub)) (1 ∷ []) small_hub.sessions hub'.sessions k
relay_tap_frame-Relayed_example = relay_tap_frame-Relayed always 5 3 to_all (1 ∷ []) 101 small_hub

flooded_limit_example : 0 + flooded (on_fd 5 true) 101 ([] ∷ [] ∷ [] ∷ []) ≤ 2
flooded_limit_example =
    flooded_limit (on_fd 5 true) 101 ([] ∷ [] ∷ [] ∷ []) (omega arith) (omega arith) (omega arith)

a_learnable : mac_is_learnable_src mac_a ≡ true
unfolding mac_is_learnable_src mac_is_zero mac_is_multicast bytes_equal
a_learnable = refl

a_known : mac_entry 3 mac_a small_hub.macs ≡ some entry_a
unfolding mac_entry bytes_equal
a_known = refl

mac_learn_freeze_example :
    let (r, es') = mac_learn (on_fd 5 true) mac_a 105 small_hub.macs in
    let (r', es'') = mac_learn (on_fd 6 true) mac_a 150 es' in
    (r ≡ frozen) × (r' ≡ frozen) × (f : MacEntry) × (mac_entry 3 mac_a es'' ≡ some f) × (f.fd ≡ 4)
mac_learn_freeze_example =
    mac_learn_freeze (on_fd 5 true) (on_fd 6 true) mac_a 105 150 small_hub.macs entry_a a_learnable
      a_known (omega arith) (omega arith) (omega arith) (omega arith) (omega arith) refl
      (omega arith) refl (omega arith) (omega arith)

macs-IsUnique : IsUnique small_hub.macs
macs-IsUnique = ground (arith)

abbrev mac_b : Bytes
mac_b = 2 ∷ 0 ∷ 0 ∷ 0 ∷ 0 ∷ 2 ∷ []

b_unknown : mac_update (on_fd 4 false) mac_b 105 small_hub.macs ≡ none
unfolding mac_update bytes_equal
b_unknown = refl

one_mac : mac_count_for_fd 4 3 small_hub.macs ≤ 1
unfolding mac_count_for_fd
one_mac = omega arith

mac_learn_limit_example :
    mac_count_for_fd 4 3 (mac_learn (on_fd 4 false) mac_b 105 small_hub.macs).1 ≤ 1
mac_learn_limit_example = mac_learn_limit (on_fd 4 false) mac_b 105 small_hub.macs b_unknown one_mac

abbrev runtime : RuntimeConfig
runtime = record {
  socks_enabled = true;
  mac_ttl_sec = 0;
  broadcast_limit_pps = 200;
  session_broadcast_limit_pps = 50;
  max_mac_per_session = 0;
  tap_queue_limit_bytes = 0;
  allow_client_to_client = false;
  allow_l2_control = false;
}

abbrev login : Login
login = record {
  fd = 7;
  node_id = 110 ∷ 49 ∷ [];
  session_id = 12;
  network_id = 3;
  node_pk = 1;
  is_tap_client = false;
  db_session_id = 8;
  db_file = 100 ∷ 98 ∷ [];
}

session_register-keeps_example :
    let (ok, ss') = session_register true true login (some runtime) small_hub.sessions in
    ((j : ℕ)
      → (get_or small_hub.sessions j no_session).active ≡ true
      → get_or ss' j no_session ≡ get_or small_hub.sessions j no_session)
    × (ok ≡ true → session_active 7 3 ss' ≡ true)
session_register-keeps_example =
    session_register-keeps true true login (some runtime) small_hub.sessions

slot_found : find_index (is_on 5) small_hub.sessions ≡ some 1
unfolding find_index
slot_found = refl

slot_free : find_index slot_is_free (unregister_locked 5 small_hub).1.sessions ≡ some 1
unfolding unregister_locked find_index
slot_free = refl

unregister_stop-IsMute_example :
    let (slot, hub') = unregister_locked 5 small_hub in
    let (ok, ss) = session_register true true login (some runtime) hub'.sessions in
    let (down, hub'') = unregister_stop slot (record hub' { sessions = ss }) in
    (ok ≡ true) × (down ≡ some 7) × IsMute login (get_or hub''.sessions 1 no_session)
unregister_stop-IsMute_example =
    unregister_stop-IsMute 5 1 small_hub login runtime slot_found slot_free

abbrev hub_in : Hub
hub_in = record reset_hub {
  sessions = (session_register true true login (some runtime) reset_hub.sessions).1;
}

Reachable-IsUnique_example : IsUnique (relay_tap_frame always 7 3 to_all (1 ∷ []) 101 hub_in).2.macs
Reachable-IsUnique_example =
    Reachable-IsUnique (relay_tap_frame always 7 3 to_all (1 ∷ []) 101 hub_in).2 (
      relays always 7 3 to_all (1 ∷ []) 101 hub_in
        (logs_in true true login (some runtime) reset_hub start))

abbrev full_table : List MacEntry
full_table = entry_a ∷ (record entry_a { fd = 5; mac = mac_b }) ∷ []

a_in_full : mac_entry 3 mac_a full_table ≡ some entry_a
unfolding mac_entry bytes_equal
a_in_full = refl

a_moves : (count_move 200 entry_a).move_count < 2
unfolding count_move window_over
a_moves = omega arith

five_full : mac_count_for_fd 5 3 full_table ≡ 1
unfolding mac_count_for_fd
five_full = refl

mac_learn_moved_example : 1 < mac_count_for_fd 5 3 (mac_learn (on_fd 5 true) mac_a 200 full_table).1
mac_learn_moved_example =
    mac_learn_moved (on_fd 5 true) mac_a 200 full_table entry_a a_learnable a_in_full (omega arith)
      (omega arith) a_moves five_full
