-- ===== src/Hub/Relay.antt =====
-- `relay_tap_frame` of src/a/node_server.c: what the server does with an Ethernet frame that a
-- session sends. `alloc fd n` is whether there is memory for a message with n payload bytes to the
-- session on the descriptor fd; `from_fd` and `network_id` name the sender.
pub mod Delivery
pub mod Isolation
pub mod Known
pub mod Reach
use ntap_a.Base.{
  ℕ, ◌+◌, List, [], ◌∷◌, Bool, true, false, not, ◌&&◌, ◌||◌, Option, none, some, ltb, ◌==◌, ◌!=◌,
  if◌then◌else◌, length, get_or, set, take, drop,
}
use ntap_a.Base.Words.{Bytes}
use ntap_a.Session.{Session, Enqueued, refused, dropped, queued, session_enqueue_tap}
use ntap_a.Hub.{Hub, MacEntry, session_find}
use ntap_a.Hub.Mac.{
  mac_age, mac_learn, learned, frozen, mac_is_l2_control, mac_is_broadcast, mac_is_multicast,
}
use ntap_a.Hub.Mac.Lookup.{mac_lookup}
use ntap_a.Hub.Flood.{flood_allowed}

-- The string behind `mode`, for the log.
pub data Mode : Type 0 where
  flood unicast drop_session drop_l2 drop_mac_freeze drop_client drop_queue drop_rate : Mode

-- The slot `memset` leaves, which stands in for an index out of bounds.
abbrev pub no_session : Session
no_session = record {
  active = false;
  fd = 0;
  db_session_id = 0;
  node_pk = 0;
  session_id = 0;
  network_id = 0;
  is_tap_client = false;
  socks_enabled = false;
  mac_ttl_sec = 0;
  broadcast_limit_pps = 0;
  session_broadcast_limit_pps = 0;
  max_mac_per_session = 0;
  tap_queue_limit_bytes = 0;
  allow_client_to_client = false;
  allow_l2_control = false;
  flood_window_sec = 0;
  flood_count = 0;
  tap_queue_window_sec = 0;
  tap_queue_window_bytes = 0;
  tap_queue_drops = 0;
  tap_pending_bytes = 0;
  writer_started = false;
  writer_stop = false;
  ctrl_queue = [];
  tap_queue = [];
  node_id = [];
  db_file = [];
}

abbrev pub client_blocked : Session → Session → Bool
client_blocked source s =
    source.is_tap_client && s.is_tap_client && not source.allow_client_to_client

-- The two tests that skip a session of the loop.
abbrev pub floods_to : ℕ → ℕ → Session → Session → Bool
floods_to from_fd network_id source s =
    not (not s.active || s.fd == from_fd || s.network_id != network_id)
    && not (client_blocked source s)

-- What the loop makes of the answer of one enqueue.
unfoldable pub count_enqueued : List Session → ℕ → ℕ → Enqueued × Session → ℕ × ℕ × List Session
count_enqueued ss forwarded dropped' (dropped, s) = (forwarded, dropped' + 1, s ∷ ss)
count_enqueued ss forwarded dropped' (queued, s) = (forwarded + 1, dropped', s ∷ ss)
count_enqueued ss forwarded dropped' (refused, s) = (forwarded, dropped', s ∷ ss)

-- The loop over the sessions: how many queues took the frame, how many dropped it, the sessions.
unfoldable pub flood_loop :
    (ℕ → ℕ → Bool) → ℕ → ℕ → Session → Bytes → ℕ → List Session → ℕ × ℕ × List Session
flood_loop alloc from_fd network_id source payload now [] = (0, 0, [])
flood_loop alloc from_fd network_id source payload now (s ∷ ss) =
    let (forwarded, dropped', ss') = flood_loop alloc from_fd network_id source payload now ss in
    if floods_to from_fd network_id source s
    then count_enqueued ss' forwarded dropped' (session_enqueue_tap (alloc s.fd) s payload true now)
    else (forwarded, dropped', s ∷ ss')

-- What is made of the answer of the one enqueue; the target is at index `i`.
unfoldable pub unicast_enqueued : List Session → ℕ → Enqueued × Session → ℕ × Mode × List Session
unicast_enqueued sessions i (queued, target) = (1, unicast, set sessions i target)
unicast_enqueued sessions i (dropped, target) = (0, unicast, set sessions i target)
unicast_enqueued sessions i (refused, target) = (0, drop_queue, set sessions i target)

-- The part of `relay_tap_frame` for an address whose session is known, at index `i`.
unfoldable pub relay_unicast :
    (ℕ → ℕ → Bool) → ℕ → Session → ℕ → Bytes → ℕ → List Session → ℕ × Mode × List Session
relay_unicast alloc from_fd source i payload now sessions =
    let target = get_or sessions i no_session in
    if target.fd == from_fd
    then (0, unicast, sessions)
    else if client_blocked source target
    then (0, drop_client, sessions)
    else unicast_enqueued sessions i
        (session_enqueue_tap (alloc target.fd) target payload false now)

-- The part for every other frame; the source is at index `i`.
unfoldable pub relay_flood : (ℕ → ℕ → Bool) → ℕ → ℕ → ℕ → Bytes → ℕ → Hub → ℕ × Mode × Hub
relay_flood alloc from_fd network_id i payload now hub =
    let (ok, source, rates) = flood_allowed (get_or hub.sessions i no_session) now hub.rates in
    let sessions = set hub.sessions i source in
    if not ok
    then (0, drop_rate, record hub { sessions = sessions; rates = rates })
    else (let (forwarded, dropped', sessions') =
          flood_loop alloc from_fd network_id source payload now sessions in
        (
          forwarded,
          if forwarded == 0 && ltb 0 dropped' then drop_queue else flood,
          record hub { sessions = sessions'; rates = rates },
        ))

-- From the look-up of the destination on.
unfoldable pub relay_to : (ℕ → ℕ → Bool) → ℕ → ℕ → ℕ → Bytes → Bytes → ℕ → Hub → ℕ × Mode × Hub
relay_to alloc from_fd network_id i dst payload now hub =
    if mac_is_broadcast dst || mac_is_multicast dst
    then relay_flood alloc from_fd network_id i payload now hub
    else (let (found, macs) = mac_lookup network_id dst hub.sessions hub.macs in
        elim found [
          | none ↦ relay_flood alloc from_fd network_id i payload now (record hub { macs = macs })
          | some j ↦
              let (forwarded, mode, sessions) =
                relay_unicast alloc from_fd (get_or hub.sessions i no_session) j payload now
                  hub.sessions in
              (forwarded, mode, record hub { sessions = sessions; macs = macs })
        ])

-- From the two tests on the source to the learning of its address; the source is at index `i`.
unfoldable pub relay_from : (ℕ → ℕ → Bool) → ℕ → ℕ → ℕ → Bytes → Bytes → ℕ → Hub → ℕ × Mode × Hub
relay_from alloc from_fd network_id i frame payload now hub =
    let dst = take 6 frame in
    let source = get_or hub.sessions i no_session in
    if mac_is_l2_control dst && not source.allow_l2_control
    then (0, drop_l2, hub)
    else (let (r, macs) = mac_learn source (take 6 (drop 6 frame)) now hub.macs in
        elim r [
          | frozen ↦ (0, drop_mac_freeze, record hub { macs = macs })
          | learned ↦
              relay_to alloc from_fd network_id i dst payload now (record hub { macs = macs })
        ])

-- `relay_tap_frame`: the number of sessions that get the frame, `mode` where it is set, the hub.
unfoldable pub relay_tap_frame :
    (ℕ → ℕ → Bool) → ℕ → ℕ → Bytes → Bytes → ℕ → Hub → ℕ × Option Mode × Hub
relay_tap_frame alloc from_fd network_id frame payload now hub =
    if ltb (length frame) 14
    then (0, none, hub)
    else (let aged = record hub { macs = mac_age now hub.sessions hub.macs } in
        elim (session_find from_fd network_id hub.sessions) [
          | none ↦ (0, some drop_session, aged)
          | some i ↦
              let (forwarded, mode, hub') =
                relay_from alloc from_fd network_id i frame payload now aged in
              (forwarded, some mode, hub')
        ])
