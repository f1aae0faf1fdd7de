-- ===== src/Hub/Steps.antt =====
-- The states that the tables of src/a/node_server.c can reach: each step is what a thread of the
-- server does while it holds `g_sessions_mu`, or the `writer_mu` of a session.
pub mod Table
use ntap_a.Base.{ℕ, List, [], Bool, true, false, Option, some, get_or, set, replicate}
use ntap_a.Base.Words.{Bytes}
use ntap_a.Session.{Session, OutboundMsg, session_enqueue_control, writer_round}
use ntap_a.Hub.{Hub, MacEntry, max_active_sessions, max_mac_entries, max_network_rate_entries}
use ntap_a.Hub.Flood.{empty_rate}
use ntap_a.Hub.Relay.{no_session, relay_tap_frame}
use ntap_a.Hub.Registry.{RuntimeConfig, Login, session_register, unregister_locked, unregister_stop}

abbrev pub empty_entry : MacEntry
empty_entry = record {
  active = false;
  network_id = 0;
  fd = 0;
  mac = [];
  ttl_sec = 0;
  last_seen = 0;
  move_window_sec = 0;
  move_count = 0;
  frozen_until = 0;
}

-- `session_registry_reset`, which the server starts with
abbrev pub reset_hub : Hub
reset_hub = record {
  sessions = replicate max_active_sessions no_session;
  macs = replicate max_mac_entries empty_entry;
  rates = replicate max_network_rate_entries empty_rate;
}

-- The session in slot i changes.
abbrev pub change : Hub → ℕ → Session → Hub
change hub i s = record hub { sessions = set hub.sessions i s }

pub data Reachable : Hub → Type 0 where
  start : Reachable reset_hub
  logs_in :
      (nonblocking thread : Bool) (l : Login) (runtime : Option RuntimeConfig) (hub : Hub)
      → Reachable hub
      → Reachable
          (record hub { sessions = (session_register nonblocking thread l runtime hub.sessions).1 })
  leaves : (fd : ℕ) (hub : Hub) → Reachable hub → Reachable (unregister_locked fd hub).1
  stops : (i : ℕ) (hub : Hub) → Reachable hub → Reachable (unregister_stop (some i) hub).1
  relays :
      (alloc : ℕ → ℕ → Bool) (from_fd network_id : ℕ) (frame payload : Bytes) (now : ℕ) (hub : Hub)
      → Reachable hub
      → Reachable (relay_tap_frame alloc from_fd network_id frame payload now hub).2
  controls :
      (alloc : ℕ → Bool) (i type : ℕ) (payload : Bytes) (hub : Hub)
      → Reachable hub
      → Reachable (
          change hub i
            (session_enqueue_control alloc (get_or hub.sessions i no_session) type payload).1)
  writes :
      (send : OutboundMsg → Bool) (i : ℕ) (hub : Hub)
      → Reachable hub
      → Reachable (change hub i (writer_round send (get_or hub.sessions i no_session)).1)
