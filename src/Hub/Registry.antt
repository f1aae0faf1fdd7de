-- ===== src/Hub/Registry.antt =====
-- `session_register`, `session_unregister` and `session_stop_writer` of src/a/node_server.c: how a
-- session gets its slot and leaves it. A condition variable, a mutex and the text of an error are
-- left out; `nonblocking` and `thread` are whether `ntap_socket_set_nonblocking` and
-- `start_writer_thread` succeed.
pub mod Slots
use ntap_a.Base.{
  ℕ, ◌-◌, List, [], Bool, true, false, not, ◌&&◌, Option, none, some, ◌==◌, if◌then◌else◌, get_or,
  set, take,
}
use ntap_a.Base.Words.{Bytes}
use ntap_a.Wire.{c_string}
use ntap_a.Wire.Auth.{config_value_max}
use ntap_a.Session.{Session, session_queue_clear, default_tap_queue_limit_bytes}
use ntap_a.Hub.{Hub, find_index, default_mac_ttl_sec}
use ntap_a.Hub.Mac.{mac_forget_fd}
use ntap_a.Hub.Relay.{no_session}

abbrev pub default_max_mac_per_session : ℕ
default_max_mac_per_session = 32

-- What `session_register` reads of `ntap_a_runtime_config_t`.
pub record RuntimeConfig : Type 0 where
  pub socks_enabled : Bool
  pub mac_ttl_sec : ℕ
  pub broadcast_limit_pps : ℕ
  pub session_broadcast_limit_pps : ℕ
  pub max_mac_per_session : ℕ
  pub tap_queue_limit_bytes : ℕ
  pub allow_client_to_client : Bool
  pub allow_l2_control : Bool

-- The other arguments of `session_register`, named as the fields that they become.
pub record Login : Type 0 where
  pub fd : ℕ
  pub node_id : Bytes
  pub session_id : ℕ
  pub network_id : ℕ
  pub node_pk : ℕ
  pub is_tap_client : Bool
  pub db_session_id : ℕ
  pub db_file : Bytes

unfoldable pub runtime_u32_default : ℕ → ℕ → ℕ
runtime_u32_default value fallback = if value == 0 then fallback else value

-- `snprintf` of "%s" into a char array of `NTAP_CONFIG_VALUE_MAX` bytes.
abbrev pub copy_text : Bytes → Bytes
copy_text text = take (config_value_max - 1) (c_string text)

-- The slot as it is before the socket and the thread are set up.
abbrev pub new_session : Login → RuntimeConfig → Session
new_session l runtime = record no_session {
  active = true;
  fd = l.fd;
  db_session_id = l.db_session_id;
  node_pk = l.node_pk;
  session_id = l.session_id;
  network_id = l.network_id;
  is_tap_client = l.is_tap_client;
  socks_enabled = runtime.socks_enabled;
  mac_ttl_sec = runtime_u32_default runtime.mac_ttl_sec default_mac_ttl_sec;
  broadcast_limit_pps = runtime.broadcast_limit_pps;
  session_broadcast_limit_pps = runtime.session_broadcast_limit_pps;
  max_mac_per_session = runtime_u32_default runtime.max_mac_per_session default_max_mac_per_session;
  tap_queue_limit_bytes =
      runtime_u32_default runtime.tap_queue_limit_bytes default_tap_queue_limit_bytes;
  allow_client_to_client = runtime.allow_client_to_client;
  allow_l2_control = runtime.allow_l2_control;
  node_id = copy_text l.node_id;
  db_file = copy_text l.db_file;
}

-- The slot as the function leaves it.
unfoldable pub set_up : Bool → Bool → Session → Bool × Session
set_up nonblocking thread s =
    if nonblocking && thread
    then (true, record s { writer_started = true })
    else (false, record s { active = false })

abbrev pub slot_is_free : Session → Bool
slot_is_free s = not s.active

-- `session_register`: whether it returns 0, and the sessions. A NULL `runtime` is `none`.
unfoldable pub session_register :
    Bool → Bool → Login → Option RuntimeConfig → List Session → Bool × List Session
session_register nonblocking thread l none sessions = (false, sessions)
session_register nonblocking thread l (some runtime) sessions =
    elim (find_index slot_is_free sessions) [
      | none ↦ (false, sessions)
      | some i ↦
          let (ok, s) = set_up nonblocking thread (new_session l runtime) in (ok, set sessions i s)
    ]

abbrev pub is_on : ℕ → Session → Bool
is_on fd s = s.active && s.fd == fd

-- What `session_unregister` does under `g_sessions_mu`: the index of the slot that it gives up, and
-- the hub.
unfoldable pub unregister_locked : ℕ → Hub → Option ℕ × Hub
unregister_locked fd hub =
    let macs = mac_forget_fd fd hub.macs in
    elim (find_index (is_on fd) hub.sessions) [
      | none ↦ (none, record hub { macs = macs })
      | some i ↦ (
        some i,
        record hub {
          macs = macs;
          sessions =
              set hub.sessions i (record (get_or hub.sessions i no_session) { active = false });
        },
      )
    ]

-- `session_stop_writer`, with the last round of the thread that it waits for: the descriptor that it
-- shuts down, if any, and the slot.
unfoldable pub session_stop_writer : Session → Option ℕ × Session
session_stop_writer s =
    if s.writer_started
    then (
      some s.fd,
      record (session_queue_clear (record s { writer_stop = true })) { writer_started = false },
    )
    else (none, s)

-- What `session_unregister` does after it has let `g_sessions_mu` go: `session` is the pointer to
-- the slot, or NULL. Other threads may take the mutex in between. The first result is the descriptor
-- that is shut down, if any.
unfoldable pub unregister_stop : Option ℕ → Hub → Option ℕ × Hub
unregister_stop none hub = (none, hub)
unregister_stop (some i) hub =
    let (down, s) = session_stop_writer (get_or hub.sessions i no_session) in
    (down, record hub { sessions = set hub.sessions i s })

-- `session_unregister` where no other thread comes between, but for `socks_stream_close_node`.
unfoldable pub session_unregister : ℕ → Hub → Option ℕ × Hub
session_unregister fd hub = let (i, hub') = unregister_locked fd hub in unregister_stop i hub'
