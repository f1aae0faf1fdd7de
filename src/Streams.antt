-- ===== src/Streams.antt =====
-- src/a/node_server.c: the SOCKS streams, each a client's connection that a node serves.
-- Each function holds `g_socks_mu` over its access to the table, so it is one step; what it does
-- after it has let the mutex go is the list of its effects, in their order. The table is the list
-- of its slots. A descriptor is the 32 bits of its int. An int64_t id of a database row is a ℕ,
-- with 0 for every value that is not positive.
pub mod End
pub mod Close
pub mod Foreign
pub mod Slots
use Prim.Native.String.{String}
use ntap_a.Base.{
  ℕ, ◌+◌, ◌-◌, ◌*◌, ◌/◌, ◌%◌, ◌^◌, List, [], ◌∷◌, ◌++◌, Bool, true, false, not, ◌&&◌, ◌||◌, Option,
  none, some, ltb, leb, ◌==◌, ◌!=◌, if◌then◌else◌, get_or, set, map,
}
use ntap_a.Base.Words.{Bytes, byte_at}
use ntap_a.Wire.Socks.{
  close_flag_fin, reason_client_closed, reason_target_connect_failed, reason_resource_limited,
  reason_idle_timeout,
}
use ntap_a.Hub.{find_index}
use ntap_a.Hub.Registry.{copy_text}

abbrev pub max_socks_streams : ℕ
max_socks_streams = 128

abbrev pub default_max_socks_streams : ℕ
default_max_socks_streams = 64

abbrev pub default_socks_idle_timeout_sec : ℕ
default_socks_idle_timeout_sec = 1800

-- `NTAP_INVALID_SOCKET`, which is -1
abbrev pub invalid_socket : ℕ
invalid_socket = 2 ^ 32 - 1

-- `socks_stream_t`
pub record Stream : Type 0 where
  pub active : Bool
  pub stream_id : ℕ
  pub node_pk : ℕ
  pub db_stream_id : ℕ
  pub node_fd : ℕ
  pub client_fd : ℕ
  pub client_fin : Bool
  pub node_fin : Bool
  pub db_file : Bytes

-- `g_socks_streams` and `g_next_socks_stream_id`
pub record Registry : Type 0 where
  pub streams : List Stream
  pub next_id : ℕ

-- `ntap_socket_shutdown`, `ntap_socket_shutdown_send` and `ntap_a_db_socks_stream_end`
pub data Effect : Type 0 where
  shutdown shutdown_send : ℕ → Effect
  stream_end : Bytes → ℕ → String → Effect

abbrev pub no_stream : Stream
no_stream = record {
  active = false;
  stream_id = 0;
  node_pk = 0;
  db_stream_id = 0;
  node_fd = 0;
  client_fd = 0;
  client_fin = false;
  node_fin = false;
  db_file = [];
}

abbrev pub take_id : ℕ → ℕ × ℕ
take_id id = let next = (id + 1) % 2 ^ 32 in (id, if next == 0 then 1 else next)

-- `socks_next_stream_id_locked`: the id, and the next one. It calls itself where the id was 0, and
-- then finds 1.
unfoldable pub socks_next_stream_id : ℕ → ℕ × ℕ
socks_next_stream_id next_id = if next_id == 0 then take_id 1 else take_id next_id

unfoldable pub socks_idle_timeout_ms : ℕ → ℕ
socks_idle_timeout_ms idle_timeout_sec =
    let effective =
      if idle_timeout_sec == 0 then default_socks_idle_timeout_sec else idle_timeout_sec in
    let max_sec = (2 ^ 32 - 1) / 1000 in
    if ltb max_sec effective then max_sec * 1000 else effective * 1000

unfoldable pub streams_of : ℕ → List Stream → ℕ
streams_of node_pk [] = 0
streams_of node_pk (s ∷ ss) =
    (if s.active && s.node_pk == node_pk then 1 else 0) + streams_of node_pk ss

abbrev pub slot_is_free : Stream → Bool
slot_is_free s = not s.active

abbrev pub stream_limit : ℕ → ℕ
stream_limit limit = if limit == 0 then default_max_socks_streams else limit

-- `socks_stream_register`: the id of the stream, 0 where there is none.
unfoldable pub socks_stream_register : ℕ → ℕ → ℕ → Bytes → ℕ → Registry → ℕ × Registry
socks_stream_register node_pk node_fd client_fd db_file limit reg =
    if node_pk == 0
      || node_fd == invalid_socket
      || client_fd == invalid_socket
      || byte_at db_file 0 == 0
    then (0, reg)
    else if leb (stream_limit limit) (streams_of node_pk reg.streams)
    then (0, reg)
    else (elim (find_index slot_is_free reg.streams) [
      | none ↦ (0, reg)
      | some i ↦
          let (stream_id, next_id) = socks_next_stream_id reg.next_id in
          (
            stream_id,
            record {
              streams = set reg.streams i (record {
                active = true;
                stream_id = stream_id;
                node_pk = node_pk;
                db_stream_id = 0;
                node_fd = node_fd;
                client_fd = client_fd;
                client_fin = false;
                node_fin = false;
                db_file = copy_text db_file;
              });
              next_id = next_id;
            },
          )
    ])

abbrev pub has_id : ℕ → Stream → Bool
has_id stream_id s = s.active && s.stream_id == stream_id

abbrev pub served_by : ℕ → ℕ → Stream → Bool
served_by stream_id node_fd s = s.active && s.stream_id == stream_id && s.node_fd == node_fd

-- Change the slot at index `i`.
abbrev pub put : Registry → ℕ → Stream → Registry
put reg i s = record reg { streams = set reg.streams i s }

unfoldable pub socks_stream_set_db_id : ℕ → ℕ → Registry → Registry
socks_stream_set_db_id stream_id db_stream_id reg =
    if stream_id == 0 || db_stream_id == 0
    then reg
    else (elim (find_index (has_id stream_id) reg.streams) [
      | none ↦ reg
      | some i ↦ put reg i (record (get_or reg.streams i no_stream) { db_stream_id = db_stream_id })
    ])

unfoldable pub socks_stream_is_active : ℕ → Registry → Bool
socks_stream_is_active stream_id reg =
    if stream_id == 0
    then false
    else (elim (find_index (has_id stream_id) reg.streams) [ none ↦ false | some i ↦ true ])

-- What `socks_stream_send_to_client` does with the bytes of a stream: they go to the client on a
-- descriptor, and the row of the stream, if any, counts them. The second is whether
-- `ntap_send_all` sends them.
pub record Delivery : Type 0 where
  pub client_fd : ℕ
  pub sent : Bool
  pub touched : Option (Bytes × ℕ)

-- `socks_stream_send_to_client`; it returns 0 exactly where there is a delivery that was sent.
unfoldable pub socks_stream_send_to_client :
    (ℕ → Bytes → Bool) → ℕ → ℕ → Bytes → Registry → Option Delivery
socks_stream_send_to_client send stream_id node_fd [] reg = none
socks_stream_send_to_client send stream_id node_fd (b ∷ data') reg =
    if stream_id == 0 then none else (elim (find_index (served_by stream_id node_fd) reg.streams) [
      | none ↦ none
      | some i ↦
          let s = get_or reg.streams i no_stream in
          let ok = send s.client_fd (b ∷ data') in
          if s.client_fd == invalid_socket
          then none
          else some (record {
            client_fd = s.client_fd;
            sent = ok;
            touched =
                if ok && s.db_stream_id != 0 && byte_at s.db_file 0 != 0
                then some (s.db_file, s.db_stream_id)
                else none;
          })
    ])
