-- ===== src/Node.antt =====
-- The messages of a peer that has logged in: the loop of handle_node in src/a/node_server.c. What is
-- printed and the texts in `err` are left out, and the login before the loop.
pub mod Own
pub mod Socks5
use ntap_a.Base.{
  ℕ, List, [], ◌∷◌, ◌++◌, Bool, true, false, not, ◌&&◌, Option, none, some, ◌==◌, ◌!=◌,
  if◌then◌else◌, get_or, set,
}
use ntap_a.Base.Words.{Bytes}
use ntap_a.Proto.MsgType
use ntap_a.Wire.Frame.{TapFrame, decode_tap_frame}
use ntap_a.Wire.Socks.{SocksData, SocksClose, decode_socks_data, decode_socks_close}
use ntap_a.Session.{Session, Enqueued, session_enqueue_control}
use ntap_a.Hub.{Hub, session_find}
use ntap_a.Hub.Relay.{no_session, relay_tap_frame}
use ntap_a.Hub.Steps.{change}
use ntap_a.Streams.{Registry, Effect, Delivery, socks_stream_send_to_client}
use ntap_a.Streams.End.{socks_stream_handle_node_close}

-- What the loop knows of its peer: `authenticated_is_node`, `auth_ok.network_id`, and whether
-- `db_session_id` is above 0.
pub record Peer : Type 0 where
  pub fd : ℕ
  pub network_id : ℕ
  pub is_node : Bool
  pub has_row : Bool

-- What a message meets: memory for an outbound message and for a frame, the client's socket, whether
-- ntap_a_db_set_node_online and ntap_a_db_session_touch succeed, and the clock.
pub record Env : Type 0 where
  pub alloc : ℕ → Bool
  pub alloc_frame : ℕ → ℕ → Bool
  pub send : ℕ → Bytes → Bool
  pub set_online : Bool
  pub touch : Bool
  pub now : ℕ

-- The tables under the two mutexes.
pub record Tables : Type 0 where
  pub hub : Hub
  pub streams : Registry

-- Whether the loop goes on, what was done to sockets and rows, and the tables.
pub record Turn : Type 0 where
  pub goes_on : Bool
  pub effects : List Effect
  pub delivery : Option Delivery
  pub tables : Tables

abbrev pub only : Bool → Tables → Turn
only goes_on t = record { goes_on = goes_on; effects = []; delivery = none; tables = t }

abbrev pub is_queued : Enqueued → Bool
is_queued Enqueued.queued = true
is_queued Enqueued.dropped = false
is_queued Enqueued.refused = false

-- From the look-up of the session on: a PONG is queued for it.
abbrev pub pong_to : Env → Tables → Option ℕ → Turn
pong_to env t none = only false t
pong_to env t (some i) =
    let (r, s) =
      session_enqueue_control env.alloc (get_or t.hub.sessions i no_session) MsgType.pong [] in
    only (is_queued r) (record t { hub = change t.hub i s })

unfoldable pub on_ping : Env → Peer → Tables → Turn
on_ping env peer t =
    if peer.is_node && not env.set_online
    then only false t
    else if peer.has_row && not env.touch
    then only false t
    else pong_to env t (session_find peer.fd peer.network_id t.hub.sessions)

unfoldable pub on_tap_frame : Env → Peer → Bytes → Option TapFrame → Tables → Turn
on_tap_frame env peer payload none t = only false t
on_tap_frame env peer payload (some m) t =
    let (forwarded, mode, hub) =
      relay_tap_frame env.alloc_frame peer.fd m.network_id m.frame payload env.now t.hub in
    if m.network_id != peer.network_id
    then only false t
    else if peer.has_row && not env.touch
    then only false t
    else only true (record t { hub = hub })

abbrev pub delivered : Tables → Option Delivery → Turn
delivered t none = only false t
delivered t (some d) = record { goes_on = d.sent; effects = []; delivery = some d; tables = t }

unfoldable pub on_socks_data : Env → Peer → Option SocksData → Tables → Turn
on_socks_data env peer none t = only false t
on_socks_data env peer (some m) t =
    delivered t (socks_stream_send_to_client env.send m.stream_id peer.fd m.bytes t.streams)

unfoldable pub on_socks_close : Peer → Option SocksClose → Tables → Turn
on_socks_close peer none t = only false t
on_socks_close peer (some m) t =
    let (effects, streams) =
      socks_stream_handle_node_close m.stream_id peer.fd m.reason_code m.flags t.streams in
    record {
      goes_on = true;
      effects = effects;
      delivery = none;
      tables = record t { streams = streams };
    }

-- One turn of the loop, for a message of this type with this payload.
unfoldable pub handle_message : Env → Peer → ℕ → Bytes → Tables → Turn
handle_message env peer type payload t =
    if type == MsgType.ping
    then on_ping env peer t
    else if type == MsgType.tap_frame
    then on_tap_frame env peer payload (decode_tap_frame payload) t
    else if type == MsgType.socks_stream_data
    then on_socks_data env peer (decode_socks_data payload) t
    else if type == MsgType.socks_stream_close
    then on_socks_close peer (decode_socks_close payload) t
    else only false t
