-- ===== src/Session.antt =====
-- src/a/node_server.c: one logged-in peer and its two outbound queues, which the relay fills and
-- the session's writer thread empties.
-- A linked queue is the list of its messages, oldest first. Each function below that takes
-- `writer_mu` is one step: it holds the mutex from its first access of the session to its last.
-- `alloc n` is whether `outbound_msg_create` gets the memory of a message with n payload bytes.
pub mod Queue
pub mod Budget
use ntap_a.Base.{
  ℕ, ◌+◌, ◌-◌, ◌*◌, ◌%◌, ◌^◌, List, [], ◌∷◌, ◌++◌, Bool, true, false, not, ◌&&◌, ◌||◌, Option, none,
  some, ltb, leb, ◌==◌, ◌!=◌, if◌then◌else◌, length,
}
use ntap_a.Base.Words.{Bytes}
use ntap_a.Proto.{hdr_size}
use ntap_a.Proto.MsgType

abbrev pub default_tap_queue_limit_bytes : ℕ
default_tap_queue_limit_bytes = 256 * 1024

-- `outbound_msg_t`; `payload_len` is the length of `payload`.
pub record OutboundMsg : Type 0 where
  pub type : ℕ
  pub session_id : ℕ
  pub queued_bytes : ℕ
  pub payload : Bytes

-- `active_session_t`, but for the thread, its mutex and its condition variable.
pub record Session : Type 0 where
  pub active : Bool
  pub fd : ℕ
  pub db_session_id : ℕ
  pub node_pk : ℕ
  pub session_id : ℕ
  pub network_id : ℕ
  pub is_tap_client : Bool
  pub socks_enabled : Bool
  pub mac_ttl_sec : ℕ
  pub broadcast_limit_pps : ℕ
  pub session_broadcast_limit_pps : ℕ
  pub max_mac_per_session : ℕ
  pub tap_queue_limit_bytes : ℕ
  pub allow_client_to_client : Bool
  pub allow_l2_control : Bool
  pub flood_window_sec : ℕ
  pub flood_count : ℕ
  pub tap_queue_window_sec : ℕ
  pub tap_queue_window_bytes : ℕ
  pub tap_queue_drops : ℕ
  pub tap_pending_bytes : ℕ
  pub writer_started : Bool
  pub writer_stop : Bool
  pub ctrl_queue : List OutboundMsg
  pub tap_queue : List OutboundMsg
  pub node_id : Bytes
  pub db_file : Bytes

unfoldable pub queued_msg_bytes : ℕ → ℕ
queued_msg_bytes payload_len =
    if ltb (0xffffffff - hdr_size) payload_len then 0xffffffff else payload_len + hdr_size

unfoldable pub outbound_msg_create : (ℕ → Bool) → ℕ → ℕ → Bytes → Option OutboundMsg
outbound_msg_create alloc type session_id payload =
    if alloc (length payload)
    then some (record {
      type = type;
      session_id = session_id;
      queued_bytes = queued_msg_bytes (length payload);
      payload = payload;
    })
    else none

unfoldable pub queue_append : List OutboundMsg → OutboundMsg → List OutboundMsg
queue_append q msg = q ++ (msg ∷ [])

-- `session_queue_clear_locked`
unfoldable pub session_queue_clear : Session → Session
session_queue_clear s = record s { ctrl_queue = []; tap_queue = []; tap_pending_bytes = 0 }

unfoldable pub pop_tap : List OutboundMsg → Session → Option OutboundMsg × Session
pop_tap [] s = (none, s)
pop_tap (msg ∷ rest) s = (
  some msg,
  record s {
    tap_queue = rest;
    tap_pending_bytes =
        if leb msg.queued_bytes s.tap_pending_bytes
        then s.tap_pending_bytes - msg.queued_bytes
        else 0;
  },
)

unfoldable pub pop_from : List OutboundMsg → Session → Option OutboundMsg × Session
unfolding pop_tap
pop_from [] s = pop_tap s.tap_queue s
pop_from (msg ∷ rest) s = (some msg, record s { ctrl_queue = rest })

-- `session_queue_pop_locked`: control messages go first.
unfoldable pub session_queue_pop : Session → Option OutboundMsg × Session
unfolding pop_from
session_queue_pop s = pop_from s.ctrl_queue s

-- The int that an enqueue returns: -1, 0, 1.
pub data Enqueued : Type 0 where
  refused dropped queued : Enqueued

abbrev pub writer_is_active : Session → Bool
writer_is_active s = s.writer_started && not s.writer_stop

unfoldable pub session_enqueue_control : (ℕ → Bool) → Session → ℕ → Bytes → Enqueued × Session
unfolding outbound_msg_create
session_enqueue_control alloc s type payload =
    elim (outbound_msg_create alloc type s.session_id payload) [
      | none ↦ (refused, s)
      | some msg ↦
          if not (writer_is_active s)
          then (refused, s)
          else (queued, record s { ctrl_queue = queue_append s.ctrl_queue msg })
    ]

abbrev pub queue_limit : Session → ℕ
queue_limit s =
    if s.tap_queue_limit_bytes == 0 then default_tap_queue_limit_bytes else s.tap_queue_limit_bytes

-- A new second starts a new window.
unfoldable pub roll_window : Session → ℕ → Session
roll_window s now =
    if s.tap_queue_window_sec != now
    then record s { tap_queue_window_sec = now; tap_queue_window_bytes = 0 }
    else s

-- The test that drops a flooded frame. `limit - frame_bytes` is reached only where it is positive.
unfoldable pub over_budget : Session → ℕ → Bool
over_budget s frame_bytes =
    ltb (queue_limit s) frame_bytes
    || ltb (queue_limit s - frame_bytes) s.tap_pending_bytes
    || ltb (queue_limit s - frame_bytes) s.tap_queue_window_bytes

-- The end of `session_enqueue_tap`: the message is made and appended. uint32_t sums wrap.
unfoldable pub push_tap : (ℕ → Bool) → Session → Bytes → Bool → Enqueued × Session
unfolding outbound_msg_create
push_tap alloc s payload enforce =
    elim (outbound_msg_create alloc MsgType.tap_frame s.session_id payload) [
      | none ↦ (refused, s)
      | some msg ↦ (
        queued,
        record s {
          tap_queue = queue_append s.tap_queue msg;
          tap_pending_bytes = (s.tap_pending_bytes + msg.queued_bytes) % 2 ^ 32;
          tap_queue_window_bytes =
              if enforce
              then (s.tap_queue_window_bytes + msg.queued_bytes) % 2 ^ 32
              else s.tap_queue_window_bytes;
        },
      )
    ]

unfoldable pub session_enqueue_tap : (ℕ → Bool) → Session → Bytes → Bool → ℕ → Enqueued × Session
session_enqueue_tap alloc s payload enforce now =
    if not (writer_is_active s)
    then (refused, s)
    else if not enforce
    then push_tap alloc s payload enforce
    else (let s' = roll_window s now in
        if over_budget s' (queued_msg_bytes (length payload))
        then (dropped, record s' { tap_queue_drops = (s'.tap_queue_drops + 1) % 2 ^ 32 })
        else push_tap alloc s' payload enforce)

-- What one round of `session_writer_run` does; `sent` has the bytes that it adds to the database row
-- of the session, if any, and `failed` the descriptor that it shuts down.
pub data Round : Type 0 where
  waits ends : Round
  failed : ℕ → Round
  sent : OutboundMsg → Option ℕ → Round

abbrev pub touched_bytes : Session → OutboundMsg → Option ℕ
touched_bytes s msg =
    if msg.type == MsgType.tap_frame && ltb 0 s.db_session_id
    then some (length msg.payload)
    else none

-- One round of the loop of `session_writer_run`. `send` is whether `ntap_send_msg_timeout` sends the
-- message; after `ends` and `failed` the loop is left.
unfoldable pub writer_round : (OutboundMsg → Bool) → Session → Round × Session
unfolding session_queue_clear
writer_round send s =
    if s.writer_stop
    then (ends, session_queue_clear s)
    else (let (popped, s') = session_queue_pop s in
        elim popped [
          | none ↦ (waits, s)
          | some msg ↦
              if send msg
              then (sent msg (touched_bytes s' msg), s')
              else (failed s.fd, session_queue_clear (record s' { writer_stop = true }))
        ])
