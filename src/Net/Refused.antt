-- ===== src/Net/Refused.antt =====
-- Which messages of a network are refused for their length.
use ntap_a.Base.{ℕ, ◌+◌, ◌≤◌, ◌<◌, ◌≡◌, refl, List, ◌++◌, true, false, arith, length}
use ntap_a.Base.Words.{Bytes, IsU32}
use ntap_a.Proto.{
  default_mtu, max_mtu, tap_payload_extra, payload_length_allowed, msg_type_is_valid,
}
use ntap_a.Proto.MsgType.{tap_frame}
use ntap_a.Net.{Arrival, Sent, send_msg, RecvError, Received, recv_msg}
use ntap_a.Net.Stream.{content}
use ntap_a.Net.Message.{send_msg-IsOnWire, recv_msg-hdr, msg_hdr-IsInRange}

too_long :
    (n : ℕ)
    → default_mtu + tap_payload_extra < n
    → payload_length_allowed tap_frame n default_mtu ≡ false
unfolding payload_length_allowed
too_long n h = ground (arith, h)

-- A TAP frame that is longer than the default MTU allows and at most as long as a network with the
-- largest MTU allows, and that `ntap_send_msg` has sent under a session id of 32 bits, has a length
-- that its network's MTU allows; `ntap_recv_msg` refuses it, whatever its buffer, with its header
-- alone read.
pub recv_msg_refuses :
    (session_id cap : ℕ) (payload rest : Bytes) (out : List Sent) (es : List Arrival)
    → IsU32 session_id
    → default_mtu + tap_payload_extra < length payload
    → length payload ≤ max_mtu + tap_payload_extra
    → (send_msg tap_frame session_id payload out).0 ≡ true
    → content es ≡ (send_msg tap_frame session_id payload out).1 ++ rest
    → (payload_length_allowed tap_frame (length payload) max_mtu ≡ true)
      × ((recv_msg cap es).0 ≡ Received.failed RecvError.payload_too_large)
      × (content (recv_msg cap es).1 ≡ payload ++ rest)
unfolding payload_length_allowed
recv_msg_refuses session_id cap payload rest out es sid long fits sent c =
    let range =
      msg_hdr-IsInRange tap_frame session_id payload (unfold msg_type_is_valid in refl) sid
        (omega (arith, fits)) in
    let wire = send_msg-IsOnWire tap_frame session_id payload out sent in
    let (left, behind, e) = recv_msg-hdr tap_frame session_id cap payload _ rest es range wire c in
    (
      ground (arith, fits),
      rw (e, too_long (length payload) long) refl,
      rw (e, too_long (length payload) long) behind,
    )
