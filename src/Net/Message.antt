-- ===== src/Net/Message.antt =====
-- A message that was sent is the message that is received.
use ntap_a.Base.{
  ℕ, ◌≤◌, ◌≡◌, refl, sym, ap, ◌∙◌, List, [], ◌++◌, Bool, true, false, Option, none, some, arith,
  ltb, length, take, drop, take-append_self, drop-append_self, append_assoc, length-append,
  append-nil,
}
use ntap_a.Base.Words.{Bytes, IsByte, IsU32}
use ntap_a.Proto.{
  Hdr, Status, ok, hdr_size, default_mtu, hdr_encode, hdr_decode, payload_length_allowed,
  msg_type_is_valid,
}
use ntap_a.Proto.Limits.{payload_length_allowed_bounds}
use ntap_a.Proto.Header.{IsInRange, hdr_decode-hdr_encode}
use ntap_a.Net.{
  Arrival, recv_all, Sent, msg_hdr, send_payload, send_encoded, send_all, send_all_timeout,
  send_msg, send_msg_timeout, Received, recv_body, recv_payload, recv_hdr, recv_msg,
}
use ntap_a.Net.Stream.{content, Sends, recv_all_lem, send_all-Sends, send_all_timeout-Sends}

-- What a send that succeeded has put on the wire.
send_payload-out :
    (send : Bytes → List Sent → Bool × Bytes × List Sent)
    → ((data' : Bytes) (es : List Sent) → Sends data' (send data' es))
    → (raw payload : Bytes) (r : Bool × Bytes × List Sent) → Sends raw r
    → (send_payload send payload r).0 ≡ true
    → (send_payload send payload r).1 ≡ raw ++ payload
send_payload-out send all raw payload (false, out, es) s h = absurd (ground (arith, h))
send_payload-out send all raw payload (true, out, es) (prefix, whole) h =
    let e : out ≡ raw = whole refl in
    let (prefix', whole') = all payload es in rw (e, whole' h) refl

send_encoded-out :
    (send : Bytes → List Sent → Bool × Bytes × List Sent)
    → ((data' : Bytes) (es : List Sent) → Sends data' (send data' es))
    → (encoded : Status × Bytes) (payload : Bytes) (es : List Sent)
    → (send_encoded send payload encoded es).0 ≡ true
    → (encoded.0 ≡ ok) × ((send_encoded send payload encoded es).1 ≡ encoded.1 ++ payload)
send_encoded-out send all (Status.ok, raw) payload es h =
    (refl, send_payload-out send all raw payload (send raw es) (all raw es) h)
send_encoded-out send all (Status.invalid_arg, raw) payload es h = absurd (ground (arith, h))
send_encoded-out send all (Status.bad_magic, raw) payload es h = absurd (ground (arith, h))
send_encoded-out send all (Status.bad_version, raw) payload es h = absurd (ground (arith, h))
send_encoded-out send all (Status.bad_type, raw) payload es h = absurd (ground (arith, h))
send_encoded-out send all (Status.payload_too_large, raw) payload es h = absurd (ground (arith, h))

-- The wire holds the message.
abbrev pub IsOnWire : ℕ → ℕ → Bytes → Bytes → Type 0
IsOnWire type session_id payload wire =
    (raw : Bytes) × (hdr_encode (msg_hdr type session_id payload) ≡ (ok, raw))
    × (wire ≡ raw ++ payload)

pub send_msg-IsOnWire :
    (type session_id : ℕ) (payload : Bytes) (es : List Sent)
    → (send_msg type session_id payload es).0 ≡ true
    → IsOnWire type session_id payload (send_msg type session_id payload es).1
unfolding send_msg
send_msg-IsOnWire type session_id payload es h =
    let encoded = hdr_encode (msg_hdr type session_id payload) in
    let (good, out) = send_encoded-out send_all send_all-Sends encoded payload es h in
    (encoded.1, ap (λ s. (s, encoded.1)) good, out)

pub send_msg_timeout-IsOnWire :
    (type session_id : ℕ) (payload : Bytes) (es : List Sent)
    → (send_msg_timeout type session_id payload es).0 ≡ true
    → IsOnWire type session_id payload (send_msg_timeout type session_id payload es).1
unfolding send_msg_timeout
send_msg_timeout-IsOnWire type session_id payload es h =
    let encoded = hdr_encode (msg_hdr type session_id payload) in
    let (good, out) =
      send_encoded-out send_all_timeout send_all_timeout-Sends encoded payload es h in
    (encoded.1, ap (λ s. (s, encoded.1)) good, out)

-- The header arrives, whatever is behind it.
pub recv_msg-hdr :
    (type session_id cap : ℕ) (payload wire rest : Bytes) (es : List Arrival)
    → IsInRange (msg_hdr type session_id payload)
    → IsOnWire type session_id payload wire
    → content es ≡ wire ++ rest
    → (left : List Arrival) × (content left ≡ payload ++ rest)
      × (recv_msg cap es ≡ recv_payload cap (ok, msg_hdr type session_id payload) left)
unfolding recv_msg
recv_msg-hdr type session_id cap payload wire rest es range (raw, enc, w) c =
    let (size, back) = hdr_decode-hdr_encode (msg_hdr type session_id payload) raw [] range enc in
    let all : content es ≡ raw ++ (payload ++ rest) =
      c ∙ ap (λ x. x ++ rest) w ∙ append_assoc raw payload rest in
    let (got, left) =
      recv_all_lem hdr_size es
        (rw all (omega (arith, size, length-append raw (payload ++ rest)))) in
    let t : take hdr_size (content es) ≡ raw =
      rw all (take-append_self hdr_size raw (payload ++ rest) size) in
    let d : drop hdr_size (content es) ≡ payload ++ rest =
      rw all (drop-append_self hdr_size raw (payload ++ rest) size) in
    let back' : hdr_decode raw ≡ (ok, msg_hdr type session_id payload) =
      ap hdr_decode (sym (append-nil raw)) ∙ back in
    (
      (recv_all hdr_size es).1,
      left ∙ d,
      ap (λ r. recv_hdr cap (r, (recv_all hdr_size es).1)) (got ∙ ap some t)
          ∙ ap (λ p. recv_payload cap p (recv_all hdr_size es).1) back',
    )

valid_type : (type : ℕ) → msg_type_is_valid type ≡ true → IsByte type
unfolding msg_type_is_valid
valid_type type h = ground (arith, h)

pub msg_hdr-IsInRange :
    (type session_id : ℕ) (payload : Bytes)
    → msg_type_is_valid type ≡ true
    → IsU32 session_id
    → IsU32 (length payload)
    → IsInRange (msg_hdr type session_id payload)
msg_hdr-IsInRange type session_id payload t sid len = record {
  magic = omega arith;
  version = omega arith;
  type = valid_type type t;
  flags = omega arith;
  session_id = sid;
  length = len;
}

recv_body-rest :
    (hdr : Hdr) (r : Option Bytes × List Arrival) {rest : Bytes}
    → content r.1 ≡ rest
    → content (recv_body hdr r).1 ≡ rest
recv_body-rest hdr (none, es) h = h
recv_body-rest hdr (some payload, es) h = h

recv_payload-allowed :
    (hdr : Hdr) (cap : ℕ) (payload rest : Bytes) (left : List Arrival)
    → payload_length_allowed hdr.type hdr.length default_mtu ≡ true
    → hdr.length ≤ cap
    → hdr.length ≡ length payload
    → content left ≡ payload ++ rest
    → ((recv_payload cap (ok, hdr) left).0 ≡ Received.message hdr payload)
      × (content (recv_payload cap (ok, hdr) left).1 ≡ rest)
recv_payload-allowed hdr cap payload rest left allowed fits size c =
    let (got, after) =
      recv_all_lem hdr.length left (rw c (omega (arith, size, length-append payload rest))) in
    let t : take hdr.length (content left) ≡ payload =
      rw c (take-append_self hdr.length payload rest (sym size)) in
    let d : drop hdr.length (content left) ≡ rest =
      rw c (drop-append_self hdr.length payload rest (sym size)) in
    let small : ltb cap hdr.length ≡ false = ground (arith, fits) in
    (
      rw (allowed, small, got, t) refl,
      rw (allowed, small) (recv_body-rest hdr (recv_all hdr.length left) (after ∙ d)),
    )

-- A message that `ntap_send_msg_timeout` has sent under a session id of 32 bits, of a length that
-- its type may have with the default MTU and that fits the buffer, is what `ntap_recv_msg` gives,
-- and it leaves what was sent after it: however the bytes were cut by either side, and however often
-- either has to wait.
pub recv_msg-send_msg_timeout :
    (type session_id cap : ℕ) (payload rest : Bytes) (out : List Sent) (es : List Arrival)
    → IsU32 session_id
    → payload_length_allowed type (length payload) default_mtu ≡ true
    → length payload ≤ cap
    → (send_msg_timeout type session_id payload out).0 ≡ true
    → content es ≡ (send_msg_timeout type session_id payload out).1 ++ rest
    → ((recv_msg cap es).0 ≡ Received.message (msg_hdr type session_id payload) payload)
      × (content (recv_msg cap es).1 ≡ rest)
recv_msg-send_msg_timeout type session_id cap payload rest out es sid allowed fits sent c =
    let (valid, bound, same) =
      payload_length_allowed_bounds type (length payload) (length payload) default_mtu allowed
        (omega arith) in
    let range = msg_hdr-IsInRange type session_id payload valid sid (omega (arith, bound)) in
    let wire = send_msg_timeout-IsOnWire type session_id payload out sent in
    let (left, behind, e) = recv_msg-hdr type session_id cap payload _ rest es range wire c in
    rw e (
      recv_payload-allowed (msg_hdr type session_id payload) cap payload rest left allowed fits refl
        behind)
