-- ===== src/Net.antt =====
-- src/common/net.c: bytes and messages over a stream socket. The kernel's side of a socket is a list
-- of events, in their order; it is empty where the peer has closed the connection. A call that
-- waits forever (`select` without a timeout) is over with the event it waits for. An arrival of more
-- bytes than a call asks for stays there with the rest, so the 32768 bytes that `recv` and `send` are
-- asked for at most only cut it into more pieces. The texts in `err` are left out.
pub mod Stream
pub mod Message
pub mod Refused
use ntap_a.Base.{
  ℕ, zero, suc, ◌+◌, ◌-◌, List, [], ◌∷◌, ◌++◌, Bool, true, false, not, Option, none, some, leb, ltb,
  ◌==◌, if◌then◌else◌, length, take, drop,
}
use Prim.Native.Nat.{min}
use ntap_a.Base.Words.{Bytes}
use ntap_a.Proto.{
  magic, version, hdr_size, default_mtu, Hdr, Status, hdr_encode, hdr_decode,
  payload_length_allowed,
}

-- What the receiving side of a socket meets: at least one byte has come; the call would block, and
-- the wait for the socket succeeds or not; the call fails.
pub data Arrival : Type 0 where
  bytes : ℕ → Bytes → Arrival
  would_block : Bool → Arrival
  error : Arrival

abbrev pub put_back : Bytes → List Arrival → List Arrival
put_back [] es = es
put_back (b ∷ bs) es = Arrival.bytes b bs ∷ es

-- `ntap_recv_all`: the n bytes, `none` where it fails, and what is left.
unfoldable pub recv_all : ℕ → List Arrival → Option Bytes × List Arrival
recv_all zero es = (some [], es)
recv_all (suc n) [] = (none, [])
recv_all (suc n) (Arrival.error ∷ es) = (none, es)
recv_all (suc n) (Arrival.would_block false ∷ es) = (none, es)
recv_all (suc n) (Arrival.would_block true ∷ es) = recv_all (suc n) es
recv_all (suc n) (Arrival.bytes b bs ∷ es) =
    let (r, es') = recv_all (n - length bs) es in
    if leb n (length bs)
    then (some (b ∷ take n bs), put_back (drop n bs) es)
    else (elim r [ none ↦ none | some more ↦ some (b ∷ bs ++ more) ], es')

-- What one call of `send` comes to: it takes some bytes; none can be taken, and the wait for the
-- socket succeeds or not; it fails.
pub data Sent : Type 0 where
  takes : ℕ → Sent
  full : Bool → Sent
  error : Sent

abbrev pub send_max : ℕ
send_max = 32768

-- The bytes of a call that takes k + 1 of them, at most those that are offered.
abbrev pub taken : ℕ → Bytes → ℕ
taken k data' = min (suc k) (min send_max (length data'))

abbrev pub on_wire : Bytes → Bool × Bytes × List Sent → Bool × Bytes × List Sent
on_wire sent (ok, more, es) = (ok, sent ++ more, es)

-- `ntap_send_all_timeout`: whether it succeeds, the bytes that went out, and the calls to come.
unfoldable pub send_all_timeout : Bytes → List Sent → Bool × Bytes × List Sent
send_all_timeout [] es = (true, [], es)
send_all_timeout (b ∷ bs) [] = (false, [], [])
send_all_timeout (b ∷ bs) (Sent.takes k ∷ es) =
    on_wire (take (taken k (b ∷ bs)) (b ∷ bs))
      (send_all_timeout (drop (taken k (b ∷ bs)) (b ∷ bs)) es)
send_all_timeout (b ∷ bs) (Sent.full true ∷ es) = send_all_timeout (b ∷ bs) es
send_all_timeout (b ∷ bs) (Sent.full false ∷ es) = (false, [], es)
send_all_timeout (b ∷ bs) (Sent.error ∷ es) = (false, [], es)

-- `ntap_send_all`, on a socket that blocks: a call that takes nothing is an error.
unfoldable pub send_all : Bytes → List Sent → Bool × Bytes × List Sent
send_all [] es = (true, [], es)
send_all (b ∷ bs) [] = (false, [], [])
send_all (b ∷ bs) (Sent.takes k ∷ es) =
    on_wire (take (taken k (b ∷ bs)) (b ∷ bs)) (send_all (drop (taken k (b ∷ bs)) (b ∷ bs)) es)
send_all (b ∷ bs) (Sent.full w ∷ es) = (false, [], es)
send_all (b ∷ bs) (Sent.error ∷ es) = (false, [], es)

abbrev pub msg_hdr : ℕ → ℕ → Bytes → Hdr
msg_hdr type session_id payload = record {
  magic = magic;
  version = version;
  type = type;
  flags = 0;
  session_id = session_id;
  length = length payload;
}

module _ (send : Bytes → List Sent → Bool × Bytes × List Sent) where
  abbrev pub send_payload : Bytes → Bool × Bytes × List Sent → Bool × Bytes × List Sent
  send_payload payload (false, out, es) = (false, out, es)
  send_payload payload (true, out, es) = on_wire out (send payload es)

  abbrev pub send_encoded : Bytes → Status × Bytes → List Sent → Bool × Bytes × List Sent
  send_encoded payload (Status.ok, raw) es = send_payload payload (send raw es)
  send_encoded payload (s, raw) es = (false, [], es)

-- `ntap_send_msg`
unfoldable pub send_msg : ℕ → ℕ → Bytes → List Sent → Bool × Bytes × List Sent
send_msg type session_id payload es =
    send_encoded send_all payload (hdr_encode (msg_hdr type session_id payload)) es

-- `ntap_send_msg_timeout`
unfoldable pub send_msg_timeout : ℕ → ℕ → Bytes → List Sent → Bool × Bytes × List Sent
send_msg_timeout type session_id payload es =
    send_encoded send_all_timeout payload (hdr_encode (msg_hdr type session_id payload)) es

pub data RecvError : Type 0 where
  not_received : RecvError
  bad_header : Status → RecvError
  payload_too_large : RecvError
  buffer_too_small : RecvError

-- A message, or why there is none.
pub data Received : Type 0 where
  message : Hdr → Bytes → Received
  failed : RecvError → Received

abbrev pub recv_body : Hdr → Option Bytes × List Arrival → Received × List Arrival
recv_body hdr (none, es) = (Received.failed RecvError.not_received, es)
recv_body hdr (some payload, es) = (Received.message hdr payload, es)

abbrev pub recv_payload : ℕ → Status × Hdr → List Arrival → Received × List Arrival
recv_payload cap (Status.ok, hdr) es =
    if not (payload_length_allowed hdr.type hdr.length default_mtu)
    then (Received.failed RecvError.payload_too_large, es)
    else if ltb cap hdr.length
    then (Received.failed RecvError.buffer_too_small, es)
    else recv_body hdr (recv_all hdr.length es)
recv_payload cap (s, hdr) es = (Received.failed (RecvError.bad_header s), es)

abbrev pub recv_hdr : ℕ → Option Bytes × List Arrival → Received × List Arrival
recv_hdr cap (none, es) = (Received.failed RecvError.not_received, es)
recv_hdr cap (some raw, es) = recv_payload cap (hdr_decode raw) es

-- `ntap_recv_msg` into a buffer of `cap` bytes.
unfoldable pub recv_msg : ℕ → List Arrival → Received × List Arrival
recv_msg cap es = recv_hdr cap (recv_all hdr_size es)
