-- ===== src/Tests/Net.antt =====
-- src/common/net.c at small inputs.
use ntap_a.Base.{◌≡◌, refl, List, [], ◌∷◌, ◌++◌, true, arith, replicate}
use ntap_a.Base.Words.{Bytes}
use ntap_a.Proto.{
  hdr_encode, hdr_check, hdr_bytes, payload_length_allowed, msg_type_is_valid, max_mtu,
}
use ntap_a.Proto.MsgType.{ping, tap_frame}
use ntap_a.Net.{
  Arrival, put_back, Sent, msg_hdr, send_all, send_all_timeout, send_msg, send_msg_timeout,
  RecvError, Received, recv_msg,
}
use ntap_a.Net.Stream.{content, content-put_back}
use ntap_a.Net.Message.{recv_msg-send_msg_timeout}
use ntap_a.Net.Refused.{recv_msg_refuses}

-- The header goes out in two calls, the payload in one.
abbrev calls : List Sent
calls = Sent.takes 9 ∷ Sent.full true ∷ Sent.takes 5 ∷ Sent.takes 0 ∷ []

sent_ping : (send_msg_timeout ping 7 (65 ∷ []) calls).0 ≡ true
unfolding send_msg_timeout send_all_timeout hdr_encode hdr_check hdr_bytes msg_type_is_valid
sent_ping = refl

wire_ping :
    (send_msg_timeout ping 7 (65 ∷ []) calls).1
    ≡ 0x4e ∷ 0x54 ∷ 0x41 ∷ 0x50 ∷ 1 ∷ ping ∷ 0 ∷ 0 ∷ 0 ∷ 0 ∷ 0 ∷ 7 ∷ 0 ∷ 0 ∷ 0 ∷ 1 ∷ 65 ∷ []
unfolding send_msg_timeout send_all_timeout hdr_encode hdr_check hdr_bytes msg_type_is_valid
wire_ping = refl

-- It comes with a byte of the next message.
abbrev ping_arrivals : List Arrival
ping_arrivals =
    Arrival.bytes 0x4e (0x54 ∷ 0x41 ∷ [])
    ∷ Arrival.bytes 0x50 (1 ∷ ping ∷ 0 ∷ 0 ∷ 0 ∷ 0 ∷ 0 ∷ 7 ∷ 0 ∷ 0 ∷ 0 ∷ 1 ∷ 65 ∷ 0x4e ∷ [])
    ∷ []

arrives_ping : content ping_arrivals ≡ (send_msg_timeout ping 7 (65 ∷ []) calls).1 ++ (0x4e ∷ [])
unfolding send_msg_timeout send_all_timeout hdr_encode hdr_check hdr_bytes msg_type_is_valid
arrives_ping = refl

allowed_ping : payload_length_allowed ping 1 1400 ≡ true
unfolding payload_length_allowed
allowed_ping = ground arith

recv_msg-send_msg_timeout_example :
    ((recv_msg 64 ping_arrivals).0 ≡ Received.message (msg_hdr ping 7 (65 ∷ [])) (65 ∷ []))
    × (content (recv_msg 64 ping_arrivals).1 ≡ 0x4e ∷ [])
recv_msg-send_msg_timeout_example =
    recv_msg-send_msg_timeout ping 7 64 (65 ∷ []) (0x4e ∷ []) calls ping_arrivals (omega arith)
      allowed_ping (omega arith) sent_ping arrives_ping

-- A frame of a network with an MTU of 1500.
abbrev frame : Bytes
frame = replicate 1500 0

abbrev frame_calls : List Sent
frame_calls = Sent.takes 4000 ∷ Sent.takes 4000 ∷ []

sent_frame : (send_msg tap_frame 7 frame frame_calls).0 ≡ true
unfolding send_msg send_all hdr_encode hdr_check hdr_bytes msg_type_is_valid
sent_frame = refl

abbrev frame_arrivals : List Arrival
frame_arrivals = put_back (send_msg tap_frame 7 frame frame_calls).1 []

recv_msg_refuses_example :
    (payload_length_allowed tap_frame 1500 max_mtu ≡ true)
    × ((recv_msg 65536 frame_arrivals).0 ≡ Received.failed RecvError.payload_too_large)
    × (content (recv_msg 65536 frame_arrivals).1 ≡ frame ++ [])
recv_msg_refuses_example =
    recv_msg_refuses 7 65536 frame [] frame_calls frame_arrivals (omega arith) (omega arith)
      (omega arith) sent_frame (content-put_back (send_msg tap_frame 7 frame frame_calls).1 [])
