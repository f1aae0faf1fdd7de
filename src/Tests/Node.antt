-- ===== src/Tests/Node.antt =====
-- The messages of a peer and the SOCKS5 dialogue of src/a/node_server.c at small inputs.
use ntap_a.Base.{◌≡◌, refl, List, [], ◌∷◌, ◌++◌, true, false, some, arith}
use ntap_a.Base.Texts.{lacks}
use ntap_a.Base.Words.{Bytes}
use ntap_a.Proto.MsgType.{tap_frame}
use ntap_a.Net.{Arrival, put_back, recv_all}
use ntap_a.Net.Stream.{content}
use ntap_a.Node.{Peer, Env, handle_message}
use ntap_a.Node.Own.{Own, handle_message-Own}
use ntap_a.Node.Socks5.{socks5_authenticate, socks5_read_connect}
use ntap_a.Node.Socks5.Connect.{connect_request, socks5_read_connect-connect_request}
use ntap_a.Tests.Hub.{always, small_hub, to_all}
use ntap_a.Tests.Streams.{reg}

abbrev env : Env
env = record {
  alloc = λ n. true;
  alloc_frame = always;
  send = λ fd bs. true;
  set_online = true;
  touch = true;
  now = 101;
}

-- Client 5 of network 3.
abbrev peer : Peer
peer = record { fd = 5; network_id = 3; is_node = false; has_row = true }

-- A frame to everybody.
abbrev frame_payload : Bytes
frame_payload = 0 ∷ 0 ∷ 0 ∷ 3 ∷ 0 ∷ 15 ∷ to_all

handle_message-Own_example :
    Own peer
      (record { hub = small_hub; streams = reg })
      (handle_message env peer tap_frame frame_payload (record { hub = small_hub; streams = reg }))
handle_message-Own_example =
    handle_message-Own env peer tap_frame frame_payload (record { hub = small_hub; streams = reg })

-- "a.b"
abbrev host : Bytes
host = 97 ∷ b'.' ∷ 98 ∷ []

host_plain : lacks 0 host ≡ true
unfolding lacks
host_plain = refl

-- A request with one byte behind it.
abbrev asked : List Arrival
asked = put_back (connect_request host 80 ++ (7 ∷ [])) []

socks5_read_connect-connect_request_example :
    (left : List Arrival) × (socks5_read_connect 256 asked
      ≡ some (record { host = host; port = 80; left = left }))
    × (content left ≡ 7 ∷ [])
socks5_read_connect-connect_request_example =
    socks5_read_connect-connect_request 256 host (7 ∷ []) 80 asked (omega arith) (omega arith)
      host_plain (omega arith) (omega arith) refl

-- A user name and a password of one byte, which are let in.
logged_in :
    (socks5_authenticate
      (λ user password. some user)
      (put_back (5 ∷ 1 ∷ 2 ∷ 1 ∷ 1 ∷ 97 ∷ 1 ∷ 98 ∷ []) [])).answers
    ≡ (5 ∷ 2 ∷ []) ∷ (1 ∷ 0 ∷ []) ∷ []
unfolding socks5_authenticate recv_all
logged_in = refl
