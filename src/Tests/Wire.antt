-- ===== src/Tests/Wire.antt =====
-- Headers and payloads of src/common/proto.c, buffer.c and wire.c.
use ntap_a.Base.{
  ℕ, ◌+◌, ◌≤◌, ◌≡◌, ◌≢◌, refl, [], ◌∷◌, ◌++◌, Bool, true, some, none, arith, length, replicate,
}
use ntap_a.Base.Words.{Bytes, get_be16, get_be32}
use ntap_a.Proto.{
  Hdr, hdr_size, hdr_encode, hdr_decode, hdr_bytes, hdr_check, hdr_fields, ok,
  payload_length_allowed,
}
use ntap_a.Proto.MsgType
use ntap_a.Proto.Header.{IsInRange, hdr_decode-hdr_encode}
use ntap_a.Buffer.{Buffer, append, make_room, reserve, grow}
use ntap_a.Buffer.Growth.{IsValid, append_lem, append_total}
use ntap_a.Wire.{c_string, read_string}
use ntap_a.Wire.Auth.{Hello, AuthNode, AuthTap, decode_auth_tap}
use ntap_a.Wire.Auth.RoundTrip.{HelloFits, AuthNodeFits, AuthTapFits, hello_size}
use ntap_a.Wire.AuthOk.{AuthOk, AuthOkFits}

abbrev always : ℕ → Bool
always n = true

abbrev ping_hdr : Hdr
ping_hdr = record {
  magic = 0x4e544150;
  version = 1;
  type = MsgType.ping;
  flags = 0;
  session_id = 7;
  length = 0;
}

abbrev ping_bytes : Bytes
ping_bytes = 0x4e ∷ 0x54 ∷ 0x41 ∷ 0x50 ∷ 1 ∷ 8 ∷ 0 ∷ 0 ∷ 0 ∷ 0 ∷ 0 ∷ 7 ∷ 0 ∷ 0 ∷ 0 ∷ 0 ∷ []

ping_encodes : hdr_encode ping_hdr ≡ (ok, ping_bytes)
unfolding hdr_encode hdr_check hdr_bytes
ping_encodes = refl

ping_decodes : hdr_decode ping_bytes ≡ (ok, ping_hdr)
unfolding hdr_decode hdr_check hdr_fields get_be16 get_be32
ping_decodes = refl

ping-IsInRange : IsInRange ping_hdr
ping-IsInRange = record {
  magic = omega arith;
  version = omega arith;
  type = omega arith;
  flags = omega arith;
  session_id = omega arith;
  length = omega arith;
}

hdr_decode-hdr_encode_example :
    (length ping_bytes ≡ hdr_size) × (hdr_decode (ping_bytes ++ (1 ∷ [])) ≡ (ok, ping_hdr))
hdr_decode-hdr_encode_example =
    hdr_decode-hdr_encode ping_hdr ping_bytes (1 ∷ []) ping-IsInRange ping_encodes

tap_frame_length : payload_length_allowed MsgType.tap_frame 1432 0 ≡ true
unfolding payload_length_allowed
tap_frame_length = refl

abbrev two_bytes : Buffer
two_bytes = record { bytes = 1 ∷ 2 ∷ []; cap = 2 }

two_bytes-IsValid : IsValid two_bytes
two_bytes-IsValid = record { held = omega arith; small = omega arith }

append_grows : append always two_bytes (3 ∷ []) ≡ some (record { bytes = 1 ∷ 2 ∷ 3 ∷ []; cap = 4 })
unfolding append make_room reserve grow
append_grows = refl

append_lem_example :
    IsValid (record { bytes = 1 ∷ 2 ∷ 3 ∷ []; cap = 4 })
    × ((1 ∷ 2 ∷ 3 ∷ []) ≡ two_bytes.bytes ++ (3 ∷ []))
append_lem_example =
    append_lem always two_bytes (3 ∷ []) (record { bytes = 1 ∷ 2 ∷ 3 ∷ []; cap = 4 })
      two_bytes-IsValid (omega arith) append_grows

append_total_example : append always two_bytes (3 ∷ 4 ∷ []) ≢ none
append_total_example =
    append_total always two_bytes (3 ∷ 4 ∷ []) two_bytes-IsValid (λ n. refl) (omega arith)

abbrev nonce : Bytes
nonce = 1 ∷ 2 ∷ 3 ∷ 4 ∷ 5 ∷ 6 ∷ 7 ∷ 8 ∷ 9 ∷ 10 ∷ 11 ∷ 12 ∷ 13 ∷ 14 ∷ 15 ∷ 16 ∷ []

-- "1.0", then what an array may hold behind the NUL
abbrev hello_msg : Hello
hello_msg = record {
  role = 1;
  version_text = 49 ∷ 46 ∷ 48 ∷ 0 ∷ 99 ∷ [];
  feature_bits = 5;
  nonce = nonce;
}

hello_fits : HelloFits hello_msg
unfolding c_string
hello_fits = record {
  role = omega arith;
  version_text = omega arith;
  feature_bits = omega arith;
  nonce = refl;
}

hello_room : hello_size hello_msg ≤ 128
unfolding c_string
hello_room = omega arith

abbrev node_msg : AuthNode
node_msg = record { node_id = 110 ∷ 49 ∷ []; client_nonce = nonce; sign = replicate 32 7 }

node_fits : AuthNodeFits node_msg
unfolding c_string
node_fits = record { node_id = omega arith; client_nonce = refl; sign = refl }

node_room : 50 + length (c_string node_msg.node_id) ≤ 128
unfolding c_string
node_room = omega arith

abbrev tap_client : AuthTap
tap_client = record {
  username = 97 ∷ [];
  password = 98 ∷ 99 ∷ [];
  network_id = 3;
  client_nonce = nonce;
}

tap_fits : AuthTapFits tap_client
unfolding c_string
tap_fits = record {
  username = omega arith;
  password = omega arith;
  network_id = omega arith;
  client_nonce = refl;
}

tap_room : 24 + length (c_string tap_client.username) + length (c_string tap_client.password) ≤ 128
unfolding c_string
tap_room = omega arith

abbrev tap_payload : Bytes
tap_payload = 0 ∷ 1 ∷ 97 ∷ 0 ∷ 2 ∷ 98 ∷ 99 ∷ 0 ∷ 0 ∷ 0 ∷ 3 ∷ nonce

tap_payload_read : decode_auth_tap tap_payload ≡ some tap_client
unfolding decode_auth_tap read_string get_be16 get_be32
tap_payload_read = refl

abbrev granted_login : AuthOk
granted_login = record {
  session_id = 9;
  network_id = 3;
  server_time = 1700000000;
  feature_bits = 1;
}

login_fits : AuthOkFits granted_login
login_fits = record {
  session_id = omega arith;
  network_id = omega arith;
  server_time = omega arith;
  feature_bits = omega arith;
}
