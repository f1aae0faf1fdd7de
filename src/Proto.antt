-- ===== src/Proto.antt =====
-- src/common/proto.h and src/common/proto.c: the 16-byte message header, the message types, and
-- the length that each type may have. A uint8_t, uint16_t or uint32_t is a number in its range.
-- Out-parameters are results; the tests for a NULL out-pointer have no counterpart here.
pub mod MsgType
pub mod Header
pub mod Limits
use ntap_a.Base.{ℕ, ◌+◌, ◌*◌, ◌++◌, Bool, true, false, ◌&&◌, ◌||◌, not, ltb, leb, ◌==◌, ◌!=◌}
use ntap_a.Base.{if◌then◌else◌, drop}
use ntap_a.Base.Words.{Bytes, byte_at, put_be16, put_be32, get_be16, get_be32}
use mathlib.Core.List.{[], ◌∷◌}
use Prim.Native.String.{String}
use ntap_a.Proto.MsgType

abbrev pub magic : ℕ
magic = 0x4e544150

abbrev pub version : ℕ
version = 1

abbrev pub hdr_size : ℕ
hdr_size = 16

abbrev pub nonce_size : ℕ
nonce_size = 16

abbrev pub hmac_size : ℕ
hmac_size = 32

abbrev pub payload_max_control : ℕ
payload_max_control = 64 * 1024

abbrev pub payload_max_socks : ℕ
payload_max_socks = 16 * 1024

abbrev pub default_mtu : ℕ
default_mtu = 1400

abbrev pub min_mtu : ℕ
min_mtu = 576

abbrev pub max_mtu : ℕ
max_mtu = 1500

abbrev pub tap_payload_extra : ℕ
tap_payload_extra = 32

-- `ntap_result_t`
pub data Status : Type 0 where
  ok invalid_arg bad_magic bad_version bad_type payload_too_large : Status

-- `ntap_hdr_t`
pub record Hdr : Type 0 where
  pub magic : ℕ
  pub version : ℕ
  pub type : ℕ
  pub flags : ℕ
  pub session_id : ℕ
  pub length : ℕ

unfoldable pub msg_type_is_valid : ℕ → Bool
msg_type_is_valid type = leb MsgType.hello type && leb type MsgType.socks_stream_close

-- The tests that `ntap_hdr_encode` and `ntap_hdr_decode` make of a header, in their order.
unfoldable pub hdr_check : Hdr → Status
unfolding msg_type_is_valid
hdr_check hdr =
    if hdr.magic != magic
    then bad_magic
    else if hdr.version != version
    then bad_version
    else if not (msg_type_is_valid hdr.type)
    then bad_type
    else ok

-- The stores of `ntap_hdr_encode` into `out`.
unfoldable pub hdr_bytes : Hdr → Bytes
hdr_bytes hdr =
    put_be32 hdr.magic
    ++ (hdr.version ∷ hdr.type ∷ put_be16 hdr.flags)
    ++ put_be32 hdr.session_id
    ++ put_be32 hdr.length

-- The bytes are those that `out` receives; `out` is not written on an error.
unfoldable pub hdr_encode : Hdr → Status × Bytes
hdr_encode hdr = elim (hdr_check hdr) [ ok ↦ (ok, hdr_bytes hdr) | s ↦ (s, []) ]

-- The loads of `ntap_hdr_decode` from `in`.
unfoldable pub hdr_fields : Bytes → Hdr
hdr_fields bs = record {
  magic = get_be32 bs;
  version = byte_at bs 4;
  type = byte_at bs 5;
  flags = get_be16 (drop 6 bs);
  session_id = get_be32 (drop 8 bs);
  length = get_be32 (drop 12 bs);
}

-- `*hdr` is written whatever the status.
unfoldable pub hdr_decode : Bytes → Status × Hdr
hdr_decode bs = let hdr = hdr_fields bs in (hdr_check hdr, hdr)

abbrev effective_mtu : ℕ → ℕ
effective_mtu mtu = if ltb mtu min_mtu || ltb max_mtu mtu then default_mtu else mtu

unfoldable pub payload_length_allowed : ℕ → ℕ → ℕ → Bool
unfolding msg_type_is_valid
payload_length_allowed type length mtu =
    if not (msg_type_is_valid type)
    then false
    else if type == MsgType.tap_frame
    then leb length (effective_mtu mtu + tap_payload_extra)
    else if leb MsgType.socks_stream_open type && leb type MsgType.socks_stream_close
    then leb length payload_max_socks
    else leb length payload_max_control

unfoldable pub msg_type_name : ℕ → String
msg_type_name type =
    if type == MsgType.hello
    then "HELLO"
    else if type == MsgType.auth_node
    then "AUTH_NODE"
    else if type == MsgType.auth_tap
    then "AUTH_TAP"
    else if type == MsgType.auth_ok
    then "AUTH_OK"
    else if type == MsgType.auth_fail
    then "AUTH_FAIL"
    else if type == MsgType.config_push
    then "CONFIG_PUSH"
    else if type == MsgType.tap_frame
    then "TAP_FRAME"
    else if type == MsgType.ping
    then "PING"
    else if type == MsgType.pong
    then "PONG"
    else if type == MsgType.error
    then "ERROR"
    else if type == MsgType.direct_token
    then "DIRECT_TOKEN"
    else if type == MsgType.socks_stream_open
    then "SOCKS_STREAM_OPEN"
    else if type == MsgType.socks_stream_data
    then "SOCKS_STREAM_DATA"
    else if type == MsgType.socks_stream_close
    then "SOCKS_STREAM_CLOSE"
    else "UNKNOWN"

-- `bad header: %s`: the wire's error texts.
unfoldable pub result_name : Status → String
result_name ok = "ok"
result_name invalid_arg = "invalid_arg"
result_name bad_magic = "bad_magic"
result_name bad_version = "bad_version"
result_name bad_type = "bad_type"
result_name payload_too_large = "payload_too_large"
