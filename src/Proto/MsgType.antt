-- ===== src/Proto/MsgType.antt =====
-- `ntap_msg_type_t` of src/common/proto.h: the codes of the message types.
use ntap_a.Base.{ℕ}

abbrev pub hello : ℕ
hello = 0x01

abbrev pub auth_node : ℕ
auth_node = 0x02

abbrev pub auth_tap : ℕ
auth_tap = 0x03

abbrev pub auth_ok : ℕ
auth_ok = 0x04

abbrev pub auth_fail : ℕ
auth_fail = 0x05

abbrev pub config_push : ℕ
config_push = 0x06

abbrev pub tap_frame : ℕ
tap_frame = 0x07

abbrev pub ping : ℕ
ping = 0x08

abbrev pub pong : ℕ
pong = 0x09

abbrev pub error : ℕ
error = 0x0a

abbrev pub direct_token : ℕ
direct_token = 0x0b

abbrev pub socks_stream_open : ℕ
socks_stream_open = 0x0c

abbrev pub socks_stream_data : ℕ
socks_stream_data = 0x0d

abbrev pub socks_stream_close : ℕ
socks_stream_close = 0x0e
