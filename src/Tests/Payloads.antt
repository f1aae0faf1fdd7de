-- ===== src/Tests/Payloads.antt =====
-- The payloads of src/common/wire.c for frames, SOCKS streams and configurations.
use ntap_a.Base.{ℕ, ◌≤◌, ◌≡◌, refl, [], ◌∷◌, Bool, true, some, arith, ◌>>=◌}
use ntap_a.Base.Words.{Bytes, get_be16, get_be32}
use ntap_a.Wire.{c_string, read_string}
use ntap_a.Wire.Frame.{TapFrame, encode_tap_frame, decode_tap_frame}
use ntap_a.Wire.Socks.{
  SocksData, SocksClose, encode_socks_data, decode_socks_data, encode_socks_close,
  encode_socks_close_reason, reason_idle_timeout,
}
use ntap_a.Wire.Config.{
  ConfigPush, encode_config_push, decode_config_push, decode_direct, decode_link, link_fields,
}
use ntap_a.Wire.Config.Bounds.{IsUsable, decode_config_push-IsUsable}
use ntap_a.Wire.Config.RoundTrip.{PushFits, push_size, decode_config_push-encode_config_push}

abbrev always : ℕ → Bool
always n = true

-- An Ethernet frame of 15 bytes.
abbrev ether : Bytes
ether = 2 ∷ 0 ∷ 0 ∷ 0 ∷ 0 ∷ 2 ∷ 2 ∷ 0 ∷ 0 ∷ 0 ∷ 0 ∷ 1 ∷ 8 ∷ 0 ∷ 69 ∷ []

abbrev ether_payload : Bytes
ether_payload = 0 ∷ 0 ∷ 0 ∷ 3 ∷ 0 ∷ 15 ∷ ether

abbrev ether_read : TapFrame
ether_read = record { network_id = 3; frame_len = 15; frame = ether }

ether_encodes : encode_tap_frame 64 3 ether ≡ some ether_payload
unfolding encode_tap_frame
ether_encodes = refl

ether_decodes : decode_tap_frame ether_payload ≡ some ether_read
unfolding decode_tap_frame get_be32 get_be16
ether_decodes = refl

abbrev data_msg : SocksData
data_msg = record { stream_id = 5; bytes = 1 ∷ 2 ∷ 3 ∷ [] }

abbrev data_payload : Bytes
data_payload = 0 ∷ 0 ∷ 0 ∷ 5 ∷ 1 ∷ 2 ∷ 3 ∷ []

data_encodes : encode_socks_data 64 data_msg ≡ some data_payload
unfolding encode_socks_data
data_encodes = refl

data_decodes : decode_socks_data data_payload ≡ some data_msg
unfolding decode_socks_data get_be32
data_decodes = refl

abbrev close_msg : SocksClose
close_msg = record { stream_id = 5; reason_code = reason_idle_timeout; flags = 1 }

close_long : encode_socks_close_reason close_msg ≡ some (0 ∷ 0 ∷ 0 ∷ 5 ∷ 0 ∷ 5 ∷ 0 ∷ 1 ∷ [])
unfolding encode_socks_close_reason
close_long = refl

close_short : encode_socks_close 5 ≡ some (0 ∷ 0 ∷ 0 ∷ 5 ∷ [])
unfolding encode_socks_close
close_short = refl

abbrev push_msg : ConfigPush
push_msg = record {
  config_version = 1;
  network_id = 3;
  tap_enabled = 1;
  socks_enabled = 0;
  direct_enabled = 0;
  tap_name = 116 ∷ 48 ∷ [];
  bridge_name = 98 ∷ [];
  mtu = 1400;
  direct_port = 0;
  flags = 0;
  direct_mode = [];
  direct_addr = [];
  direct_token = [];
}

push_fits : PushFits push_msg
unfolding c_string
push_fits = record {
  config_version = omega arith;
  network_id = omega arith;
  network_set = omega arith;
  tap_enabled = omega arith;
  socks_enabled = omega arith;
  direct_enabled = omega arith;
  tap_name = omega arith;
  bridge_name = omega arith;
  mtu_low = omega arith;
  mtu_high = omega arith;
  direct_port = omega arith;
  flags = omega arith;
  direct_mode = omega arith;
  direct_addr = omega arith;
  direct_token = omega arith;
}

push_room : push_size push_msg ≤ 2048
unfolding c_string
push_room = omega arith

decode_config_push-encode_config_push_example :
    (encode_config_push always 2048 push_msg >>= decode_config_push)
    ≡ some (record push_msg {
      tap_name = c_string (116 ∷ 48 ∷ []);
      bridge_name = c_string (98 ∷ []);
      direct_mode = c_string [];
      direct_addr = c_string [];
      direct_token = c_string [];
    })
decode_config_push-encode_config_push_example =
    decode_config_push-encode_config_push always 2048 (λ n. refl) (omega arith) push_msg push_fits
      push_room

abbrev push_payload : Bytes
push_payload =
    0 ∷ 0 ∷ 0 ∷ 1 ∷ 0 ∷ 0 ∷ 0 ∷ 3 ∷ 1 ∷ 0 ∷ 0 ∷ 0 ∷ 2 ∷ 116 ∷ 48 ∷ 0 ∷ 1 ∷ 98 ∷ 5 ∷ 120 ∷ 0 ∷ 0 ∷ 0
    ∷ 0 ∷ 0 ∷ 0 ∷ 0 ∷ 0 ∷ 0 ∷ 0 ∷ 0 ∷ 0 ∷ []

push_read : decode_config_push push_payload ≡ some push_msg
unfolding decode_config_push decode_link decode_direct link_fields read_string get_be16 get_be32
push_read = refl

decode_config_push-IsUsable_example : IsUsable push_msg
decode_config_push-IsUsable_example = decode_config_push-IsUsable push_payload push_msg push_read
