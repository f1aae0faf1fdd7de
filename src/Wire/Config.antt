-- ===== src/Wire/Config.antt =====
-- The CONFIG_PUSH payload of src/common/wire.c: the runtime configuration that the server sends.
pub mod RoundTrip
pub mod Bounds
use ntap_a.Base.{
  ℕ, ◌+◌, [], ◌∷◌, ◌++◌, Bool, not, ◌||◌, Option, none, some, ◌==◌, ltb, leb, length, drop,
  if◌then◌else◌, ◌>>=◌, ◌>>◌, guard,
}
use ntap_a.Base.Words.{Bytes, byte_at, put_be16, put_be32, get_be16, get_be32}
use ntap_a.Buffer.{Buffer, init, append}
use ntap_a.Proto.{min_mtu, max_mtu}
use ntap_a.Wire.{append_string, read_string, emit}

abbrev pub tap_name_max : ℕ
tap_name_max = 64

abbrev pub bridge_name_max : ℕ
bridge_name_max = 64

abbrev pub direct_mode_max : ℕ
direct_mode_max = 32

abbrev pub direct_addr_max : ℕ
direct_addr_max = 256

abbrev pub direct_token_text_max : ℕ
direct_token_text_max = 1024

-- `ntap_config_push_t`
pub record ConfigPush : Type 0 where
  pub config_version : ℕ
  pub network_id : ℕ
  pub tap_enabled : ℕ
  pub socks_enabled : ℕ
  pub direct_enabled : ℕ
  pub tap_name : Bytes
  pub bridge_name : Bytes
  pub mtu : ℕ
  pub direct_port : ℕ
  pub flags : ℕ
  pub direct_mode : Bytes
  pub direct_addr : Bytes
  pub direct_token : Bytes

unfoldable pub encode_config_push : (ℕ → Bool) → ℕ → ConfigPush → Option Bytes
encode_config_push alloc cap m = do
  buf ← append alloc init (put_be32 m.config_version)
  buf ← append alloc buf (put_be32 m.network_id)
  buf ← append alloc buf (m.tap_enabled ∷ [])
  buf ← append alloc buf (m.socks_enabled ∷ [])
  buf ← append alloc buf (m.direct_enabled ∷ [])
  buf ← append_string alloc buf m.tap_name
  buf ← append_string alloc buf m.bridge_name
  buf ← append alloc buf (put_be16 m.mtu)
  buf ← append alloc buf (put_be16 m.direct_port)
  buf ← append alloc buf (put_be32 m.flags)
  buf ← append_string alloc buf m.direct_mode
  buf ← append_string alloc buf m.direct_addr
  buf ← append_string alloc buf m.direct_token
  emit cap buf

-- The three texts of the direct link, which an older sender leaves out.
unfoldable pub decode_direct : ConfigPush → Bytes → Option ConfigPush
decode_direct m rest = do
  (mode, rest) ← read_string direct_mode_max rest
  (addr, rest) ← read_string direct_addr_max rest
  (token, rest) ← read_string direct_token_text_max rest
  guard (length rest == 0)
  some (record m { direct_mode = mode; direct_addr = addr; direct_token = token })

-- The fixed fields: `rest` is what follows the two names.
unfoldable pub link_fields : Bytes → Bytes → Bytes → Bytes → ConfigPush
link_fields payload tap_name bridge_name rest = record {
  config_version = get_be32 payload;
  network_id = get_be32 (drop 4 payload);
  tap_enabled = byte_at payload 8;
  socks_enabled = byte_at payload 9;
  direct_enabled = byte_at payload 10;
  tap_name = tap_name;
  bridge_name = bridge_name;
  mtu = get_be16 rest;
  direct_port = get_be16 (drop 2 rest);
  flags = get_be32 (drop 4 rest);
  direct_mode = [];
  direct_addr = [];
  direct_token = [];
}

unfoldable pub decode_link : ConfigPush → Bytes → Option ConfigPush
decode_link m rest = do
  guard (not (m.network_id == 0 || ltb m.mtu min_mtu || ltb max_mtu m.mtu))
  if length rest == 8 then some m else decode_direct m (drop 8 rest)

unfoldable pub decode_config_push : Bytes → Option ConfigPush
decode_config_push payload = do
  guard (leb 19 (length payload))
  (tap_name, rest) ← read_string tap_name_max (drop 11 payload)
  (bridge_name, rest) ← read_string bridge_name_max rest
  guard (leb 8 (length rest))
  decode_link (link_fields payload tap_name bridge_name rest) rest
