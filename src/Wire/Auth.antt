-- ===== src/Wire/Auth.antt =====
-- The messages by which a peer logs in, in src/common/wire.c: HELLO, AUTH_NODE and AUTH_TAP, and the
-- signature of a node.
pub mod RoundTrip
pub mod Bounds
use ntap_a.Base.{
  ℕ, ◌+◌, List, [], ◌∷◌, ◌++◌, Bool, Option, none, some, ltb, leb, ◌==◌, if◌then◌else◌,
}
use ntap_a.Base.{length, take, drop, ◌>>=◌, ◌>>◌, guard}
use ntap_a.Base.Words.{Bytes, byte_at, put_be32, get_be32}
use ntap_a.Buffer.{Buffer, init, append}
use ntap_a.Proto.{nonce_size, hmac_size, version}
use ntap_a.Wire.{c_string, strlen, append_string, read_string, emit}

abbrev pub version_text_max : ℕ
version_text_max = 64

abbrev pub node_id_max : ℕ
node_id_max = 128

-- NTAP_CONFIG_VALUE_MAX
abbrev pub config_value_max : ℕ
config_value_max = 512

-- `ntap_hello_t`
pub record Hello : Type 0 where
  pub role : ℕ
  pub version_text : Bytes
  pub feature_bits : ℕ
  pub nonce : Bytes

-- `ntap_auth_node_t`
pub record AuthNode : Type 0 where
  pub node_id : Bytes
  pub client_nonce : Bytes
  pub sign : Bytes

-- `ntap_auth_tap_t`
pub record AuthTap : Type 0 where
  pub username : Bytes
  pub password : Bytes
  pub network_id : ℕ
  pub client_nonce : Bytes

module _ (alloc : ℕ → Bool) (cap : ℕ) where
  unfoldable pub encode_hello : Hello → Option Bytes
  encode_hello m = do
    buf ← append alloc init (m.role ∷ [])
    buf ← append_string alloc buf m.version_text
    buf ← append alloc buf (put_be32 m.feature_bits)
    buf ← append alloc buf m.nonce
    emit cap buf

  unfoldable pub encode_auth_node : AuthNode → Option Bytes
  encode_auth_node m = do
    buf ← append_string alloc init m.node_id
    buf ← append alloc buf m.client_nonce
    buf ← append alloc buf m.sign
    emit cap buf

  unfoldable pub encode_auth_tap : AuthTap → Option Bytes
  encode_auth_tap m = do
    buf ← append_string alloc init m.username
    buf ← append_string alloc buf m.password
    buf ← append alloc buf (put_be32 m.network_id)
    buf ← append alloc buf m.client_nonce
    emit cap buf

unfoldable pub decode_hello : Bytes → Option Hello
decode_hello payload = do
  guard (leb 1 (length payload))
  (version_text, rest) ← read_string version_text_max (drop 1 payload)
  guard (length rest == 4 + nonce_size)
  some (record {
    role = byte_at payload 0;
    version_text = version_text;
    feature_bits = get_be32 rest;
    nonce = take nonce_size (drop 4 rest);
  })

unfoldable pub decode_auth_node : Bytes → Option AuthNode
decode_auth_node payload = do
  (node_id, rest) ← read_string node_id_max payload
  guard (length rest == nonce_size + hmac_size)
  some (record {
    node_id = node_id;
    client_nonce = take nonce_size rest;
    sign = take hmac_size (drop nonce_size rest);
  })

unfoldable pub decode_auth_tap : Bytes → Option AuthTap
decode_auth_tap payload = do
  (username, rest) ← read_string config_value_max payload
  (password, rest) ← read_string config_value_max rest
  guard (length rest == 4 + nonce_size)
  some (record {
    username = username;
    password = password;
    network_id = get_be32 rest;
    client_nonce = take nonce_size (drop 4 rest);
  })

-- `ntap_auth_node_sign`. `hmac key data` stands for `ntap_hmac_sha256`, `none` where it fails.
unfoldable pub auth_node_sign :
    (ℕ → Bool) → (Bytes → Bytes → Option Bytes) → Bytes → Bytes → Bytes → Bytes → Option Bytes
auth_node_sign alloc hmac node_key server_nonce client_nonce node_id = do
  buf ← append alloc init server_nonce
  buf ← append alloc buf client_nonce
  buf ← append alloc buf (c_string node_id)
  buf ← append alloc buf (version ∷ [])
  hmac (c_string node_key) buf.bytes
