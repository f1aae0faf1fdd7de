-- ===== src/Wire/Auth/Bounds.antt =====
-- What the server accepts from any peer stays inside the arrays of the out-record.
use ntap_a.Base.{
  ◌+◌, ◌<◌, ◌≡◌, some, arith, length, length-take, length-drop, drop, Ensures, Ensures->>=,
  Ensures-guard, Ensures-elim, ==_iff, ◌==◌, leb, leb→le,
}
use ntap_a.Base.Words.{Bytes}
use ntap_a.Proto.{nonce_size, hmac_size}
use ntap_a.Wire.{read_string}
use ntap_a.Wire.Text.{read_string_bounds}
use ntap_a.Wire.Auth.{
  Hello, AuthNode, AuthTap, decode_hello, decode_auth_node, decode_auth_tap, version_text_max,
  node_id_max, config_value_max,
}

abbrev HelloIn : Bytes → Hello → Type 0
HelloIn payload m =
    (length m.version_text < version_text_max)
    × (length m.nonce ≡ nonce_size)
    × (length payload ≡ 23 + length m.version_text)

decode_hello-Ensures : (payload : Bytes) → Ensures (HelloIn payload) (decode_hello payload)
unfolding decode_hello
decode_hello-Ensures payload = Ensures-guard _ (leb 1 (length payload)) _ λ h.
    Ensures->>= _ (read_string version_text_max (drop 1 payload)) _ λ p r.
      Ensures-guard _ (length p.1 == 4 + nonce_size) _ λ n.
        let (fits, size) = read_string_bounds version_text_max (drop 1 payload) p.0 p.1 r in
        let n' = (==_iff (length p.1) 20).0 n in
        (
          fits,
          omega (arith, length-take nonce_size (drop 4 p.1), length-drop 4 p.1),
          omega (arith, length-drop 1 payload, leb→le 1 (length payload) h),
        )

-- Of an accepted HELLO the version text has room for its NUL, the nonce has 16 bytes, and no byte
-- of the payload is left over.
pub decode_hello_bounds :
    (payload : Bytes) (m : Hello)
    → decode_hello payload ≡ some m
    → (length m.version_text < version_text_max)
      × (length m.nonce ≡ nonce_size)
      × (length payload ≡ 23 + length m.version_text)
decode_hello_bounds payload m e = Ensures-elim (HelloIn payload) _ (decode_hello-Ensures payload) e

abbrev AuthNodeIn : Bytes → AuthNode → Type 0
AuthNodeIn payload m =
    (length m.node_id < node_id_max)
    × (length m.client_nonce ≡ nonce_size)
    × (length m.sign ≡ hmac_size)
    × (length payload ≡ 50 + length m.node_id)

decode_auth_node-Ensures :
    (payload : Bytes) → Ensures (AuthNodeIn payload) (decode_auth_node payload)
unfolding decode_auth_node
decode_auth_node-Ensures payload = Ensures->>= _ (read_string node_id_max payload) _ λ p r.
    Ensures-guard _ (length p.1 == nonce_size + hmac_size) _ λ n.
      let (fits, size) = read_string_bounds node_id_max payload p.0 p.1 r in
      let n' = (==_iff (length p.1) 48).0 n in
      (
        fits,
        omega (arith, length-take nonce_size p.1),
        omega (arith, length-take hmac_size (drop nonce_size p.1), length-drop nonce_size p.1),
        omega arith,
      )

-- The same of an accepted AUTH_NODE: node id, nonce and signature fill their arrays as they should,
-- and nothing is left over.
pub decode_auth_node_bounds :
    (payload : Bytes) (m : AuthNode)
    → decode_auth_node payload ≡ some m
    → (length m.node_id < node_id_max)
      × (length m.client_nonce ≡ nonce_size)
      × (length m.sign ≡ hmac_size)
      × (length payload ≡ 50 + length m.node_id)
decode_auth_node_bounds payload m e =
    Ensures-elim (AuthNodeIn payload) _ (decode_auth_node-Ensures payload) e

abbrev AuthTapIn : Bytes → AuthTap → Type 0
AuthTapIn payload m =
    (length m.username < config_value_max)
    × (length m.password < config_value_max)
    × (length m.client_nonce ≡ nonce_size)
    × (length payload ≡ 24 + length m.username + length m.password)

decode_auth_tap-Ensures : (payload : Bytes) → Ensures (AuthTapIn payload) (decode_auth_tap payload)
unfolding decode_auth_tap
decode_auth_tap-Ensures payload = Ensures->>= _ (read_string config_value_max payload) _ λ p r.
    Ensures->>= _ (read_string config_value_max p.1) _ λ q s.
      Ensures-guard _ (length q.1 == 4 + nonce_size) _ λ n.
        let (user, u) = read_string_bounds config_value_max payload p.0 p.1 r in
        let (pass, w) = read_string_bounds config_value_max p.1 q.0 q.1 s in
        let n' = (==_iff (length q.1) 20).0 n in
        (
          user,
          pass,
          omega (arith, length-take nonce_size (drop 4 q.1), length-drop 4 q.1),
          omega arith,
        )

-- The same of an accepted AUTH_TAP: user name, password and nonce, and nothing left over.
pub decode_auth_tap_bounds :
    (payload : Bytes) (m : AuthTap)
    → decode_auth_tap payload ≡ some m
    → (length m.username < config_value_max)
      × (length m.password < config_value_max)
      × (length m.client_nonce ≡ nonce_size)
      × (length payload ≡ 24 + length m.username + length m.password)
decode_auth_tap_bounds payload m e =
    Ensures-elim (AuthTapIn payload) _ (decode_auth_tap-Ensures payload) e
