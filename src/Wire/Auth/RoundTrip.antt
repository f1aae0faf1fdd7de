-- ===== src/Wire/Auth/RoundTrip.antt =====
-- What a peer sends to log in is what the server reads.
use ntap_a.Base.{
  ℕ, ◌+◌, ◌≤◌, ◌<◌, ◌≡◌, [], ◌∷◌, ◌++◌, Bool, some, arith, length, length-append, ◌>>=◌, take_self,
  take-append_self, drop-append_self,
}
use ntap_a.Base.Words.{Bytes, IsByte, IsU32, put_be32, get_be32-put_be32}
use ntap_a.Buffer.{size_max}
use ntap_a.Buffer.Writes.{Granted, Pending-init, append-then}
use ntap_a.Proto.{nonce_size, hmac_size}
use ntap_a.Wire.{c_string, strlen}
use ntap_a.Wire.Text.{field, append_string-then, append-emit, read_string-field}
use ntap_a.Wire.Auth.{
  Hello, AuthNode, AuthTap, encode_hello, decode_hello, encode_auth_node, decode_auth_node,
  encode_auth_tap, decode_auth_tap, version_text_max, node_id_max, config_value_max,
}

-- What the C types of the sender hold, with a text that the receiver has room for.
pub record HelloFits (m : Hello) : Type 0 where
  pub role : IsByte m.role
  pub version_text : strlen m.version_text < version_text_max
  pub feature_bits : IsU32 m.feature_bits
  pub nonce : length m.nonce ≡ nonce_size

abbrev pub hello_size : Hello → ℕ
hello_size m = 23 + strlen m.version_text

abbrev hello_bytes : Hello → Bytes
hello_bytes m = m.role ∷ (field m.version_text ++ (put_be32 m.feature_bits ++ m.nonce))

pub record AuthNodeFits (m : AuthNode) : Type 0 where
  pub node_id : strlen m.node_id < node_id_max
  pub client_nonce : length m.client_nonce ≡ nonce_size
  pub sign : length m.sign ≡ hmac_size

abbrev pub auth_node_size : AuthNode → ℕ
auth_node_size m = 50 + strlen m.node_id

abbrev auth_node_bytes : AuthNode → Bytes
auth_node_bytes m = field m.node_id ++ (m.client_nonce ++ m.sign)

pub record AuthTapFits (m : AuthTap) : Type 0 where
  pub username : strlen m.username < config_value_max
  pub password : strlen m.password < config_value_max
  pub network_id : IsU32 m.network_id
  pub client_nonce : length m.client_nonce ≡ nonce_size

abbrev pub auth_tap_size : AuthTap → ℕ
auth_tap_size m = 24 + strlen m.username + strlen m.password

abbrev auth_tap_bytes : AuthTap → Bytes
auth_tap_bytes m =
    field m.username ++ (field m.password ++ (put_be32 m.network_id ++ m.client_nonce))

module _ (alloc : ℕ → Bool) (cap : ℕ) (granted : Granted alloc) (small : cap ≤ size_max) where
  encode_hello-eq :
      (m : Hello)
      → HelloFits m
      → hello_size m ≤ cap
      → encode_hello alloc cap m ≡ some (hello_bytes m)
  unfolding encode_hello
  encode_hello-eq m f h = append-then granted small' (m.role ∷ []) _ (Pending-init total) λ b p.
      append_string-then granted small' m.version_text (put_be32 m.feature_bits ++ m.nonce)
        (omega arith) p
        λ b p.
          append-then granted small' (put_be32 m.feature_bits) m.nonce p
            λ b p. append-emit granted small' cap m.nonce fits p
    where
      total : Bytes
      total = hello_bytes m

      fits : length total ≤ cap
      fits =
          omega
            (arith, length-append (c_string m.version_text) (put_be32 m.feature_bits ++ m.nonce))

      small' : length total ≤ size_max
      small' = omega (arith, fits)

  -- A HELLO that fits the caller's buffer is encoded, and decodes to the same fields, the version
  -- text cut at its NUL.
  pub decode_hello-encode_hello :
      (m : Hello)
      → HelloFits m
      → hello_size m ≤ cap
      → (encode_hello alloc cap m >>= decode_hello)
        ≡ some (record m { version_text = c_string m.version_text })
  unfolding decode_hello
  decode_hello-encode_hello m f h = rw (encode_hello-eq m f h) (
      rw
        (read_string-field version_text_max m.version_text (put_be32 m.feature_bits ++ m.nonce)
          f.version_text (omega arith))
        (ground (arith, get_be32-put_be32 m.feature_bits m.nonce, take_self nonce_size m.nonce)))

  encode_auth_node-eq :
      (m : AuthNode)
      → AuthNodeFits m
      → auth_node_size m ≤ cap
      → encode_auth_node alloc cap m ≡ some (auth_node_bytes m)
  unfolding encode_auth_node
  encode_auth_node-eq m f h =
      append_string-then granted small' m.node_id (m.client_nonce ++ m.sign) (omega arith)
        (Pending-init total)
        λ b p.
          append-then granted small' m.client_nonce m.sign p
            λ b p. append-emit granted small' cap m.sign fits p
    where
      total : Bytes
      total = auth_node_bytes m

      fits : length total ≤ cap
      fits = omega (
        arith,
        length-append (c_string m.node_id) (m.client_nonce ++ m.sign),
        length-append m.client_nonce m.sign,
      )

      small' : length total ≤ size_max
      small' = omega (arith, fits)

  -- So is an AUTH_NODE, its node id cut at its NUL.
  pub decode_auth_node-encode_auth_node :
      (m : AuthNode)
      → AuthNodeFits m
      → auth_node_size m ≤ cap
      → (encode_auth_node alloc cap m >>= decode_auth_node)
        ≡ some (record m { node_id = c_string m.node_id })
  unfolding decode_auth_node
  decode_auth_node-encode_auth_node m f h = rw (encode_auth_node-eq m f h) (
      rw
        (read_string-field node_id_max m.node_id (m.client_nonce ++ m.sign) f.node_id (omega arith))
        (ground (
          arith,
          length-append m.client_nonce m.sign,
          take-append_self nonce_size m.client_nonce m.sign,
          drop-append_self nonce_size m.client_nonce m.sign,
          take_self hmac_size m.sign,
        )))

  encode_auth_tap-eq :
      (m : AuthTap)
      → AuthTapFits m
      → auth_tap_size m ≤ cap
      → encode_auth_tap alloc cap m ≡ some (auth_tap_bytes m)
  unfolding encode_auth_tap
  encode_auth_tap-eq m f h =
      append_string-then granted small' m.username (field m.password ++ tail) (omega arith)
        (Pending-init total)
        λ b p. append_string-then granted small' m.password tail (omega arith) p λ b p.
          append-then granted small' (put_be32 m.network_id) m.client_nonce p
            λ b p. append-emit granted small' cap m.client_nonce fits p
    where
      total : Bytes
      total = auth_tap_bytes m

      tail : Bytes
      tail = put_be32 m.network_id ++ m.client_nonce

      fits : length total ≤ cap
      fits = omega (
        arith,
        length-append (c_string m.username) (field m.password ++ tail),
        length-append (c_string m.password) tail,
      )

      small' : length total ≤ size_max
      small' = omega (arith, fits)

  -- So is an AUTH_TAP, its username and password cut at their NULs.
  pub decode_auth_tap-encode_auth_tap :
      (m : AuthTap)
      → AuthTapFits m
      → auth_tap_size m ≤ cap
      → (encode_auth_tap alloc cap m >>= decode_auth_tap)
        ≡ some (record m { username = c_string m.username; password = c_string m.password })
  unfolding decode_auth_tap
  decode_auth_tap-encode_auth_tap m f h =
      let tail = put_be32 m.network_id ++ m.client_nonce in
      rw (encode_auth_tap-eq m f h) (
        rw
          (read_string-field config_value_max m.username (field m.password ++ tail) f.username
            (omega arith))
          (rw (read_string-field config_value_max m.password tail f.password (omega arith)) (
            ground (
              arith,
              get_be32-put_be32 m.network_id m.client_nonce,
              take_self nonce_size m.client_nonce,
            ))))
