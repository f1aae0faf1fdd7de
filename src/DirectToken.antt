-- ===== src/DirectToken.antt =====
-- src/common/direct_token.c: the token that lets a client in on a node's direct link. A text is the
-- list of its bytes, NULL is `none`. The HMAC of src/common/hash.c is a call of OpenSSL, so it is a
-- parameter; ntap_direct_token_random_nonce, which asks OpenSSL for random bytes, is left out. An id
-- that is below 0 fares as one that is 0, so ids are natural numbers here.
pub mod RoundTrip
pub mod Sound
use ntap_a.Base.{
  ℕ, ◌+◌, ◌-◌, List, [], ◌∷◌, ◌++◌, Bool, true, false, not, ◌&&◌, ◌||◌, Option, none, some, ltb,
  leb, ◌==◌, if◌then◌else◌, length, ◌>>=◌, ◌>>◌, guard,
}
use ntap_a.Base.Words.{Bytes}
use ntap_a.Base.Texts.{codes, bytes_equal, split_at, lacks, is_xdigit}
use ntap_a.Base.Decimal.{ℤ, pos, negsuc, Parsed, show_dec, strtoll, strtoul}
use ntap_a.Wire.Auth.{config_value_max}
use ntap_a.Api.{sha256_hex_size, ascii_case_equal}
use ntap_a.Api.Auth.{is_empty}

abbrev pub token_max : ℕ
token_max = 1024

abbrev pub token_nonce_hex_size : ℕ
token_nonce_hex_size = 33

-- `ntap_direct_token_t`
pub record DirectToken : Type 0 where
  pub user_id : ℕ
  pub node_id : Bytes
  pub network_id : ℕ
  pub expire_at : ℕ
  pub nonce : Bytes

abbrev pub all_xdigits : Bytes → Bool
all_xdigits [] = true
all_xdigits (c ∷ cs) = is_xdigit c && all_xdigits cs

unfoldable pub hex_string : ℕ → Bytes → Bool
hex_string n text = length text == n && all_xdigits text

unfoldable pub node_id_ok : Bytes → Bool
node_id_ok node_id =
    not (is_empty node_id) && ltb (length node_id) config_value_max && lacks b'|' node_id

unfoldable pub token_hex_equal_ci : Bytes → Bytes → Bool
token_hex_equal_ci a b =
    hex_string (sha256_hex_size - 1) a && hex_string (sha256_hex_size - 1) b && ascii_case_equal a b

-- The tests that `direct_token_sign` makes of its arguments.
unfoldable pub can_sign : Bytes → DirectToken → Bool
can_sign node_key t =
    not (is_empty node_key)
    && node_id_ok t.node_id
    && not (t.user_id == 0)
    && not (t.network_id == 0)
    && not (t.expire_at == 0)
    && hex_string (token_nonce_hex_size - 1) t.nonce

-- "ntap-direct-v1\n%jd\n%s\n%jd\n%ju\n%s"
abbrev pub token_signing : DirectToken → Bytes
token_signing t =
    codes "ntap-direct-v1"
    ++ (10 ∷ show_dec t.user_id
        ++ (10 ∷ t.node_id
            ++ (10 ∷ show_dec t.network_id ++ (10 ∷ show_dec t.expire_at ++ (10 ∷ t.nonce)))))

-- "ntap1|%jd|%s|%jd|%ju|%s|%s"
abbrev pub token_text : DirectToken → Bytes → Bytes
token_text t sign =
    codes "ntap1"
    ++ (b'|' ∷ show_dec t.user_id
        ++ (b'|' ∷ t.node_id
            ++ (b'|' ∷ show_dec t.network_id
                ++ (b'|' ∷ show_dec t.expire_at ++ (b'|' ∷ t.nonce ++ (b'|' ∷ sign))))))

-- `direct_token_next_field`: the field, and the cursor.
unfoldable pub next_field : Option Bytes → Option Bytes × Option Bytes
next_field none = (none, none)
next_field (some text) = elim (split_at b'|' text) [
  | none ↦ (some text, none)
  | some (l, r) ↦ (some l, some r)
]

abbrev pub positive : Option Parsed → Option ℕ
positive none = none
positive (some p) =
    if not (is_empty p.rest)
    then none
    else (elim p.value [ pos n ↦ if n == 0 then none else some n | negsuc n ↦ none ])

-- `direct_token_parse_i64`: "%jd%c" reads a number exactly if `strtoll` does, and finds no character
-- behind it if that is the end.
unfoldable pub parse_i64 : Bytes → Option ℕ
parse_i64 text = positive (strtoll text)

abbrev pub not_zero : Option (ℕ × Bytes) → Option ℕ
not_zero none = none
not_zero (some (n, rest)) = if not (is_empty rest) || n == 0 then none else some n

unfoldable pub parse_u64 : Bytes → Option ℕ
parse_u64 text = not_zero (strtoul text)

-- The seven fields of a token, and where the cursor ends.
pub record Fields : Type 0 where
  pub version : Option Bytes
  pub user_id : Option Bytes
  pub node_id : Option Bytes
  pub network_id : Option Bytes
  pub expire_at : Option Bytes
  pub nonce : Option Bytes
  pub sign : Option Bytes
  pub cursor : Option Bytes

unfoldable pub split_fields : Bytes → Fields
split_fields token =
    let (version, c1) = next_field (some token) in
    let (user_id, c2) = next_field c1 in
    let (node_id, c3) = next_field c2 in
    let (network_id, c4) = next_field c3 in
    let (expire_at, c5) = next_field c4 in
    let (nonce, c6) = next_field c5 in
    let (sign, c7) = next_field c6 in
    record {
      version = version;
      user_id = user_id;
      node_id = node_id;
      network_id = network_id;
      expire_at = expire_at;
      nonce = nonce;
      sign = sign;
      cursor = c7;
    }

abbrev pub is_null : Option Bytes → Bool
is_null none = true
is_null (some text) = false

-- The claims and the signature of a token, where they are for this node and network.
unfoldable pub read_claims : Fields → Bytes → ℕ → Option (DirectToken × Bytes)
read_claims f expected_node_id expected_network_id = do
  guard (is_null f.cursor)
  version ← f.version
  guard (bytes_equal version (codes "ntap1"))
  user_id_s ← f.user_id
  user_id ← parse_i64 user_id_s
  node_id ← f.node_id
  guard (node_id_ok node_id && bytes_equal node_id expected_node_id)
  network_id_s ← f.network_id
  network_id ← parse_i64 network_id_s
  guard (network_id == expected_network_id)
  expire_at_s ← f.expire_at
  expire_at ← parse_u64 expire_at_s
  nonce ← f.nonce
  sign ← f.sign
  some (
    record {
      user_id = user_id;
      node_id = node_id;
      network_id = network_id;
      expire_at = expire_at;
      nonce = nonce;
    },
    sign,
  )

module _ (hmac_sha256_hex : Bytes → Bytes → Option Bytes) where
  unfoldable pub token_sign : Bytes → DirectToken → Option Bytes
  token_sign node_key t = do
    guard (can_sign node_key t)
    guard (ltb (length (token_signing t)) token_max)
    hmac_sha256_hex node_key (token_signing t)

  -- `ntap_direct_token_make` into `out_len` bytes.
  unfoldable pub make : ℕ → Bytes → DirectToken → Option Bytes
  make out_len node_key t = do
    guard (not (out_len == 0))
    sign ← token_sign node_key t
    guard (ltb (length (token_text t sign)) out_len)
    some (token_text t sign)

  -- What `ntap_direct_token_verify` does with the claims and the signature, once they are read.
  unfoldable pub verify_claims : Bytes → ℕ → DirectToken → Bytes → Option DirectToken
  verify_claims node_key now t sign = do
    guard (
        ltb now t.expire_at
        && hex_string (token_nonce_hex_size - 1) t.nonce
        && hex_string (sha256_hex_size - 1) sign)
    expected ← token_sign node_key t
    guard (token_hex_equal_ci sign expected)
    some t

  -- `ntap_direct_token_verify`
  unfoldable pub verify : Bytes → Bytes → Bytes → ℕ → ℕ → Option DirectToken
  verify token node_key expected_node_id expected_network_id now = do
    guard (not (is_empty node_key) && node_id_ok expected_node_id && not (expected_network_id == 0))
    guard (ltb (length token) token_max)
    (t, sign) ← read_claims (split_fields token) expected_node_id expected_network_id
    verify_claims node_key now t sign
