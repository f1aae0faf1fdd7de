-- ===== src/DirectToken/Sound.antt =====
-- What a token that is let in proves.
use ntap_a.Base.{
  ℕ, ◌<◌, ◌≡◌, refl, true, not, ◌&&◌, Option, some, arith, ltb, ◌==◌, length, Ensures, Ensures->>=,
  Ensures-guard, Ensures-elim, Ensures-weaken, subst, sym, ◌-◌,
}
use ntap_a.Base.Words.{Bytes}
use ntap_a.Base.Texts.{codes, bytes_equal, bytes_equal_iff}
use ntap_a.DirectToken.{
  DirectToken, Fields, token_sign, token_hex_equal_ci, verify_claims, read_claims, split_fields,
  verify, parse_i64, parse_u64, is_null, node_id_ok, hex_string, token_nonce_hex_size, token_max,
}
use ntap_a.Api.{sha256_hex_size}
use ntap_a.Api.Auth.{is_empty}

-- A token's claims are for this node and network, and its signature is the last field.
abbrev Reads : Fields → Bytes → ℕ → DirectToken × Bytes → Type 0
Reads f node_id network_id (t, sign) =
    (t.node_id ≡ node_id) × (t.network_id ≡ network_id) × (f.sign ≡ some sign)

read_claims-Reads :
    (f : Fields) (node_id : Bytes) (network_id : ℕ)
    → Ensures (Reads f node_id network_id) (read_claims f node_id network_id)
unfolding read_claims
read_claims-Reads f node_id network_id =
    let R = Reads f node_id network_id in
    Ensures-guard R (is_null f.cursor) _ λ e. Ensures->>= R f.version _ λ version e.
      Ensures-guard R (bytes_equal version (codes "ntap1")) _ λ e.
        Ensures->>= R f.user_id _ λ user_id_s e. Ensures->>= R (parse_i64 user_id_s) _ λ user_id e.
          Ensures->>= R f.node_id _ λ n e.
            Ensures-guard R (node_id_ok n && bytes_equal n node_id) _ λ same.
              Ensures->>= R f.network_id _ λ network_id_s e.
                Ensures->>= R (parse_i64 network_id_s) _ λ w e.
                  Ensures-guard R (w == network_id) _ λ same'.
                    Ensures->>= R f.expire_at _ λ expire_at_s e.
                      Ensures->>= R (parse_u64 expire_at_s) _ λ expire_at e.
                        Ensures->>= R f.nonce _ λ nonce e. Ensures->>= R f.sign _ λ sign e. (
                          (bytes_equal_iff n node_id).0 (ground (arith, same)),
                          ground (arith, same'),
                          e,
                        )

module _ (hmac_sha256_hex : Bytes → Bytes → Option Bytes) where
  -- The token's last field is, but for the case of its digits, the HMAC under the node's key of these
  -- claims, which are for this node and network and have not expired.
  pub record IsProof (token node_key node_id : Bytes) (network_id now : ℕ) (t : DirectToken)
      : Type 0 where
    pub sign : Bytes
    pub mac : Bytes
    pub last : (split_fields token).sign ≡ some sign
    pub signed : token_sign hmac_sha256_hex node_key t ≡ some mac
    pub same : token_hex_equal_ci sign mac ≡ true
    pub for_node : t.node_id ≡ node_id
    pub for_network : t.network_id ≡ network_id
    pub not_over : now < t.expire_at

  abbrev Proves : Bytes → Bytes → ℕ → DirectToken → Bytes → DirectToken → Type 0
  Proves token node_key now t sign t' =
      (mac : Bytes) × (t' ≡ t)
      × (token_sign hmac_sha256_hex node_key t ≡ some mac)
      × (token_hex_equal_ci sign mac ≡ true)
      × (now < t.expire_at)

  verify_claims-Proves :
      (token node_key : Bytes) (now : ℕ) (t : DirectToken) (sign : Bytes)
      → Ensures
          (Proves token node_key now t sign)
          (verify_claims hmac_sha256_hex node_key now t sign)
  unfolding verify_claims
  verify_claims-Proves token node_key now t sign =
      let P = Proves token node_key now t sign in
      Ensures-guard P
        (ltb now t.expire_at
          && hex_string (token_nonce_hex_size - 1) t.nonce
          && hex_string (sha256_hex_size - 1) sign)
        _
        λ ok. Ensures->>= P (token_sign hmac_sha256_hex node_key t) _ λ mac e.
          Ensures-guard P (token_hex_equal_ci sign mac) _
            λ same. (mac, refl, e, same, ground (arith, ok))

  verify-Ensures :
      (token node_key node_id : Bytes) (network_id now : ℕ)
      → Ensures
          (IsProof token node_key node_id network_id now)
          (verify hmac_sha256_hex token node_key node_id network_id now)
  unfolding verify
  verify-Ensures token node_key node_id network_id now =
      let P = IsProof token node_key node_id network_id now in
      let f = split_fields token in
      Ensures-guard P (not (is_empty node_key) && node_id_ok node_id && not (network_id == 0)) _
        λ ok. Ensures-guard P (ltb (length token) token_max) _ λ short.
          Ensures->>= P (read_claims f node_id network_id) _ λ (t, sign) read.
            let (n, w, last) =
              Ensures-elim (Reads f node_id network_id) (read_claims f node_id network_id)
                (read_claims-Reads f node_id network_id) read in
            Ensures-weaken (Proves token node_key now t sign) P
              (λ t' (mac, e, signed, same, late). subst P (sym e) record {
                sign = sign;
                mac = mac;
                last = last;
                signed = signed;
                same = same;
                for_node = n;
                for_network = w;
                not_over = late;
              })
              (verify_claims hmac_sha256_hex node_key now t sign)
              (verify_claims-Proves token node_key now t sign)

  -- A token that is let in has as its last field, but for the case of the digits, the HMAC under the node's
  -- key of the claims that are returned; they are for this node and network and have not expired.
  pub verify-IsProof :
      (token node_key node_id : Bytes) (network_id now : ℕ) (t : DirectToken)
      → verify hmac_sha256_hex token node_key node_id network_id now ≡ some t
      → IsProof token node_key node_id network_id now t
  verify-IsProof token node_key node_id network_id now t h =
      Ensures-elim (IsProof token node_key node_id network_id now)
        (verify hmac_sha256_hex token node_key node_id network_id now)
        (verify-Ensures token node_key node_id network_id now) h
