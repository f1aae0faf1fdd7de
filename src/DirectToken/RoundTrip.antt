-- ===== src/DirectToken/RoundTrip.antt =====
-- That a token that is made is let in.
use ntap_a.Base.{
  ℕ, ◌^◌, ◌≤◌, ◌<◌, ◌≡◌, refl, sym, ap, ◌∙◌, [], ◌∷◌, ◌++◌, append-nil, true, false, not, Option,
  none, some, arith, ltb, ◌==◌, length, All, ==_self, ◌-◌, Ensures, Ensures-elim, Ensures-guard,
  Ensures->>=, Ensures-intro, lt→ltb,
}
use ntap_a.Base.Words.{Bytes}
use ntap_a.Base.Texts.{codes, bytes_equal_self, lacks, split_at-append, split_at-lacks, is_digit}
use ntap_a.Base.Decimal.{
  digits-All, show_dec, HasDigits-64, int64_max, strtoll-digits, strtoul-digits,
}
use ntap_a.Api.{sha256_hex_size, ascii_case_equal}
use ntap_a.Api.Auth.{is_empty}
use ntap_a.DirectToken.{
  DirectToken, next_field, split_fields, read_claims, verify_claims, token_sign, token_text, make,
  verify, token_max, parse_i64, parse_u64, can_sign, node_id_ok, hex_string, all_xdigits,
  token_hex_equal_ci, token_nonce_hex_size, token_signing,
}

digits-lacks : (text : Bytes) → All (λ c. is_digit c ≡ true) text → lacks b'|' text ≡ true
unfolding lacks
digits-lacks [] h = refl
digits-lacks (c ∷ cs) (d, h) = ground (arith, d, digits-lacks cs h)

xdigits-lacks : (text : Bytes) → all_xdigits text ≡ true → lacks b'|' text ≡ true
unfolding lacks
xdigits-lacks [] h = refl
xdigits-lacks (c ∷ cs) h = ground (arith, h, xdigits-lacks cs)

show_dec-lacks : (n : ℕ) → lacks b'|' (show_dec n) ≡ true
show_dec-lacks n = digits-lacks (show_dec n) (digits-All 20 n)

next_field-append :
    (l r : Bytes) → lacks b'|' l ≡ true → next_field (some (l ++ (b'|' ∷ r))) ≡ (some l, some r)
unfolding next_field
next_field-append l r h = rw (split_at-append b'|' l r h, next_field) refl

next_field-last : (l : Bytes) → lacks b'|' l ≡ true → next_field (some l) ≡ (some l, none)
unfolding next_field
next_field-last l h = rw (split_at-lacks b'|' l h, next_field) refl

parse_i64-show_dec : (n : ℕ) → 0 < n → n ≤ int64_max → parse_i64 (show_dec n) ≡ some n
unfolding parse_i64
parse_i64-show_dec n given fits =
    let e = strtoll-digits 19 n [] (HasDigits-64 n (omega (arith, fits))) fits tt in
    let nz : (n == 0) ≡ false = ground (arith, given) in
    rw (sym (append-nil (show_dec n)), e, nz) refl

parse_u64-show_dec : (n : ℕ) → 0 < n → n < 2 ^ 64 → parse_u64 (show_dec n) ≡ some n
unfolding parse_u64
parse_u64-show_dec n given fits =
    let e = strtoul-digits 19 n [] (HasDigits-64 n fits) fits tt in
    let nz : (n == 0) ≡ false = ground (arith, given) in
    rw (sym (append-nil (show_dec n)), e, nz) refl

-- No field of the token holds a separator.
record AreFields (t : DirectToken) (signature : Bytes) : Type 0 where
  node_id : lacks b'|' t.node_id ≡ true
  nonce : lacks b'|' t.nonce ≡ true
  sign : lacks b'|' signature ≡ true

split_fields-token_text :
    (t : DirectToken) (sign : Bytes)
    → AreFields t sign
    → split_fields (token_text t sign) ≡ record {
      version = some (codes "ntap1");
      user_id = some (show_dec t.user_id);
      node_id = some t.node_id;
      network_id = some (show_dec t.network_id);
      expire_at = some (show_dec t.expire_at);
      nonce = some t.nonce;
      sign = some sign;
      cursor = none;
    }
unfolding split_fields
split_fields-token_text t sign h =
    let r6 = t.nonce ++ (b'|' ∷ sign) in
    let r5 = show_dec t.expire_at ++ (b'|' ∷ r6) in
    let r4 = show_dec t.network_id ++ (b'|' ∷ r5) in
    let r3 = t.node_id ++ (b'|' ∷ r4) in
    let r2 = show_dec t.user_id ++ (b'|' ∷ r3) in
    rw
      (
        next_field-append (codes "ntap1") r2 (unfold lacks in refl),
        next_field-append (show_dec t.user_id) r3 (show_dec-lacks t.user_id),
        next_field-append t.node_id r4 h.node_id,
        next_field-append (show_dec t.network_id) r5 (show_dec-lacks t.network_id),
        next_field-append (show_dec t.expire_at) r6 (show_dec-lacks t.expire_at),
        next_field-append t.nonce sign h.nonce,
        next_field-last sign h.sign,
      )
      refl

-- The claims are in the range of their types.
pub record InRange (t : DirectToken) : Type 0 where
  pub user_id : t.user_id ≤ int64_max
  pub network_id : t.network_id ≤ int64_max
  pub expire_at : t.expire_at < 2 ^ 64

-- What `direct_token_sign` has tested.
record IsSignable (node_key : Bytes) (t : DirectToken) : Type 0 where
  key : is_empty node_key ≡ false
  node_id : node_id_ok t.node_id ≡ true
  user_id : 0 < t.user_id
  network_id : 0 < t.network_id
  expire_at : 0 < t.expire_at
  nonce : hex_string (token_nonce_hex_size - 1) t.nonce ≡ true

can_sign-IsSignable :
    (node_key : Bytes) (t : DirectToken) → can_sign node_key t ≡ true → IsSignable node_key t
unfolding can_sign
can_sign-IsSignable node_key t h = record {
  key = ground (arith, h);
  node_id = ground (arith, h);
  user_id = ground (arith, h);
  network_id = ground (arith, h);
  expire_at = ground (arith, h);
  nonce = ground (arith, h);
}

IsSignable-AreFields :
    (node_key : Bytes) (t : DirectToken) (sign : Bytes)
    → IsSignable node_key t
    → hex_string (sha256_hex_size - 1) sign ≡ true
    → AreFields t sign
unfolding node_id_ok hex_string
IsSignable-AreFields node_key t sign s h = record {
  node_id = ground (arith, s.node_id);
  nonce = xdigits-lacks t.nonce (ground (arith, s.nonce));
  sign = xdigits-lacks sign (ground (arith, h));
}

ascii_case_equal_self : (text : Bytes) → ascii_case_equal text text ≡ true
unfolding ascii_case_equal
ascii_case_equal_self [] = refl
ascii_case_equal_self (c ∷ cs) = ground (arith, ascii_case_equal_self cs)

token_hex_equal_ci_self :
    (text : Bytes)
    → hex_string (sha256_hex_size - 1) text ≡ true
    → token_hex_equal_ci text text ≡ true
unfolding token_hex_equal_ci
token_hex_equal_ci_self text h = rw (h, ascii_case_equal_self text) refl

read_claims-token_text :
    (node_key : Bytes) (t : DirectToken) (sign : Bytes)
    → IsSignable node_key t
    → InRange t
    → AreFields t sign
    → read_claims (split_fields (token_text t sign)) t.node_id t.network_id ≡ some (t, sign)
unfolding read_claims
read_claims-token_text node_key t sign s r f =
    let e = split_fields-token_text t sign f in
    let u = parse_i64-show_dec t.user_id s.user_id r.user_id in
    let w = parse_i64-show_dec t.network_id s.network_id r.network_id in
    let x = parse_u64-show_dec t.expire_at s.expire_at r.expire_at in
    rw
      (
        e,
        bytes_equal_self (codes "ntap1"),
        u,
        s.node_id,
        bytes_equal_self t.node_id,
        w,
        ==_self t.network_id,
        x,
      )
      refl

module _ (hmac_sha256_hex : Bytes → Bytes → Option Bytes) where
  abbrev pub GivesHex : Type 0
  GivesHex =
      (key text mac : Bytes)
      → hmac_sha256_hex key text ≡ some mac
      → hex_string (sha256_hex_size - 1) mac ≡ true

  -- What `make` has written.
  abbrev Makes : Bytes → DirectToken → Bytes → Type 0
  Makes node_key t token =
      (sign : Bytes) × (token ≡ token_text t sign)
      × (token_sign hmac_sha256_hex node_key t ≡ some sign)
      × IsSignable node_key t
      × (hex_string (sha256_hex_size - 1) sign ≡ true)

  token_sign-tests :
      (node_key : Bytes) (t : DirectToken) (sign : Bytes)
      → GivesHex
      → token_sign hmac_sha256_hex node_key t ≡ some sign
      → IsSignable node_key t × (hex_string (sha256_hex_size - 1) sign ≡ true)
  unfolding token_sign
  token_sign-tests node_key t sign hex h =
      let S : Bytes → Type 0 =
        λ s. IsSignable node_key t × (hex_string (sha256_hex_size - 1) s ≡ true) in
      Ensures-elim S (token_sign hmac_sha256_hex node_key t)
        (Ensures-guard S (can_sign node_key t) _ λ ok.
          Ensures-guard S (ltb (length (token_signing t)) token_max) _ λ short.
            Ensures-intro S (hmac_sha256_hex node_key (token_signing t))
              (λ mac e. (can_sign-IsSignable node_key t ok, hex node_key (token_signing t) mac e)))
        h

  make-Makes :
      (out_len : ℕ) (node_key : Bytes) (t : DirectToken)
      → GivesHex
      → Ensures (Makes node_key t) (make hmac_sha256_hex out_len node_key t)
  unfolding make
  make-Makes out_len node_key t hex =
      let M = Makes node_key t in
      Ensures-guard M (not (out_len == 0)) _ λ given.
        Ensures->>= M (token_sign hmac_sha256_hex node_key t) _ λ sign e.
          Ensures-guard M (ltb (length (token_text t sign)) out_len) _
            λ fits. let (s, x) = token_sign-tests node_key t sign hex e in (sign, refl, e, s, x)

  -- A token that was made is let in by the node whose key it was made with, for the node's id and its
  -- network, until it expires, with the claims that it was made of: the claims being in the range of their
  -- types, the token within `NTAP_DIRECT_TOKEN_MAX`, and the HMAC made of 64 hexadecimal digits.
  pub verify-make :
      (out_len now : ℕ) (node_key token : Bytes) (t : DirectToken)
      → GivesHex
      → InRange t
      → now < t.expire_at
      → length token < token_max
      → make hmac_sha256_hex out_len node_key t ≡ some token
      → verify hmac_sha256_hex token node_key t.node_id t.network_id now ≡ some t
  unfolding verify verify_claims
  verify-make out_len now node_key token t hex range early short made =
      let (sign, e, signed, s, x) =
        Ensures-elim (Makes node_key t) (make hmac_sha256_hex out_len node_key t)
          (make-Makes out_len node_key t hex) made in
      let f = IsSignable-AreFields node_key t sign s x in
      let small : ltb (length (token_text t sign)) token_max ≡ true =
        ap (λ y. ltb (length y) token_max) (sym e) ∙ lt→ltb (length token) token_max short in
      let nz : (t.network_id == 0) ≡ false = ground (arith, s.network_id) in
      rw
        (
          e,
          s.key,
          s.node_id,
          nz,
          small,
          read_claims-token_text node_key t sign s range f,
          lt→ltb now t.expire_at early,
          s.nonce,
          x,
          signed,
          token_hex_equal_ci_self sign x,
        )
        refl
