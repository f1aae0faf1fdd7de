-- ===== src/Api/Auth/Window.antt =====
-- What a signature protects: which requests are let in, and for how long.
use ntap_a.Base.{
  ℕ, ◌+◌, ◌≤◌, ◌<◌, ◌≡◌, refl, ap, ◌∙◌, List, [], ◌∷◌, Bool, true, false, not, Option, none, some,
  arith, Option-cases, inl, inr, length, leb, ◌↔◌, ◌≢◌,
}
use ntap_a.Base.Words.{Bytes}
use ntap_a.Base.Decimal.{Parsed, strtoll}
use ntap_a.Api.{Request, api_time_skew_sec, hex_equal_ci}
use ntap_a.Api.Nonce.{NonceEntry, api_nonce_record}
use ntap_a.Api.Nonce.Replay.{
  holds, api_nonce_record-holds, api_nonce_record_again, api_nonce_record_held,
}
use ntap_a.Api.Auth.{
  is_empty, in_window, timestamp_ok, signing_input, check_hashes, check_request,
  api_verify_signature, verdict,
}

hex_equal_ci-given : (a b : Bytes) → hex_equal_ci a b ≡ true → is_empty b ≡ false
unfolding hex_equal_ci
hex_equal_ci-given a [] h = ground (arith, h)
hex_equal_ci-given a (c ∷ cs) h = refl

strtoll-given : (text : Bytes) (p : Parsed) → strtoll text ≡ some p → is_empty text ≡ false
unfolding strtoll
strtoll-given [] p h = cc
strtoll-given (c ∷ cs) p h = refl

nonce-again :
    (nonce : Bytes) (now later : ℕ) (cache : List NonceEntry)
    → 0 < length cache
    → (api_nonce_record nonce now cache).0 ≡ true
    → now + api_time_skew_sec < later
    → (api_nonce_record nonce later (api_nonce_record nonce now cache).1).0 ≡ true
unfolding api_nonce_record
nonce-again [] now later cache room h late = h
nonce-again (c ∷ cs) now later cache room h late =
    api_nonce_record_again c cs now later cache room h late

nonce-held :
    (nonce : Bytes) (now later : ℕ) (cache : List NonceEntry)
    → 0 < length cache
    → length nonce < 128
    → later ≤ now + api_time_skew_sec
    → (api_nonce_record nonce now cache).0 ≡ true
    → holds nonce later (api_nonce_record nonce now cache).1 ≡ true
unfolding api_nonce_record
nonce-held [] now later cache room short soon h = cc
nonce-held (c ∷ cs) now later cache room short soon h =
    api_nonce_record_held c cs now later cache (omega (arith, short)) room soon h

holds-room :
    (nonce : Bytes) (now : ℕ) (cache : List NonceEntry)
    → holds nonce now cache ≡ true
    → 0 < length cache
unfolding holds
holds-room nonce now [] h = cc
holds-room nonce now (e ∷ es) h = omega arith

verdict-true : (p : Bool × List NonceEntry) → p.0 ≡ true → (verdict p).0 ≡ none
verdict-true (ok, cache) h = rw h refl

module _ (sha256_hex : Bytes → Option Bytes) (hmac_sha256_hex : Bytes → Bytes → Option Bytes) where
  -- What a request has to show, apart from the order in which the code tests it.
  pub record IsSigned (api_key : Bytes) (now : ℕ) (req : Request) : Type 0 where
    pub sha : Bytes
    pub mac : Bytes
    pub stamp : Parsed
    pub nonce_given : is_empty req.nonce ≡ false
    pub stamp_read : strtoll req.timestamp ≡ some stamp
    pub stamp_whole : is_empty stamp.rest ≡ true
    pub stamp_near : in_window now stamp.value ≡ true
    pub sha_of_body : sha256_hex req.body ≡ some sha
    pub sha_given : hex_equal_ci sha req.body_sha256 ≡ true
    pub short : length (signing_input req sha) < 1024
    pub mac_of_request : hmac_sha256_hex api_key (signing_input req sha) ≡ some mac
    pub mac_given : hex_equal_ci mac req.sign ≡ true

  check_request-signed :
      (api_key : Bytes) (now : ℕ) (req : Request)
      → IsSigned api_key now req
      → check_request sha256_hex hmac_sha256_hex api_key now req ≡ none
  unfolding check_request check_hashes timestamp_ok
  check_request-signed api_key now req h =
      let t = strtoll-given req.timestamp h.stamp h.stamp_read in
      let b = hex_equal_ci-given h.sha req.body_sha256 h.sha_given in
      let g = hex_equal_ci-given h.mac req.sign h.mac_given in
      let l : leb 1024 (length (signing_input req h.sha)) ≡ false = ground (arith, h.short) in
      rw
        (
          t, h.nonce_given, b, g, h.stamp_read, h.stamp_whole, h.stamp_near, h.sha_of_body,
          h.sha_given, l, h.mac_of_request, h.mac_given,
        )
        refl

  check_hashes-passed :
      (api_key : Bytes) (req : Request) (made : Option Bytes)
      → check_hashes sha256_hex hmac_sha256_hex api_key req made ≡ none
      → (sha : Bytes) × (mac : Bytes) × (made ≡ some sha)
        × (hex_equal_ci sha req.body_sha256 ≡ true)
        × (length (signing_input req sha) < 1024)
        × (hmac_sha256_hex api_key (signing_input req sha) ≡ some mac)
        × (hex_equal_ci mac req.sign ≡ true)
  unfolding check_hashes
  check_hashes-passed api_key req none h = cc
  check_hashes-passed api_key req (some sha) h =
      elim (Option-cases (hmac_sha256_hex api_key (signing_input req sha))) [
        | inl failed ↦ absurd (ground (arith, h, failed))
        | inr (mac, e) ↦
            (sha, mac, refl, ground (arith, h), ground (arith, h), e, ground (arith, h, e))
      ]

  timestamp_ok-passed :
      (now : ℕ) (p : Option Parsed)
      → timestamp_ok now p ≡ true
      → (stamp : Parsed) × (p ≡ some stamp)
        × (is_empty stamp.rest ≡ true)
        × (in_window now stamp.value ≡ true)
  unfolding timestamp_ok
  timestamp_ok-passed now none h = cc
  timestamp_ok-passed now (some p) h = (p, refl, ground (arith, h), ground (arith, h))

  check_request-passed :
      (api_key : Bytes) (now : ℕ) (req : Request)
      → check_request sha256_hex hmac_sha256_hex api_key now req ≡ none
      → IsSigned api_key now req
  unfolding check_request
  check_request-passed api_key now req h =
      let n : is_empty req.nonce ≡ false = ground (arith, h) in
      let t : timestamp_ok now (strtoll req.timestamp) ≡ true = ground (arith, h) in
      let r : check_hashes sha256_hex hmac_sha256_hex api_key req (sha256_hex req.body) ≡ none =
        ground (arith, h) in
      let (stamp, read, whole, near) = timestamp_ok-passed now (strtoll req.timestamp) t in
      let (sha, mac, made, given, short, signs, sign_given) =
        check_hashes-passed api_key req (sha256_hex req.body) r in
      record {
        sha = sha;
        mac = mac;
        stamp = stamp;
        nonce_given = n;
        stamp_read = read;
        stamp_whole = whole;
        stamp_near = near;
        sha_of_body = made;
        sha_given = given;
        short = short;
        mac_of_request = signs;
        mac_given = sign_given;
      }

  nonce-record :
      (nonce : Bytes) (now : ℕ) (cache : List NonceEntry)
      → 0 < length cache
      → is_empty nonce ≡ false
      → (api_nonce_record nonce now cache).0 ≡ not (holds nonce now cache)
  nonce-record [] now cache room h = cc
  nonce-record (c ∷ cs) now cache room h = api_nonce_record-holds c cs now cache room

  verified :
      (api_key : Bytes) (now : ℕ) (req : Request) (cache : List NonceEntry)
      → check_request sha256_hex hmac_sha256_hex api_key now req ≡ none
      → api_verify_signature sha256_hex hmac_sha256_hex api_key now req cache
        ≡ verdict (api_nonce_record req.nonce now cache)
  unfolding api_verify_signature
  verified api_key now req cache h = rw (h, api_verify_signature) refl

  -- With a cache of at least one entry, a request is let in exactly where it is signed with the API's key for
  -- this time, with the hash of its body, and the cache holds no live entry of its nonce.
  pub api_verify_signature-IsSigned :
      (api_key : Bytes) (now : ℕ) (req : Request) (cache : List NonceEntry)
      → 0 < length cache
      → ((api_verify_signature sha256_hex hmac_sha256_hex api_key now req cache).0 ≡ none)
        ↔ (IsSigned api_key now req × (holds req.nonce now cache ≡ false))
  unfolding api_verify_signature
  api_verify_signature-IsSigned api_key now req cache room =
      elim (Option-cases (check_request sha256_hex hmac_sha256_hex api_key now req)) [
        | inl passed ↦
            let signed = check_request-passed api_key now req passed in
            let fresh' = nonce-record req.nonce now cache room signed.nonce_given in
            (
              λ h. (signed, ground (arith, h, passed, fresh')),
              λ (s, free). ground (arith, passed, fresh', free),
            )
        | inr (e, failed) ↦ (
          λ h. absurd (ground (arith, h, failed)),
          λ (s, free). absurd (ground (arith, failed, check_request-signed api_key now req s)),
        )
      ]

  check_request-later :
      (api_key : Bytes) (now later : ℕ) (req : Request)
      → timestamp_ok later (strtoll req.timestamp) ≡ true
      → check_request sha256_hex hmac_sha256_hex api_key now req ≡ none
      → check_request sha256_hex hmac_sha256_hex api_key later req ≡ none
  check_request-later api_key now later req ok h =
      let s = check_request-passed api_key now req h in
      let (stamp, read, whole, near) = timestamp_ok-passed later (strtoll req.timestamp) ok in
      check_request-signed api_key later req record {
        sha = s.sha;
        mac = s.mac;
        stamp = stamp;
        nonce_given = s.nonce_given;
        stamp_read = read;
        stamp_whole = whole;
        stamp_near = near;
        sha_of_body = s.sha_of_body;
        sha_given = s.sha_given;
        short = s.short;
        mac_of_request = s.mac_of_request;
        mac_given = s.mac_given;
      }

  -- What is left of a request that was let in: its nonce was recorded.
  let_in :
      (api_key : Bytes) (now : ℕ) (req : Request) (cache : List NonceEntry)
      → (api_verify_signature sha256_hex hmac_sha256_hex api_key now req cache).0 ≡ none
      → (check_request sha256_hex hmac_sha256_hex api_key now req ≡ none)
        × ((api_nonce_record req.nonce now cache).0 ≡ true)
        × ((api_verify_signature sha256_hex hmac_sha256_hex api_key now req cache).1
            ≡ (api_nonce_record req.nonce now cache).1)
  unfolding api_verify_signature
  let_in api_key now req cache h =
      elim (Option-cases (check_request sha256_hex hmac_sha256_hex api_key now req)) [
        | inl passed ↦ (passed, ground (arith, h, passed), rw (passed, api_verify_signature) refl)
        | inr (e, failed) ↦ absurd (ground (arith, h, failed))
      ]

  -- With a cache of at least one entry: a request that was let in is let in once more where its
  -- timestamp is still in the window and more than 20 seconds have passed since the first time, no
  -- other request having come in between.
  pub api_verify_signature_again :
      (api_key : Bytes) (now later : ℕ) (req : Request) (cache : List NonceEntry)
      → 0 < length cache
      → (api_verify_signature sha256_hex hmac_sha256_hex api_key now req cache).0 ≡ none
      → now + api_time_skew_sec < later
      → timestamp_ok later (strtoll req.timestamp) ≡ true
      → (api_verify_signature sha256_hex hmac_sha256_hex api_key later req
          (api_verify_signature sha256_hex hmac_sha256_hex api_key now req cache).1).0
        ≡ none
  api_verify_signature_again api_key now later req cache room h late near =
      let (passed, recorded, e) = let_in api_key now req cache h in
      let passes = check_request-later api_key now later req near passed in
      let again = nonce-again req.nonce now later cache room recorded late in
      rw e (
        ap (λ p. p.0) (verified api_key later req (api_nonce_record req.nonce now cache).1 passes)
        ∙ verdict-true (api_nonce_record req.nonce later (api_nonce_record req.nonce now cache).1)
            again)

  -- With a cache of at least one entry: within 20 seconds of a request that was let in, none with
  -- the same nonce of at most 127 bytes is let in, whatever else it holds, if no other request came
  -- in between.
  pub api_verify_signature_replay :
      (api_key : Bytes) (now later : ℕ) (req replay : Request) (cache : List NonceEntry)
      → 0 < length cache
      → length req.nonce < 128
      → replay.nonce ≡ req.nonce
      → later ≤ now + api_time_skew_sec
      → (api_verify_signature sha256_hex hmac_sha256_hex api_key now req cache).0 ≡ none
      → (api_verify_signature sha256_hex hmac_sha256_hex api_key later replay
          (api_verify_signature sha256_hex hmac_sha256_hex api_key now req cache).1).0
        ≢ none
  api_verify_signature_replay api_key now later req replay cache room short same soon h again =
      let (passed, recorded, e) = let_in api_key now req cache h in
      let held = nonce-held req.nonce now later cache room short soon recorded in
      let room' : 0
          < length (api_verify_signature sha256_hex hmac_sha256_hex api_key now req cache).1 =
        rw e (holds-room req.nonce later (api_nonce_record req.nonce now cache).1 held) in
      let (_, free) =
        (api_verify_signature-IsSigned api_key later replay
            (api_verify_signature sha256_hex hmac_sha256_hex api_key now req cache).1 room').0
          again in
      let held' : holds replay.nonce later
            (api_verify_signature sha256_hex hmac_sha256_hex api_key now req cache).1
          ≡ true =
        rw (same, e) held in
      absurd (ground (arith, held', free))
