-- ===== src/Api/Auth.antt =====
-- The signature of a request to the management API: api_verify_signature of src/a/api_server.c. The
-- hashes of src/common/hash.c are calls of OpenSSL, so they are parameters. `now` is the wall clock
-- in seconds.
pub mod Window
use ntap_a.Base.{
  ℕ, ◌+◌, ◌-◌, List, [], ◌∷◌, ◌++◌, Bool, true, false, not, ◌&&◌, ◌||◌, Option, none, some, ltb,
  leb, ◌==◌, if◌then◌else◌, length, ◌>>=◌,
}
use ntap_a.Base.Words.{Bytes}
use ntap_a.Base.Decimal.{ℤ, Parsed, pos, negsuc, strtoll}
use ntap_a.Api.{Request, api_time_skew_sec, hex_equal_ci}
use ntap_a.Api.Nonce.{NonceEntry, api_nonce_record}

abbrev pub is_empty : Bytes → Bool
is_empty [] = true
is_empty (c ∷ cs) = false

-- What the call tells in `err`.
pub data AuthError : Type 0 where
  missing_fields : AuthError
  invalid_timestamp : AuthError
  body_mismatch : AuthError
  input_too_large : AuthError
  signature_mismatch : AuthError
  nonce_refused : AuthError

-- now - 20 ≤ timestamp ≤ now + 20
unfoldable pub in_window : ℕ → ℤ → Bool
in_window now (pos t) = leb now (t + api_time_skew_sec) && leb t (now + api_time_skew_sec)
in_window now (negsuc n) = leb (now + n + 1) api_time_skew_sec

unfoldable pub timestamp_ok : ℕ → Option Parsed → Bool
timestamp_ok now none = false
timestamp_ok now (some p) = is_empty p.rest && in_window now p.value

-- "%s\n%s\n%s\n%s\n%s"
abbrev pub signing_input : Request → Bytes → Bytes
signing_input req body_sha =
    req.method ++ (10 ∷ req.path ++ (10 ∷ body_sha ++ (10 ∷ req.timestamp ++ (10 ∷ req.nonce))))

-- Whether a hash could be made, and is what the request gives.
abbrev pub made_and_given : Bytes → Option Bytes → Bool
made_and_given given none = false
made_and_given given (some made) = hex_equal_ci made given

abbrev pub verdict : Bool × List NonceEntry → Option AuthError × List NonceEntry
verdict (ok, cache) = (if ok then none else some AuthError.nonce_refused, cache)

module _ (sha256_hex : Bytes → Option Bytes) (hmac_sha256_hex : Bytes → Bytes → Option Bytes) where
  -- From the hash of the body on, up to the nonce.
  unfoldable pub check_hashes : Bytes → Request → Option Bytes → Option AuthError
  check_hashes api_key req none = some AuthError.body_mismatch
  check_hashes api_key req (some body_sha) =
      if not (hex_equal_ci body_sha req.body_sha256)
      then some AuthError.body_mismatch
      else if leb 1024 (length (signing_input req body_sha))
      then some AuthError.input_too_large
      else if not (made_and_given req.sign (hmac_sha256_hex api_key (signing_input req body_sha)))
      then some AuthError.signature_mismatch
      else none

  -- All tests before that of the nonce; `none` is that they are passed.
  unfoldable pub check_request : Bytes → ℕ → Request → Option AuthError
  check_request api_key now req =
      if is_empty req.timestamp
        || is_empty req.nonce
        || is_empty req.body_sha256
        || is_empty req.sign
      then some AuthError.missing_fields
      else if not (timestamp_ok now (strtoll req.timestamp))
      then some AuthError.invalid_timestamp
      else check_hashes api_key req (sha256_hex req.body)

  -- `api_verify_signature`: the error, if any, and the nonce cache.
  unfoldable pub api_verify_signature :
      Bytes → ℕ → Request → List NonceEntry → Option AuthError × List NonceEntry
  api_verify_signature api_key now req cache = elim (check_request api_key now req) [
    | some e ↦ (some e, cache)
    | none ↦ verdict (api_nonce_record req.nonce now cache)
  ]
