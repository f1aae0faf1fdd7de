-- ===== src/Api.antt =====
-- src/a/api_server.c: the management API over HTTP. What its parts share is here; the children have
-- the nonce cache, the form fields, the endpoints, and how a request is read, checked and answered.
-- A char array is the text in it; what is printed to `err` is left out but where a client gets it.
pub mod Nonce
pub mod Auth
pub mod Form
pub mod Fields
pub mod Routes
pub mod Action
pub mod Endpoint
pub mod Http
pub mod Client
use ntap_a.Base.{
  ℕ, ◌+◌, ◌-◌, List, [], ◌∷◌, Bool, true, false, not, ◌&&◌, ◌||◌, Option, none, some, leb, ◌==◌,
  if◌then◌else◌, length, take,
}
use ntap_a.Base.Words.{Bytes}
use ntap_a.Base.Texts.{to_lower, skip_space, drop_space}

abbrev pub api_time_skew_sec : ℕ
api_time_skew_sec = 20

abbrev pub api_nonce_cache_size : ℕ
api_nonce_cache_size = 1024

abbrev pub api_body_max : ℕ
api_body_max = 16384

abbrev pub sha256_hex_size : ℕ
sha256_hex_size = 65

-- `api_request_t`; the length of `body` is `content_length`.
pub record Request : Type 0 where
  pub method : Bytes
  pub path : Bytes
  pub version : Bytes
  pub timestamp : Bytes
  pub nonce : Bytes
  pub body_sha256 : Bytes
  pub sign : Bytes
  pub body : Bytes

unfoldable pub ascii_case_equal : Bytes → Bytes → Bool
ascii_case_equal [] [] = true
ascii_case_equal [] (b ∷ bs) = false
ascii_case_equal (a ∷ as') [] = false
ascii_case_equal (a ∷ as') (b ∷ bs) = to_lower a == to_lower b && ascii_case_equal as' bs

-- `trim_ascii`
unfoldable pub trim_ascii : Bytes → Bytes
trim_ascii text = drop_space (skip_space text)

-- The difference of all characters is gathered before it is tested: for two texts of one length,
-- it is 0 exactly where no character differs.
unfoldable pub hex_equal_ci : Bytes → Bytes → Bool
hex_equal_ci a b =
    length a == sha256_hex_size - 1 && length b == sha256_hex_size - 1 && ascii_case_equal a b

-- `snprintf` of "%s" into an array of n bytes.
abbrev pub copy_to : ℕ → Bytes → Bytes
copy_to n text = take (n - 1) text
