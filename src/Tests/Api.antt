-- ===== src/Tests/Api.antt =====
-- src/a/api_server.c at small inputs. The hashes are constant functions, in the form of the real ones.
use ntap_a.Base.{
  ℕ, ◌+◌, ◌≡◌, ◌≢◌, ◌↔◌, ◌⊎◌, refl, List, [], ◌∷◌, ◌++◌, true, false, Option, none, some, arith,
  replicate, All,
}
use ntap_a.Base.Words.{Bytes, IsByte}
use ntap_a.Base.Texts.{codes, to_lower, skip_space, lacks}
use ntap_a.Base.Decimal.{digits, ℤ, strtoll, after_sign, signed, clamp, read_digits}
use ntap_a.Base.Results.{gives, Gives}
use ntap_a.Net.{Arrival}
use ntap_a.Api.{Request, ascii_case_equal, hex_equal_ci}
use ntap_a.Api.Nonce.{NonceEntry, scan, scan_entry, api_nonce_record}
use ntap_a.Api.Nonce.Replay.{holds}
use ntap_a.Api.Auth.{in_window, timestamp_ok, check_hashes, check_request, api_verify_signature}
use ntap_a.Api.Auth.Window.{
  IsSigned, api_verify_signature-IsSigned, api_verify_signature_again, api_verify_signature_replay,
}
use ntap_a.Api.Form.{api_form_get, form_decode}
use ntap_a.Api.Form.Codec.{form_encode, form_decode-form_encode}
use ntap_a.Api.Form.Lookup.{Field, form_body, lookup, of_lookup, IsField, api_form_get-form_body}
use ntap_a.Api.Routes.{Route}
use ntap_a.Api.Endpoint.{action_of}
use ntap_a.Api.Endpoint.Limits.{IsValid}
use ntap_a.Api.Endpoint.Valid.{action_of-IsValid}
use ntap_a.Api.Http.{api_read_request}
use ntap_a.Api.Http.Sizes.{IsSized, api_read_request-IsSized}
use ntap_a.Api.Client.{Backend, Server, api_handle_client}
use ntap_a.Api.Client.Guarded.{IsAuthorised, api_handle_client_guarded}
use ntap_a.Api.Client.Rows.{Kind, Call, row_request}

abbrev hash : Bytes
hash = replicate 64 b'a'

abbrev sha : Bytes → Option Bytes
sha body = some hash

abbrev hmac : Bytes → Bytes → Option Bytes
hmac key text = some hash

abbrev key : Bytes
key = codes "secret"

abbrev cache : List NonceEntry
cache = replicate 3 (record { active = false; seen_at = 0; nonce = [] })

-- Signed for the second 1020, which a server takes from 1000 to 1040 on.
abbrev delete_node : Request
delete_node = record {
  method = codes "POST";
  path = codes "/api/node/delete";
  version = codes "HTTP/1.1";
  timestamp = codes "1020";
  nonce = codes "n1";
  body_sha256 = hash;
  sign = hash;
  body = codes "id=7";
}

stamp_near : (now : ℕ) → timestamp_ok now (strtoll (codes "1020")) ≡ in_window now (ℤ.pos 1020)
unfolding timestamp_ok strtoll after_sign skip_space signed clamp read_digits
stamp_near now = refl

verified_at_1000 : (api_verify_signature sha hmac key 1000 delete_node cache).0 ≡ none
unfolding api_verify_signature check_request check_hashes timestamp_ok in_window strtoll after_sign
    signed clamp read_digits skip_space hex_equal_ci ascii_case_equal to_lower api_nonce_record scan
    scan_entry
verified_at_1000 = refl

api_verify_signature-IsSigned_example :
    ((api_verify_signature sha hmac key 1000 delete_node cache).0 ≡ none)
    ↔ (IsSigned sha hmac key 1000 delete_node × (holds (codes "n1") 1000 cache ≡ false))
api_verify_signature-IsSigned_example =
    api_verify_signature-IsSigned sha hmac key 1000 delete_node cache (omega arith)

near_at_1021 : timestamp_ok 1021 (strtoll (codes "1020")) ≡ true
unfolding timestamp_ok in_window strtoll after_sign skip_space signed clamp read_digits
near_at_1021 = refl

api_verify_signature_again_example :
    (api_verify_signature sha hmac key 1021 delete_node
      (api_verify_signature sha hmac key 1000 delete_node cache).1).0
    ≡ none
api_verify_signature_again_example =
    api_verify_signature_again sha hmac key 1000 1021 delete_node cache (omega arith)
      verified_at_1000 (omega arith) near_at_1021

-- Another request with the same nonce.
abbrev list_nodes : Request
list_nodes = record delete_node { path = codes "/api/node/list"; body = [] }

api_verify_signature_replay_example :
    (api_verify_signature sha hmac key 1020 list_nodes
      (api_verify_signature sha hmac key 1000 delete_node cache).1).0
    ≢ none
api_verify_signature_replay_example =
    api_verify_signature_replay sha hmac key 1000 1020 delete_node list_nodes cache (omega arith)
      (omega arith) refl (omega arith) verified_at_1000

abbrev odd_text : Bytes
odd_text = codes "a b&c=%"

odd_bytes : All IsByte odd_text
odd_bytes = ground arith

encoded : form_encode odd_text ≡ codes "a+b%26c%3D%25"
unfolding form_encode
encoded = refl

form_decode-form_encode_example : form_decode 7 (form_encode odd_text) ≡ (true, odd_text)
form_decode-form_encode_example = form_decode-form_encode 7 odd_text odd_bytes (omega arith)

abbrev name_field : Field
name_field = (codes "n", odd_text)

abbrev id_field : Field
id_field = (codes "id", codes "7")

name_IsField : IsField 63 name_field
unfolding lacks
name_IsField = (((omega arith, tt), refl, omega arith), refl, (odd_bytes, refl, omega arith))

id_IsField : IsField 63 id_field
unfolding lacks
id_IsField = (
  ((omega arith, (omega arith, tt)), refl, omega arith),
  refl,
  ((omega arith, tt), refl, omega arith),
)

body_text : form_body name_field (id_field ∷ []) ≡ codes "n=a+b%26c%3D%25&id=7"
unfolding form_body form_encode
body_text = refl

api_form_get-form_body_example :
    api_form_get (form_body name_field (id_field ∷ [])) (codes "id") 63
    ≡ of_lookup (lookup (codes "id") (name_field ∷ id_field ∷ []))
api_form_get-form_body_example =
    api_form_get-form_body (codes "id") 63 name_field (id_field ∷ [])
      (name_IsField, (id_IsField, tt))

action_of-IsValid_example :
    Gives
      (IsValid (codes "name=lan&mtu=1500"))
      (action_of Route.network_add (codes "name=lan&mtu=1500"))
action_of-IsValid_example = action_of-IsValid Route.network_add (codes "name=lan&mtu=1500")

abbrev crlf : Bytes
crlf = 13 ∷ 10 ∷ []

-- A request in two pieces.
abbrev arrivals : List Arrival
arrivals =
    Arrival.bytes b'G' (codes "ET / HTTP/1.1" ++ crlf ++ codes "Content-Le")
    ∷ Arrival.bytes b'n' (codes "gth: 2" ++ crlf ++ crlf ++ codes "ab")
    ∷ []

api_read_request-IsSized_example : Gives IsSized (api_read_request arrivals)
api_read_request-IsSized_example = api_read_request-IsSized arrivals

-- A database that counts its updates.
abbrev counter : Backend ℕ
counter = record {
  update = λ u n. (gives tt, n + 1);
  query = λ q n. (gives [], n);
  connect = λ addr timeout. true;
}

abbrev server : Server ℕ
server = record { cache = cache; db = 0 }

api_handle_client_guarded_example :
    ((api_handle_client counter sha hmac [] key 1000 arrivals server).1.db ≡ 0)
    ⊎ ((req : Request) × (api_read_request arrivals ≡ gives req)
        × IsAuthorised counter sha hmac key 1000 req cache)
api_handle_client_guarded_example =
    api_handle_client_guarded counter sha hmac [] key 1000 arrivals server (omega arith)

abbrev delete_row : Request
delete_row = row_request Kind.node Call.delete 7 1020 (codes "n1") hash hash

asks : delete_row.body ≡ codes "id=7"
unfolding form_body form_encode digits
asks = refl
