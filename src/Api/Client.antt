-- ===== src/Api/Client.antt =====
-- One connection of the management API: the responses of src/a/api_server.c, api_handle_web_endpoint
-- and api_handle_client. The database is a type with two calls on it, `update` and `query`; `connect`
-- is ntap_tcp_connect_timeout, `index` the page that src/a/web_assets.h holds. A response is built here,
-- src/common/net.c sends it.
pub mod Guarded
pub mod Rows
use ntap_a.Base.{
  ℕ, ◌+◌, ◌-◌, List, [], ◌∷◌, ◌++◌, Bool, true, false, not, ◌&&◌, ◌||◌, Option, none, some, ltb,
  leb, if◌then◌else◌, length, take,
}
use ntap_a.Base.Words.{Bytes}
use ntap_a.Base.Texts.{codes, bytes_equal}
use ntap_a.Base.Decimal.{show_dec}
use ntap_a.Net.{Arrival}
use ntap_a.Api.{Request}
use ntap_a.Api.Auth.{AuthError, api_verify_signature}
use ntap_a.Api.Nonce.{NonceEntry}
use ntap_a.Api.Fields.{Result, gives, fails}
use ntap_a.Api.Routes.{Route, routes, route_of}
use ntap_a.Api.Action.{Update, Query, Action}
use ntap_a.Api.Endpoint.{action_of}
use ntap_a.Api.Http.{api_read_request}

pub record Response : Type 0 where
  pub status : ℕ
  pub reason : Bytes
  pub content_type : Bytes
  pub body : Bytes

abbrev pub crlf : Bytes
crlf = 13 ∷ 10 ∷ []

abbrev pub response_header : Response → Bytes
response_header r =
    codes "HTTP/1.1 "
    ++ show_dec r.status
    ++ (b' ' ∷ r.reason)
    ++ crlf
    ++ codes "Content-Type: "
    ++ r.content_type
    ++ crlf
    ++ codes "Content-Length: "
    ++ show_dec (length r.body)
    ++ crlf
    ++ codes "Connection: close"
    ++ crlf
    ++ crlf

-- What `api_send_response_type` gives to `ntap_send_all`; `none` where the header is too large.
unfoldable pub response_bytes : Response → Option Bytes
response_bytes r =
    if leb 512 (length (response_header r)) then none else some (response_header r ++ r.body)

-- `api_send_response`
abbrev pub json_response : ℕ → Bytes → Bytes → Response
json_response status reason body = record {
  status = status;
  reason = reason;
  content_type = codes "application/json";
  body = body;
}

abbrev pub quote : Bytes
quote = 34 ∷ []

-- `api_error`: the text is not escaped, and what does not fit into 512 bytes is cut off.
unfoldable pub api_error : ℕ → Bytes → Bytes → Response
api_error status reason msg =
    json_response status reason (take 511 (codes "{\"code\":0,\"msg\":\"" ++ msg ++ codes "\"}"))

abbrev pub reply_ok : Bytes
reply_ok = codes "{\"code\":1,\"msg\":\"ok\"}"

abbrev pub not_found : Response
not_found = api_error 404 (codes "Not Found") (codes "not found")

module _ (index : Bytes) where
  -- `api_handle_web_endpoint`
  unfoldable pub web_response : Bytes → Response
  web_response path =
      if bytes_equal path (codes "/") || bytes_equal path (codes "/index.html")
      then record {
        status = 200;
        reason = codes "OK";
        content_type = codes "text/html; charset=utf-8";
        body = index;
      }
      else if bytes_equal path (codes "/favicon.ico")
      then record {
        status = 204;
        reason = codes "No Content";
        content_type = codes "text/plain";
        body = [];
      }
      else not_found

-- {"code":1,"data":{"id":%lld,"reachable":%d,"timeout_ms":%u}}
abbrev pub probe_reply : ℕ → Bool → ℕ → Bytes
probe_reply id reachable timeout_ms =
    codes "{\"code\":1,\"data\":{\"id\":"
    ++ show_dec id
    ++ codes ",\"reachable\":"
    ++ (if reachable then codes "1" else codes "0")
    ++ codes ",\"timeout_ms\":"
    ++ show_dec timeout_ms
    ++ codes "}}"

abbrev pub reply_health : Bytes
reply_health = codes "{\"code\":1,\"data\":{\"status\":\"ok\"}}"

-- What is behind the API: the database, and the network for a probe.
pub record Backend (Db : Type 0) : Type 0 where
  pub update : Update → Db → Result (Unit {0}) × Db
  pub query : Query → Db → Result Bytes × Db
  pub connect : Bytes → ℕ → Bool

-- The state of the server: its nonce cache, and the database.
pub record Server (Db : Type 0) : Type 0 where
  pub cache : List NonceEntry
  pub db : Db

module _ {Db : Type 0} (b : Backend Db) where
  abbrev pub replied : Bytes → Result (Unit {0}) × Db → Result Bytes × Db
  replied reply (gives u, db) = (gives reply, db)
  replied reply (fails e, db) = (fails e, db)

  -- The end of an endpoint: its call of the database, and the JSON text.
  unfoldable pub execute : Action → Db → Result Bytes × Db
  execute (Action.update u) db = replied reply_ok (b.update u db)
  execute (Action.query q) db = b.query q db
  execute (Action.probe id addr timeout_ms) db =
      let reachable = b.connect addr timeout_ms in
      replied (probe_reply id reachable timeout_ms)
        (b.update (Update.set_direct_probe id reachable addr) db)
  execute Action.health db = (gives reply_health, db)

  abbrev pub run_action : Result Action → Db → Result Bytes × Db
  run_action (fails e) db = (fails e, db)
  run_action (gives a) db = execute a db

  abbrev pub json_of : Result Bytes × Db → Response × Db
  json_of (gives json, db) = (json_response 200 (codes "OK") json, db)
  json_of (fails e, db) = (api_error 500 (codes "Internal Server Error") e, db)

  -- `api_handle_json_endpoint`, and what `api_handle_client` does with its result.
  unfoldable pub json_endpoint : Option Route → Bytes → Db → Response × Db
  json_endpoint none body db = (not_found, db)
  json_endpoint (some r) body db = json_of (run_action (action_of r body) db)

  abbrev pub with_cache : List NonceEntry → Response × Db → Response × Server Db
  with_cache cache (r, db) = (r, record { cache = cache; db = db })

-- The text of `err` after a signature was refused.
abbrev pub auth_text : AuthError → Bytes
auth_text AuthError.missing_fields = codes "missing api signature fields"
auth_text AuthError.invalid_timestamp = codes "invalid api timestamp"
auth_text AuthError.body_mismatch = codes "body_sha256 mismatch"
auth_text AuthError.input_too_large = codes "api signing input too large"
auth_text AuthError.signature_mismatch = codes "api signature mismatch"
auth_text AuthError.nonce_refused = codes "api nonce replay"

module _ {Db : Type 0} (b : Backend Db) (sha256_hex : Bytes → Option Bytes)
    (hmac_sha256_hex : Bytes → Bytes → Option Bytes) where
  abbrev pub after_signature :
      Request → Db → Option AuthError × List NonceEntry → Response × Server Db
  after_signature req db (some e, cache) =
      (api_error 401 (codes "Unauthorized") (auth_text e), record { cache = cache; db = db })
  after_signature req db (none, cache) =
      with_cache b cache (json_endpoint b (route_of req.path routes) req.body db)

  -- `api_handle_client` once the request is read.
  unfoldable pub handle_request : Bytes → Bytes → ℕ → Request → Server Db → Response × Server Db
  handle_request index api_key now req s =
      if bytes_equal req.method (codes "GET")
      then (web_response index req.path, s)
      else if not (bytes_equal req.method (codes "POST"))
      then (api_error 405 (codes "Method Not Allowed") (codes "method not allowed"), s)
      else after_signature req s.db
          (api_verify_signature sha256_hex hmac_sha256_hex api_key now req s.cache)

  abbrev pub handle_read : Bytes → Bytes → ℕ → Result Request → Server Db → Response × Server Db
  handle_read index api_key now (fails e) s = (api_error 400 (codes "Bad Request") e, s)
  handle_read index api_key now (gives req) s = handle_request index api_key now req s

  -- `api_handle_client`: the response, and the server behind it.
  unfoldable pub api_handle_client :
      Bytes → Bytes → ℕ → List Arrival → Server Db → Response × Server Db
  api_handle_client index api_key now es s = handle_read index api_key now (api_read_request es) s
