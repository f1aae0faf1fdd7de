-- ===== src/Api/Client/Guarded.antt =====
-- Who reaches the database.
use ntap_a.Base.{
  ℕ, ◌<◌, ◌≡◌, refl, ap, ◌∙◌, ◌⊎◌, inl, inr, List, true, false, Option, none, some, length,
  Bool-cases,
}
use ntap_a.Base.Words.{Bytes}
use ntap_a.Base.Texts.{codes, bytes_equal, bytes_equal_iff, bytes_equal_self}
use ntap_a.Net.{Arrival}
use ntap_a.Api.{Request}
use ntap_a.Api.Nonce.{NonceEntry}
use ntap_a.Api.Nonce.Replay.{holds}
use ntap_a.Api.Auth.{AuthError, api_verify_signature}
use ntap_a.Api.Auth.Window.{IsSigned, api_verify_signature-IsSigned}
use ntap_a.Api.Fields.{Result, gives, fails}
use ntap_a.Api.Routes.{Route, routes, route_of}
use ntap_a.Api.Action.{Action}
use ntap_a.Api.Endpoint.{action_of}
use ntap_a.Api.Http.{api_read_request}
use ntap_a.Api.Client.{
  Backend, Server, execute, json_of, json_endpoint, after_signature, with_cache, handle_request,
  handle_read, api_handle_client,
}

module _ {Db : Type 0} (b : Backend Db) (sha256_hex : Bytes → Option Bytes)
    (hmac_sha256_hex : Bytes → Bytes → Option Bytes) where
  -- A POST that is signed for this time and whose nonce the cache does not hold.
  abbrev pub IsAuthorised : Bytes → ℕ → Request → List NonceEntry → Type 0
  IsAuthorised api_key now req cache =
      (req.method ≡ codes "POST")
      × IsSigned sha256_hex hmac_sha256_hex api_key now req
      × (holds req.nonce now cache ≡ false)

  refused :
      (req : Request) (db : Db) (v : Option AuthError × List NonceEntry)
      → ((after_signature b sha256_hex hmac_sha256_hex req db v).1.db ≡ db) ⊎ (v.0 ≡ none)
  refused req db (some e, cache) = inl refl
  refused req db (none, cache) = inr refl

  -- A request changes the database only where it is authorised.
  pub handle_request_guarded :
      (index api_key : Bytes) (now : ℕ) (req : Request) (s : Server Db)
      → 0 < length s.cache
      → ((handle_request b sha256_hex hmac_sha256_hex index api_key now req s).1.db ≡ s.db)
        ⊎ IsAuthorised api_key now req s.cache
  unfolding handle_request
  handle_request_guarded index api_key now req s room =
      elim (Bool-cases (bytes_equal req.method (codes "GET"))) [
        | inl get ↦ inl (rw get refl)
        | inr other ↦ elim (Bool-cases (bytes_equal req.method (codes "POST"))) [
          | inr third ↦ inl (rw (other, third) refl)
          | inl post ↦
              let v = api_verify_signature sha256_hex hmac_sha256_hex api_key now req s.cache in
              elim (refused req s.db v) [
                | inl same ↦ inl (rw (other, post) same)
                | inr passed ↦
                    let (signed, free) =
                      (api_verify_signature-IsSigned sha256_hex hmac_sha256_hex api_key now req
                          s.cache room).0
                        passed in
                    inr ((bytes_equal_iff req.method (codes "POST")).0 post, signed, free)
              ]
        ]
      ]

  read_guarded :
      (index api_key : Bytes) (now : ℕ) (r : Result Request) (s : Server Db)
      → 0 < length s.cache
      → ((handle_read b sha256_hex hmac_sha256_hex index api_key now r s).1.db ≡ s.db)
        ⊎ ((req : Request) × (r ≡ gives req) × IsAuthorised api_key now req s.cache)
  read_guarded index api_key now (fails e) s room = inl refl
  read_guarded index api_key now (gives req) s room =
      elim (handle_request_guarded index api_key now req s room) [
        | inl same ↦ inl same
        | inr auth ↦ inr (req, refl, auth)
      ]

  -- With a nonce cache of at least one entry, a connection leaves the database as it is unless what
  -- arrives is a request that is authorised: a POST that is signed with the API's key for this time,
  -- and whose nonce the cache does not hold.
  pub api_handle_client_guarded :
      (index api_key : Bytes) (now : ℕ) (es : List Arrival) (s : Server Db)
      → 0 < length s.cache
      → ((api_handle_client b sha256_hex hmac_sha256_hex index api_key now es s).1.db ≡ s.db)
        ⊎ ((req : Request) × (api_read_request es ≡ gives req)
            × IsAuthorised api_key now req s.cache)
  unfolding api_handle_client
  api_handle_client_guarded index api_key now es s room =
      read_guarded index api_key now (api_read_request es) s room

  accepted :
      (req : Request) (db : Db) (v : Option AuthError × List NonceEntry)
      → v.0 ≡ none
      → after_signature b sha256_hex hmac_sha256_hex req db v
        ≡ with_cache b v.1 (json_endpoint b (route_of req.path routes) req.body db)
  accepted req db (some e, cache) h = cc
  accepted req db (none, cache) h = refl

  json_of-db : (p : Result Bytes × Db) → (json_of b p).1 ≡ p.1
  json_of-db (gives json, db) = refl
  json_of-db (fails e, db) = refl

  -- With a nonce cache of at least one entry, a request that is authorised, for a path that there is
  -- and with fields that its endpoint takes, is executed: the database is what the execution makes
  -- of it, and the response is made of its result.
  pub handle_request_executes :
      (index api_key : Bytes) (now : ℕ) (req : Request) (s : Server Db) (r : Route) (a : Action)
      → 0 < length s.cache
      → IsAuthorised api_key now req s.cache
      → route_of req.path routes ≡ some r
      → action_of r req.body ≡ gives a
      → ((handle_request b sha256_hex hmac_sha256_hex index api_key now req s).1.db
          ≡ (execute b a s.db).1)
        × ((handle_request b sha256_hex hmac_sha256_hex index api_key now req s).0
            ≡ (json_of b (execute b a s.db)).0)
  unfolding handle_request json_endpoint
  handle_request_executes index api_key now req s r a room (post, signed, free) route action =
      let v = api_verify_signature sha256_hex hmac_sha256_hex api_key now req s.cache in
      let passed =
        (api_verify_signature-IsSigned sha256_hex hmac_sha256_hex api_key now req s.cache room).1
          (signed, free) in
      let e = accepted req s.db v passed in
      let get : bytes_equal req.method (codes "GET") ≡ false =
        ap (λ m. bytes_equal m (codes "GET")) post ∙ (unfold bytes_equal in refl) in
      let is_post : bytes_equal req.method (codes "POST") ≡ true =
        rw post (bytes_equal_self (codes "POST")) in
      (
        rw (get, is_post, e, route, action) (json_of-db (execute b a s.db)),
        rw (get, is_post, e, route, action) refl,
      )
