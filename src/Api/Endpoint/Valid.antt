-- ===== src/Api/Endpoint/Valid.antt =====
-- What every action keeps to that an endpoint asks for.
use ntap_a.Base.{ℕ, refl, [], ◌∷◌, Bool, true, false, not, ◌&&◌, arith, leb, ◌==◌}
use ntap_a.Base.Words.{Bytes}
use ntap_a.Base.Texts.{codes}
use ntap_a.Api.Form.{api_form_get}
use ntap_a.Api.Fields.{gives, number_max, api_form_required, or_empty}
use ntap_a.Api.Routes.{Route}
use ntap_a.Api.Action.{Update, Query, Action}
use ntap_a.Api.Endpoint.{
  value_room, optional, tap_user_add, node_of, socks_user_add, user_edit, on_row, on_grant,
  service_set, direct_probe, direct_fields, direct_strategy, direct_token, service_status,
  action_of,
}
use ntap_a.Api.Endpoint.Reads.{
  Gives, Gives->>=, Gives-check, Gives-with_error, IsBetween, IsRow, IsNumber, IsGiven, Fits,
  api_form_required-IsGiven, optional-Fits, or_fail-IsRow, required_i64-IsRow, node_pk-IsRow,
  optional_u32-IsNumber,
}
use ntap_a.Api.Endpoint.Limits.{IsName, IsNodePk, node_text, IsValidUpdate, IsValid}
use ntap_a.Api.Endpoint.Networks.{
  required-IsName, network_add-IsValid, network_edit-IsValid, node_add-IsValid, node_edit-IsValid,
}

tap_user_add-IsValid : (body : Bytes) → Gives (IsValid body) (tap_user_add body)
unfolding tap_user_add
tap_user_add-IsValid body =
    Gives->>= IsName (IsValid body) _ _ (required-IsName body (codes "username")) λ u hu.
      Gives->>= IsName (IsValid body) _ _ (required-IsName body (codes "password")) λ p hp.
        Gives->>= IsRow (IsValid body) _ _
          (or_fail-IsRow _ (api_form_required body (codes "network_id") 63)) λ n hn. (hu, hp, hn)

node_of-IsNodePk : (text : Bytes) → Gives (IsNodePk text) (node_of text)
node_of-IsNodePk [] = refl
node_of-IsNodePk (c ∷ cs) = or_fail-IsRow (codes "invalid node_id") (gives (c ∷ cs))

socks_user_add-IsValid : (body : Bytes) → Gives (IsValid body) (socks_user_add body)
unfolding socks_user_add
socks_user_add-IsValid body =
    let g = api_form_get body (codes "node_id") 63 in
    Gives->>= IsName (IsValid body) _ _ (required-IsName body (codes "username")) λ u hu.
      Gives->>= IsName (IsValid body) _ _ (required-IsName body (codes "password")) λ p hp.
        Gives->>= (IsNodePk (node_text body)) (IsValid body) _ _
          (node_of-IsNodePk (or_empty g.rc g.text)) λ n hn. (hu, hp, hn)

user_edit-IsValid :
    (edit : ℕ → Bytes → Bytes → Update) (body : Bytes)
    → ((id : ℕ) (u p : Bytes)
        → IsRow id
        → IsName u
        → Fits value_room p
        → IsValidUpdate body (edit id u p))
    → Gives (IsValid body) (user_edit edit body)
unfolding user_edit
user_edit-IsValid edit body k =
    Gives->>= IsRow (IsValid body) _ _ (required_i64-IsRow body (codes "id")) λ id i.
      Gives->>= IsName (IsValid body) _ _ (required-IsName body (codes "username")) λ u hu.
        k id u (optional body (codes "password")) i hu (optional-Fits body (codes "password"))

on_row-IsValid :
    (f : ℕ → Action) (body : Bytes)
    → ((id : ℕ) → IsRow id → (IsValid body) (f id))
    → Gives (IsValid body) (on_row f body)
unfolding on_row
on_row-IsValid f body k =
    Gives->>= IsRow (IsValid body) _ _ (required_i64-IsRow body (codes "id")) k

on_grant-IsValid :
    (f : ℕ → ℕ → Update) (name body : Bytes)
    → ((u n : ℕ) → IsRow u → IsRow n → IsValidUpdate body (f u n))
    → Gives (IsValid body) (on_grant f name body)
unfolding on_grant
on_grant-IsValid f name body k =
    Gives->>= IsRow (IsValid body) _ _ (required_i64-IsRow body (codes "user_id"))
      λ u hu. Gives->>= IsRow (IsValid body) _ _ (required_i64-IsRow body name) λ n hn. k u n hu hn

service_set-IsValid : (on : Bool) (body : Bytes) → Gives (IsValid body) (service_set on body)
unfolding service_set
service_set-IsValid on body = Gives->>= IsRow (IsValid body) _ _ (node_pk-IsRow body) λ id i.
    Gives->>= (IsGiven 31) (IsValid body) _ _ (api_form_required-IsGiven body (codes "type") 31)
      λ s h. (i, h)

direct_probe-IsValid : (body : Bytes) → Gives (IsValid body) (direct_probe body)
unfolding direct_probe
direct_probe-IsValid body =
    Gives-with_error (IsValid body) (codes "invalid direct probe request") _ (
      Gives->>= IsRow (IsValid body) _ _ (node_pk-IsRow body) λ id i.
        Gives->>= IsName (IsValid body) _ _ (required-IsName body (codes "addr")) λ addr a.
          Gives->>= IsNumber (IsValid body) _ _
            (optional_u32-IsNumber [] body (codes "timeout_ms") 1000 (omega arith))
            λ timeout t.
              Gives-check (IsValid body) [] (not (timeout == 0) && leb timeout 10000) _
                λ near. (i, a, (ground (arith, near), ground (arith, near))))

abbrev AreDirect : ℕ × ℕ × ℕ → Type 0
AreDirect (n, u, ttl) = IsRow n × IsRow u × IsBetween 1 number_max ttl

direct_fields-AreDirect : (e body : Bytes) → Gives AreDirect (direct_fields e body)
direct_fields-AreDirect e body = Gives-with_error AreDirect e _ (
    Gives->>= IsRow AreDirect _ _ (node_pk-IsRow body) λ n hn.
      Gives->>= IsRow AreDirect _ _ (required_i64-IsRow body (codes "tap_user_id")) λ u hu.
        Gives->>= IsNumber AreDirect _ _
          (optional_u32-IsNumber [] body (codes "ttl_sec") 60 (omega arith))
          λ ttl t.
            Gives-check AreDirect [] (not (ttl == 0)) _
              λ some'. (hn, hu, (ground (arith, some'), t.1)))

direct_strategy-IsValid : (body : Bytes) → Gives (IsValid body) (direct_strategy body)
unfolding direct_strategy
direct_strategy-IsValid body =
    Gives->>= AreDirect (IsValid body) _ _
      (direct_fields-AreDirect (codes "invalid direct strategy request") body)
      λ (n, u, ttl) (hn, hu, ht). (hn, hu, optional-Fits body (codes "addr"), ht)

direct_token-IsValid : (body : Bytes) → Gives (IsValid body) (direct_token body)
unfolding direct_token
direct_token-IsValid body =
    Gives->>= AreDirect (IsValid body) _ _
      (direct_fields-AreDirect (codes "invalid direct token request") body) λ (n, u, ttl) h. h

service_status-IsValid : (body : Bytes) → Gives (IsValid body) (service_status body)
unfolding service_status
service_status-IsValid body = Gives->>= IsRow (IsValid body) _ _ (node_pk-IsRow body) λ id i. i

-- Whatever the body, an endpoint asks only for actions in the limits: ids from 1 to the largest
-- int64_t, but for the node of a new SOCKS user, which is 0 exactly where `api_form_get` reads no text for it;
-- an MTU that frames may have, ports of 16 bits, times and limits up to 1000000 (and above 0 where a new
-- network or a node needs it), texts within their arrays and not empty where they are required.
pub action_of-IsValid : (r : Route) (body : Bytes) → Gives (IsValid body) (action_of r body)
unfolding action_of
action_of-IsValid Route.network_add body = network_add-IsValid body
action_of-IsValid Route.node_add body = node_add-IsValid body
action_of-IsValid Route.tap_user_add body = tap_user_add-IsValid body
action_of-IsValid Route.socks_user_add body = socks_user_add-IsValid body
action_of-IsValid Route.network_edit body = network_edit-IsValid body
action_of-IsValid Route.node_edit body = node_edit-IsValid body
action_of-IsValid Route.tap_user_edit body =
    user_edit-IsValid Update.edit_tap_user body λ id u p i hu hp. (i, hu, hp)
action_of-IsValid Route.socks_user_edit body =
    user_edit-IsValid Update.edit_socks_user body λ id u p i hu hp. (i, hu, hp)
action_of-IsValid (Route.delete t) body =
    on_row-IsValid (λ id. Action.update (Update.delete t id)) body λ id h. h
action_of-IsValid (Route.enable t on) body =
    on_row-IsValid (λ id. Action.update (Update.set_enabled t id on)) body λ id h. h
action_of-IsValid (Route.tap_user_grant true) body =
    on_grant-IsValid Update.grant_tap_user (codes "network_id") body λ u n hu hn. (hu, hn)
action_of-IsValid (Route.tap_user_grant false) body =
    on_grant-IsValid Update.revoke_tap_user (codes "network_id") body λ u n hu hn. (hu, hn)
action_of-IsValid (Route.socks_user_grant true) body =
    on_grant-IsValid Update.grant_socks_user (codes "node_id") body λ u n hu hn. (hu, hn)
action_of-IsValid (Route.socks_user_grant false) body =
    on_grant-IsValid Update.revoke_socks_user (codes "node_id") body λ u n hu hn. (hu, hn)
action_of-IsValid (Route.service_set on) body = service_set-IsValid on body
action_of-IsValid Route.service_status body = service_status-IsValid body
action_of-IsValid Route.direct_probe body = direct_probe-IsValid body
action_of-IsValid Route.direct_strategy body = direct_strategy-IsValid body
action_of-IsValid Route.direct_token body = direct_token-IsValid body
action_of-IsValid (Route.get t) body =
    on_row-IsValid (λ id. Action.query (Query.row t id)) body λ id h. h
action_of-IsValid (Route.list t) body = tt
action_of-IsValid Route.health body = tt
