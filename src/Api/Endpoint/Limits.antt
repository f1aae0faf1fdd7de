-- ===== src/Api/Endpoint/Limits.antt =====
-- What an action has to keep to, so that the database and the sessions get what they rely on.
use ntap_a.Base.{ℕ, ◌^◌, ◌<◌, ◌≡◌, [], ◌∷◌}
use ntap_a.Base.Words.{Bytes}
use ntap_a.Base.Texts.{codes}
use ntap_a.Api.Form.{api_form_get}
use ntap_a.Api.Fields.{number_max, or_empty}
use ntap_a.Api.Action.{NetworkOptions, NodeFields, Update, Query, Action}
use ntap_a.Api.Endpoint.{value_room}
use ntap_a.Api.Endpoint.Reads.{IsBetween, IsRow, IsNumber, IsMtu, IsGiven, Fits}

-- A name, a password or an address: not empty, and within its array.
abbrev pub IsName : Bytes → Type 0
IsName = IsGiven value_room

pub record IsOptions (o : NetworkOptions) : Type 0 where
  pub mtu : IsMtu o.mtu
  pub mac_ttl_sec : IsNumber o.mac_ttl_sec
  pub broadcast_limit_pps : IsNumber o.broadcast_limit_pps
  pub session_broadcast_limit_pps : IsNumber o.session_broadcast_limit_pps
  pub max_mac_per_session : IsNumber o.max_mac_per_session
  pub tap_queue_limit_bytes : IsNumber o.tap_queue_limit_bytes

pub record IsNode (f : NodeFields) : Type 0 where
  pub name : IsName f.name
  pub node_id : IsName f.node_id
  pub network_id : IsRow f.network_id
  pub tap_name : Fits value_room f.tap_name
  pub bridge_name : Fits value_room f.bridge_name
  pub mtu : IsMtu f.mtu
  pub direct_port : f.direct_port < 2 ^ 16
  pub max_socks_streams : IsBetween 1 number_max f.max_socks_streams
  pub socks_idle_timeout_sec : IsBetween 1 number_max f.socks_idle_timeout_sec

-- The text that a body gives for the node of a new SOCKS user, or none.
abbrev pub node_text : Bytes → Bytes
node_text body = let g = api_form_get body (codes "node_id") 63 in or_empty g.rc g.text

-- No node where there is no text, and otherwise the row of one.
abbrev pub IsNodePk : Bytes → ℕ → Type 0
IsNodePk [] n = n ≡ 0
IsNodePk (c ∷ cs) n = IsRow n

abbrev pub IsValidUpdate : Bytes → Update → Type 0
IsValidUpdate body (Update.add_network name o) =
    IsName name × IsOptions o × (0 < o.max_mac_per_session) × (0 < o.tap_queue_limit_bytes)
IsValidUpdate body (Update.add_node f) = IsNode f × IsName f.node_key
IsValidUpdate body (Update.add_tap_user u p n) = IsName u × IsName p × IsRow n
IsValidUpdate body (Update.add_socks_user u p n) = IsName u × IsName p × IsNodePk (node_text body) n
IsValidUpdate body (Update.edit_network id name o) = IsRow id × IsName name × IsOptions o
IsValidUpdate body (Update.edit_node id f) = IsRow id × IsNode f × Fits value_room f.node_key
IsValidUpdate body (Update.edit_tap_user id u p) = IsRow id × IsName u × Fits value_room p
IsValidUpdate body (Update.edit_socks_user id u p) = IsRow id × IsName u × Fits value_room p
IsValidUpdate body (Update.delete t id) = IsRow id
IsValidUpdate body (Update.set_enabled t id on) = IsRow id
IsValidUpdate body (Update.grant_tap_user u n) = IsRow u × IsRow n
IsValidUpdate body (Update.revoke_tap_user u n) = IsRow u × IsRow n
IsValidUpdate body (Update.grant_socks_user u n) = IsRow u × IsRow n
IsValidUpdate body (Update.revoke_socks_user u n) = IsRow u × IsRow n
IsValidUpdate body (Update.set_service_enabled id s on) = IsRow id × IsGiven 31 s
IsValidUpdate body (Update.set_direct_probe id ok addr) = IsRow id × IsName addr

abbrev pub IsValidQuery : Query → Type 0
IsValidQuery (Query.get_status id) = IsRow id
IsValidQuery (Query.issue_strategy n u addr ttl) =
    IsRow n × IsRow u × Fits value_room addr × IsBetween 1 number_max ttl
IsValidQuery (Query.issue_token n u ttl) = IsRow n × IsRow u × IsBetween 1 number_max ttl
IsValidQuery (Query.row t id) = IsRow id
IsValidQuery (Query.all_rows t) = Unit

-- The limits of an action that a body asks for: ids above 0, numbers in the range of their types and of
-- the code's limits, texts within their arrays.
abbrev pub IsValid : Bytes → Action → Type 0
IsValid body (Action.update u) = IsValidUpdate body u
IsValid body (Action.query q) = IsValidQuery q
IsValid body (Action.probe id addr timeout) = IsRow id × IsName addr × IsBetween 1 10000 timeout
IsValid body Action.health = Unit
