-- ===== src/Api/Endpoint.antt =====
-- The endpoints under POST: api_handle_json_endpoint of src/a/api_server.c. What
-- an endpoint reads of the request's body, and what it then asks for.
pub mod Reads
pub mod Limits
pub mod Networks
pub mod Valid
use ntap_a.Base.{
  ℕ, ◌+◌, ◌-◌, ◌*◌, ◌≡◌, List, [], ◌∷◌, ◌++◌, Bool, true, false, not, ◌&&◌, ◌||◌, Option, none,
  some, leb, ltb, ◌==◌, if◌then◌else◌,
}
use ntap_a.Base.Words.{Bytes}
use ntap_a.Base.Texts.{codes}
use ntap_a.Base.Decimal.{show_dec}
use ntap_a.Proto.{default_mtu, min_mtu, max_mtu}
use ntap_a.Session.{default_tap_queue_limit_bytes}
use ntap_a.Hub.{default_mac_ttl_sec}
use ntap_a.Hub.Registry.{default_max_mac_per_session}
use ntap_a.Streams.{default_max_socks_streams, default_socks_idle_timeout_sec}
use ntap_a.Wire.Auth.{config_value_max}
use ntap_a.Api.Auth.{is_empty}
use ntap_a.Api.Form.{FormRc, Got, api_form_get}
use ntap_a.Api.Fields.{
  Result, gives, fails, ◌>>=◌, ◌>>◌, check, with_error, or_empty, invalid, or_fail, between,
  api_parse_i64, row_id, api_form_required, api_parse_optional_u32, api_parse_required_u32,
  api_form_bool, api_form_required_i64, api_form_required_node_pk,
}
use ntap_a.Api.Routes.{Route}
use ntap_a.Api.Action.{
  default_broadcast_limit_pps, default_session_broadcast_limit_pps, NetworkOptions, NodeFields,
  Update, Query, Action,
}

-- `char name[NTAP_CONFIG_VALUE_MAX]`
abbrev pub value_room : ℕ
value_room = config_value_max - 1

abbrev pub required : Bytes → Bytes → Result Bytes
required body name = api_form_required body name value_room

-- The text of a field that may be left out.
abbrev pub optional : Bytes → Bytes → Bytes
optional body name = let g = api_form_get body name value_room in or_empty g.rc g.text

abbrev pub required_row : Bytes → Bytes → Result ℕ
required_row body name =
    api_form_required body name 63 >>= λ text. or_fail (invalid name) (row_id text)

-- `mtu` where it may be left out; a field that is broken counts as left out.
abbrev pub mtu_of : Bytes → Result ℕ
mtu_of [] = gives default_mtu
mtu_of (c ∷ cs) = or_fail (codes "invalid mtu") (between min_mtu max_mtu (api_parse_i64 (c ∷ cs)))

abbrev pub optional_mtu : Bytes → Result ℕ
optional_mtu body = let g = api_form_get body (codes "mtu") 63 in mtu_of (or_empty g.rc g.text)

abbrev pub optional_u32 : Bytes → Bytes → Bytes → ℕ → Result ℕ
optional_u32 err body name fallback = or_fail err (api_parse_optional_u32 body name fallback)

unfoldable pub network_add : Bytes → Result Action
network_add body = do
  name ← required body (codes "name")
  mtu ← optional_mtu body
  ttl ← optional_u32 (codes "invalid network option") body (codes "mac_ttl_sec") default_mac_ttl_sec
  pps ←
      optional_u32 (codes "invalid network option") body (codes "broadcast_limit_pps")
        default_broadcast_limit_pps
  session_pps ←
      optional_u32 (codes "invalid network option") body (codes "session_broadcast_limit_pps")
        default_session_broadcast_limit_pps
  macs ←
      optional_u32 (codes "invalid network option") body (codes "max_mac_per_session")
        default_max_mac_per_session
  queue ←
      optional_u32 (codes "invalid network option") body (codes "tap_queue_limit_bytes")
        default_tap_queue_limit_bytes
  check (codes "invalid network limit") (not (macs == 0 || queue == 0))
  gives (
      Action.update (
        Update.add_network name record {
          mtu = mtu;
          mac_ttl_sec = ttl;
          broadcast_limit_pps = pps;
          session_broadcast_limit_pps = session_pps;
          max_mac_per_session = macs;
          tap_queue_limit_bytes = queue;
          allow_client_to_client = api_form_bool body (codes "allow_client_to_client");
          allow_l2_control = api_form_bool body (codes "allow_l2_control");
        }))

unfoldable pub network_edit : Bytes → Result Action
network_edit body = do
  id ← api_form_required_i64 body (codes "id")
  name ← required body (codes "name")
  mtu ← api_parse_required_u32 body (codes "mtu")
  ttl ← api_parse_required_u32 body (codes "mac_ttl_sec")
  pps ← api_parse_required_u32 body (codes "broadcast_limit_pps")
  session_pps ← api_parse_required_u32 body (codes "session_broadcast_limit_pps")
  macs ← api_parse_required_u32 body (codes "max_mac_per_session")
  queue ← api_parse_required_u32 body (codes "tap_queue_limit_bytes")
  check (codes "invalid mtu") (leb min_mtu mtu && leb mtu max_mtu)
  gives (
      Action.update (
        Update.edit_network id name record {
          mtu = mtu;
          mac_ttl_sec = ttl;
          broadcast_limit_pps = pps;
          session_broadcast_limit_pps = session_pps;
          max_mac_per_session = macs;
          tap_queue_limit_bytes = queue;
          allow_client_to_client = api_form_bool body (codes "allow_client_to_client");
          allow_l2_control = api_form_bool body (codes "allow_l2_control");
        }))

-- `direct_port`, `max_socks_streams` and `socks_idle_timeout_sec`, with one text for all errors.
abbrev pub socks_limits : Bytes → Result (ℕ × ℕ × ℕ)
socks_limits body = do
  port ← optional_u32 (codes "invalid node socks limits") body (codes "direct_port") 0
  check (codes "invalid node socks limits") (leb port 65535)
  streams ←
      optional_u32 (codes "invalid node socks limits") body (codes "max_socks_streams")
        default_max_socks_streams
  idle ←
      optional_u32 (codes "invalid node socks limits") body (codes "socks_idle_timeout_sec")
        default_socks_idle_timeout_sec
  check (codes "invalid node socks limits") (not (streams == 0 || idle == 0))
  gives (port, streams, idle)

unfoldable pub node_add : Bytes → Result Action
node_add body = do
  name ← required body (codes "name")
  node_id ← required body (codes "node_id")
  node_key ← required body (codes "node_key")
  network_id ← required_row body (codes "network_id")
  mtu ← optional_mtu body
  (port, streams, idle) ← socks_limits body
  gives (
      Action.update (
        Update.add_node record {
          name = name;
          node_id = node_id;
          node_key = node_key;
          network_id = network_id;
          tap_name = optional body (codes "tap_name");
          bridge_name = optional body (codes "bridge_name");
          mtu = mtu;
          direct_port = port;
          max_socks_streams = streams;
          socks_idle_timeout_sec = idle;
        }))

unfoldable pub node_edit : Bytes → Result Action
node_edit body = do
  id ← api_form_required_i64 body (codes "id")
  name ← required body (codes "name")
  node_id ← required body (codes "node_id")
  network_id ← api_form_required_i64 body (codes "network_id")
  mtu ← api_parse_required_u32 body (codes "mtu")
  check (codes "invalid mtu") (leb min_mtu mtu && leb mtu max_mtu)
  (port, streams, idle) ← socks_limits body
  gives (
      Action.update (
        Update.edit_node id record {
          name = name;
          node_id = node_id;
          node_key = optional body (codes "node_key");
          network_id = network_id;
          tap_name = optional body (codes "tap_name");
          bridge_name = optional body (codes "bridge_name");
          mtu = mtu;
          direct_port = port;
          max_socks_streams = streams;
          socks_idle_timeout_sec = idle;
        }))

unfoldable pub tap_user_add : Bytes → Result Action
tap_user_add body = do
  username ← required body (codes "username")
  password ← required body (codes "password")
  network_id ← required_row body (codes "network_id")
  gives (Action.update (Update.add_tap_user username password network_id))

-- 0 stands for no node.
abbrev pub node_of : Bytes → Result ℕ
node_of [] = gives 0
node_of (c ∷ cs) = or_fail (codes "invalid node_id") (row_id (c ∷ cs))

unfoldable pub socks_user_add : Bytes → Result Action
socks_user_add body = do
  username ← required body (codes "username")
  password ← required body (codes "password")
  node_pk ← (let g = api_form_get body (codes "node_id") 63 in node_of (or_empty g.rc g.text))
  gives (Action.update (Update.add_socks_user username password node_pk))

-- An empty password leaves the old one.
unfoldable pub user_edit : (ℕ → Bytes → Bytes → Update) → Bytes → Result Action
user_edit edit body = do
  id ← api_form_required_i64 body (codes "id")
  username ← required body (codes "username")
  gives (Action.update (edit id username (optional body (codes "password"))))

unfoldable pub on_row : (ℕ → Action) → Bytes → Result Action
on_row f body = do id ← api_form_required_i64 body (codes "id"); gives (f id)

unfoldable pub on_grant : (ℕ → ℕ → Update) → Bytes → Bytes → Result Action
on_grant f name body = do
  user_id ← api_form_required_i64 body (codes "user_id")
  other ← api_form_required_i64 body name
  gives (Action.update (f user_id other))

unfoldable pub service_set : Bool → Bytes → Result Action
service_set enabled body = do
  id ← api_form_required_node_pk body
  service_type ← api_form_required body (codes "type") 31
  gives (Action.update (Update.set_service_enabled id service_type enabled))

unfoldable pub direct_probe : Bytes → Result Action
direct_probe body = with_error (codes "invalid direct probe request") (do
  id ← api_form_required_node_pk body
  addr ← required body (codes "addr")
  timeout_ms ← or_fail [] (api_parse_optional_u32 body (codes "timeout_ms") 1000)
  check [] (not (timeout_ms == 0) && leb timeout_ms 10000)
  gives (Action.probe id addr timeout_ms))

-- The fields of the two requests for a direct link.
abbrev pub direct_fields : Bytes → Bytes → Result (ℕ × ℕ × ℕ)
direct_fields err body = with_error err (do
  node_pk ← api_form_required_node_pk body
  tap_user_id ← api_form_required_i64 body (codes "tap_user_id")
  ttl_sec ← or_fail [] (api_parse_optional_u32 body (codes "ttl_sec") 60)
  check [] (not (ttl_sec == 0))
  gives (node_pk, tap_user_id, ttl_sec))

unfoldable pub direct_strategy : Bytes → Result Action
direct_strategy body = do
  (node_pk, tap_user_id, ttl_sec) ← direct_fields (codes "invalid direct strategy request") body
  gives (
      Action.query
        (Query.issue_strategy node_pk tap_user_id (optional body (codes "addr")) ttl_sec))

unfoldable pub direct_token : Bytes → Result Action
direct_token body = do
  (node_pk, tap_user_id, ttl_sec) ← direct_fields (codes "invalid direct token request") body
  gives (Action.query (Query.issue_token node_pk tap_user_id ttl_sec))

unfoldable pub service_status : Bytes → Result Action
service_status body = do
  id ← api_form_required_node_pk body
  gives (Action.query (Query.get_status id))

-- What the endpoint of a path makes of the body.
unfoldable pub action_of : Route → Bytes → Result Action
action_of Route.network_add body = network_add body
action_of Route.node_add body = node_add body
action_of Route.tap_user_add body = tap_user_add body
action_of Route.socks_user_add body = socks_user_add body
action_of Route.network_edit body = network_edit body
action_of Route.node_edit body = node_edit body
action_of Route.tap_user_edit body = user_edit Update.edit_tap_user body
action_of Route.socks_user_edit body = user_edit Update.edit_socks_user body
action_of (Route.delete t) body = on_row (λ id. Action.update (Update.delete t id)) body
action_of (Route.enable t on) body = on_row (λ id. Action.update (Update.set_enabled t id on)) body
action_of (Route.tap_user_grant true) body =
    on_grant Update.grant_tap_user (codes "network_id") body
action_of (Route.tap_user_grant false) body =
    on_grant Update.revoke_tap_user (codes "network_id") body
action_of (Route.socks_user_grant true) body =
    on_grant Update.grant_socks_user (codes "node_id") body
action_of (Route.socks_user_grant false) body =
    on_grant Update.revoke_socks_user (codes "node_id") body
action_of (Route.service_set on) body = service_set on body
action_of Route.service_status body = service_status body
action_of Route.direct_probe body = direct_probe body
action_of Route.direct_strategy body = direct_strategy body
action_of Route.direct_token body = direct_token body
action_of (Route.get t) body = on_row (λ id. Action.query (Query.row t id)) body
action_of (Route.list t) body = gives (Action.query (Query.all_rows t))
action_of Route.health body = gives Action.health
