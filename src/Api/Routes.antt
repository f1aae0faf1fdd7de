-- ===== src/Api/Routes.antt =====
-- The paths that api_handle_json_endpoint of src/a/api_server.c compares the request's with.
use ntap_a.Base.{List, [], ◌∷◌, Bool, true, false, Option, none, some, if◌then◌else◌}
use ntap_a.Base.Words.{Bytes}
use ntap_a.Base.Texts.{codes, bytes_equal}

pub data Table : Type 0 where
  networks : Table
  nodes : Table
  tap_users : Table
  socks_users : Table
  sessions : Table
  socks_streams : Table

pub data Route : Type 0 where
  network_add : Route
  node_add : Route
  tap_user_add : Route
  socks_user_add : Route
  network_edit : Route
  node_edit : Route
  tap_user_edit : Route
  socks_user_edit : Route
  delete : Table → Route
  enable : Table → Bool → Route
  tap_user_grant : Bool → Route
  socks_user_grant : Bool → Route
  service_set : Bool → Route
  service_status : Route
  direct_probe : Route
  direct_strategy : Route
  direct_token : Route
  get : Table → Route
  list : Table → Route
  health : Route

-- In the order of the tests.
abbrev pub routes : List (Bytes × Route)
routes =
    (codes "/api/network/add", Route.network_add)
    ∷ (codes "/api/node/add", Route.node_add)
    ∷ (codes "/api/tap-user/add", Route.tap_user_add)
    ∷ (codes "/api/socks-user/add", Route.socks_user_add)
    ∷ (codes "/api/network/edit", Route.network_edit)
    ∷ (codes "/api/network/delete", Route.delete Table.networks)
    ∷ (codes "/api/node/edit", Route.node_edit)
    ∷ (codes "/api/node/delete", Route.delete Table.nodes)
    ∷ (codes "/api/tap-user/edit", Route.tap_user_edit)
    ∷ (codes "/api/tap-user/delete", Route.delete Table.tap_users)
    ∷ (codes "/api/tap-user/grant", Route.tap_user_grant true)
    ∷ (codes "/api/tap-user/revoke", Route.tap_user_grant false)
    ∷ (codes "/api/socks-user/edit", Route.socks_user_edit)
    ∷ (codes "/api/socks-user/delete", Route.delete Table.socks_users)
    ∷ (codes "/api/socks-user/enable", Route.enable Table.socks_users true)
    ∷ (codes "/api/socks-user/disable", Route.enable Table.socks_users false)
    ∷ (codes "/api/socks-user/grant", Route.socks_user_grant true)
    ∷ (codes "/api/socks-user/revoke", Route.socks_user_grant false)
    ∷ (codes "/api/network/enable", Route.enable Table.networks true)
    ∷ (codes "/api/network/disable", Route.enable Table.networks false)
    ∷ (codes "/api/node/enable", Route.enable Table.nodes true)
    ∷ (codes "/api/node/disable", Route.enable Table.nodes false)
    ∷ (codes "/api/tap-user/enable", Route.enable Table.tap_users true)
    ∷ (codes "/api/tap-user/disable", Route.enable Table.tap_users false)
    ∷ (codes "/api/service/start", Route.service_set true)
    ∷ (codes "/api/service/stop", Route.service_set false)
    ∷ (codes "/api/service/status", Route.service_status)
    ∷ (codes "/api/direct/probe", Route.direct_probe)
    ∷ (codes "/api/direct/strategy", Route.direct_strategy)
    ∷ (codes "/api/direct-token/issue", Route.direct_token)
    ∷ (codes "/api/network/get", Route.get Table.networks)
    ∷ (codes "/api/node/get", Route.get Table.nodes)
    ∷ (codes "/api/tap-user/get", Route.get Table.tap_users)
    ∷ (codes "/api/socks-user/get", Route.get Table.socks_users)
    ∷ (codes "/api/session/get", Route.get Table.sessions)
    ∷ (codes "/api/socks-stream/get", Route.get Table.socks_streams)
    ∷ (codes "/api/network/list", Route.list Table.networks)
    ∷ (codes "/api/node/list", Route.list Table.nodes)
    ∷ (codes "/api/tap-user/list", Route.list Table.tap_users)
    ∷ (codes "/api/socks-user/list", Route.list Table.socks_users)
    ∷ (codes "/api/session/list", Route.list Table.sessions)
    ∷ (codes "/api/socks-stream/list", Route.list Table.socks_streams)
    ∷ (codes "/api/health", Route.health)
    ∷ []

unfoldable pub route_of : Bytes → List (Bytes × Route) → Option Route
route_of path [] = none
route_of path ((p, r) ∷ rest) = if bytes_equal path p then some r else route_of path rest
