-- ===== src/Api/Action.antt =====
-- What the endpoints of src/a/api_server.c ask of the database (src/a/db_sqlite.c): `Update` has the
-- calls that only succeed or fail, `Query` those that make a JSON text.
use ntap_a.Base.{ℕ, Bool}
use ntap_a.Base.Words.{Bytes}
use ntap_a.Api.Routes.{Table}

abbrev pub default_broadcast_limit_pps : ℕ
default_broadcast_limit_pps = 200

abbrev pub default_session_broadcast_limit_pps : ℕ
default_session_broadcast_limit_pps = 50

-- `ntap_a_network_options_t`
pub record NetworkOptions : Type 0 where
  pub mtu : ℕ
  pub mac_ttl_sec : ℕ
  pub broadcast_limit_pps : ℕ
  pub session_broadcast_limit_pps : ℕ
  pub max_mac_per_session : ℕ
  pub tap_queue_limit_bytes : ℕ
  pub allow_client_to_client : Bool
  pub allow_l2_control : Bool

-- The arguments of ntap_a_db_add_node, and of ntap_a_db_edit_node behind the id.
pub record NodeFields : Type 0 where
  pub name : Bytes
  pub node_id : Bytes
  pub node_key : Bytes
  pub network_id : ℕ
  pub tap_name : Bytes
  pub bridge_name : Bytes
  pub mtu : ℕ
  pub direct_port : ℕ
  pub max_socks_streams : ℕ
  pub socks_idle_timeout_sec : ℕ

pub data Update : Type 0 where
  add_network : Bytes → NetworkOptions → Update
  add_node : NodeFields → Update
  add_tap_user : Bytes → Bytes → ℕ → Update
  add_socks_user : Bytes → Bytes → ℕ → Update
  edit_network : ℕ → Bytes → NetworkOptions → Update
  edit_node : ℕ → NodeFields → Update
  edit_tap_user : ℕ → Bytes → Bytes → Update
  edit_socks_user : ℕ → Bytes → Bytes → Update
  delete : Table → ℕ → Update
  set_enabled : Table → ℕ → Bool → Update
  grant_tap_user : ℕ → ℕ → Update
  revoke_tap_user : ℕ → ℕ → Update
  grant_socks_user : ℕ → ℕ → Update
  revoke_socks_user : ℕ → ℕ → Update
  set_service_enabled : ℕ → Bytes → Bool → Update
  set_direct_probe : ℕ → Bool → Bytes → Update

pub data Query : Type 0 where
  get_status : ℕ → Query
  issue_strategy : ℕ → ℕ → Bytes → ℕ → Query
  issue_token : ℕ → ℕ → ℕ → Query
  row : Table → ℕ → Query
  all_rows : Table → Query

-- What a request comes to, once its fields are read.
pub data Action : Type 0 where
  update : Update → Action
  query : Query → Action
  probe : ℕ → Bytes → ℕ → Action
  health : Action
