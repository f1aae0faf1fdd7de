-- ===== src/Api/Client/Rows.antt =====
-- What a client signs and sends to delete, enable or disable a row is what the database is asked for.
use ntap_a.Base.{ℕ, [], ◌++◌, Bool, true, false}
use ntap_a.Base.Words.{Bytes}
use ntap_a.Base.Texts.{codes}
use ntap_a.Base.Decimal.{show_dec}
use ntap_a.Api.{Request}
use ntap_a.Api.Form.Lookup.{form_body}
use ntap_a.Api.Routes.{Table, Route}
use ntap_a.Api.Action.{Action, Update}

pub data Kind : Type 0 where
  network node tap_user socks_user : Kind

pub data Call : Type 0 where
  delete : Call
  switch : Bool → Call

abbrev pub kind_path : Kind → Bytes
kind_path Kind.network = codes "/api/network/"
kind_path Kind.node = codes "/api/node/"
kind_path Kind.tap_user = codes "/api/tap-user/"
kind_path Kind.socks_user = codes "/api/socks-user/"

abbrev pub call_name : Call → Bytes
call_name Call.delete = codes "delete"
call_name (Call.switch true) = codes "enable"
call_name (Call.switch false) = codes "disable"

abbrev pub kind_table : Kind → Table
kind_table Kind.network = Table.networks
kind_table Kind.node = Table.nodes
kind_table Kind.tap_user = Table.tap_users
kind_table Kind.socks_user = Table.socks_users

abbrev pub row_update : Kind → Call → ℕ → Update
row_update k Call.delete n = Update.delete (kind_table k) n
row_update k (Call.switch on) n = Update.set_enabled (kind_table k) n on

-- The request of a client for the row n, at the time t by its clock.
abbrev pub row_request : Kind → Call → ℕ → ℕ → Bytes → Bytes → Bytes → Request
row_request k c n t nonce sha mac = record {
  method = codes "POST";
  path = kind_path k ++ call_name c;
  version = codes "HTTP/1.1";
  timestamp = show_dec t;
  nonce = nonce;
  body_sha256 = sha;
  sign = mac;
  body = form_body (codes "id", show_dec n) [];
}

row_route : Kind → Call → Route
row_route k Call.delete = Route.delete (kind_table k)
row_route k (Call.switch on) = Route.enable (kind_table k) on
