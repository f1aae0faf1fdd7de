-- ===== src/Api/Endpoint/Networks.antt =====
-- The actions of the endpoints that add and edit networks and nodes.
use ntap_a.Base.{ℕ, ◌^◌, ◌<◌, ◌≡◌, true, not, ◌&&◌, ◌||◌, arith, leb, ◌==◌}
use ntap_a.Base.Words.{Bytes}
use ntap_a.Base.Texts.{codes}
use ntap_a.Proto.{min_mtu, max_mtu}
use ntap_a.Session.{default_tap_queue_limit_bytes}
use ntap_a.Hub.{default_mac_ttl_sec}
use ntap_a.Hub.Registry.{default_max_mac_per_session}
use ntap_a.Streams.{default_max_socks_streams, default_socks_idle_timeout_sec}
use ntap_a.Api.Fields.{number_max, api_form_required}
use ntap_a.Api.Action.{default_broadcast_limit_pps, default_session_broadcast_limit_pps}
use ntap_a.Api.Endpoint.{
  value_room, required, optional_u32, network_add, network_edit, socks_limits, node_add, node_edit,
}
use ntap_a.Api.Endpoint.Reads.{
  Gives, Gives->>=, Gives-check, IsBetween, IsRow, IsNumber, IsMtu, api_form_required-IsGiven,
  optional-Fits, or_fail-IsRow, required_i64-IsRow, required_u32-IsNumber, optional_u32-IsNumber,
  optional_mtu-IsMtu,
}
use ntap_a.Api.Endpoint.Limits.{IsName, IsValid}

pub required-IsName : (body name : Bytes) → Gives IsName (required body name)
required-IsName body name = api_form_required-IsGiven body name value_room

option-IsNumber :
    (body name : Bytes) (fallback : ℕ)
    → IsNumber fallback
    → Gives IsNumber (optional_u32 (codes "invalid network option") body name fallback)
option-IsNumber body name fallback h =
    optional_u32-IsNumber (codes "invalid network option") body name fallback h

both-given : (a b : ℕ) → not (a == 0 || b == 0) ≡ true → (0 < a) × (0 < b)
both-given a b h = (ground (arith, h), ground (arith, h))

pub network_add-IsValid : (body : Bytes) → Gives (IsValid body) (network_add body)
unfolding network_add
network_add-IsValid body =
    Gives->>= IsName (IsValid body) _ _ (required-IsName body (codes "name")) λ name n.
      Gives->>= IsMtu (IsValid body) _ _ (optional_mtu-IsMtu body) λ mtu m.
        Gives->>= IsNumber (IsValid body) _ _
          (option-IsNumber body (codes "mac_ttl_sec") default_mac_ttl_sec (omega arith))
          λ ttl t.
            Gives->>= IsNumber (IsValid body) _ _
              (option-IsNumber body (codes "broadcast_limit_pps") default_broadcast_limit_pps
                (omega arith))
              λ pps b.
                Gives->>= IsNumber (IsValid body) _ _
                  (option-IsNumber body (codes "session_broadcast_limit_pps")
                    default_session_broadcast_limit_pps (omega arith))
                  λ session_pps sb.
                    Gives->>= IsNumber (IsValid body) _ _
                      (option-IsNumber body (codes "max_mac_per_session")
                        default_max_mac_per_session (omega arith))
                      λ macs mm.
                        Gives->>= IsNumber (IsValid body) _ _
                          (option-IsNumber body (codes "tap_queue_limit_bytes")
                            default_tap_queue_limit_bytes (omega arith))
                          λ queue q.
                            Gives-check (IsValid body) (codes "invalid network limit")
                              (not (macs == 0 || queue == 0)) _
                              λ some'. (
                                n,
                                record {
                                  mtu = m;
                                  mac_ttl_sec = t;
                                  broadcast_limit_pps = b;
                                  session_broadcast_limit_pps = sb;
                                  max_mac_per_session = mm;
                                  tap_queue_limit_bytes = q;
                                },
                                (both-given macs queue some').0,
                                (both-given macs queue some').1,
                              )

pub network_edit-IsValid : (body : Bytes) → Gives (IsValid body) (network_edit body)
unfolding network_edit
network_edit-IsValid body =
    Gives->>= IsRow (IsValid body) _ _ (required_i64-IsRow body (codes "id")) λ id i.
      Gives->>= IsName (IsValid body) _ _ (required-IsName body (codes "name")) λ name n.
        Gives->>= IsNumber (IsValid body) _ _ (required_u32-IsNumber body (codes "mtu")) λ mtu m.
          Gives->>= IsNumber (IsValid body) _ _ (required_u32-IsNumber body (codes "mac_ttl_sec"))
            λ ttl t.
              Gives->>= IsNumber (IsValid body) _ _
                (required_u32-IsNumber body (codes "broadcast_limit_pps"))
                λ pps b.
                  Gives->>= IsNumber (IsValid body) _ _
                    (required_u32-IsNumber body (codes "session_broadcast_limit_pps"))
                    λ session_pps sb.
                      Gives->>= IsNumber (IsValid body) _ _
                        (required_u32-IsNumber body (codes "max_mac_per_session"))
                        λ macs mm.
                          Gives->>= IsNumber (IsValid body) _ _
                            (required_u32-IsNumber body (codes "tap_queue_limit_bytes"))
                            λ queue q.
                              Gives-check (IsValid body) (codes "invalid mtu")
                                (leb min_mtu mtu && leb mtu max_mtu) _
                                λ near. (
                                  i,
                                  n,
                                  record {
                                    mtu = (ground (arith, near), ground (arith, near));
                                    mac_ttl_sec = t;
                                    broadcast_limit_pps = b;
                                    session_broadcast_limit_pps = sb;
                                    max_mac_per_session = mm;
                                    tap_queue_limit_bytes = q;
                                  },
                                )

-- What `socks_limits` reads.
abbrev AreLimits : ℕ × ℕ × ℕ → Type 0
AreLimits (port, streams, idle) =
    (port < 2 ^ 16) × IsBetween 1 number_max streams × IsBetween 1 number_max idle

socks_limits-AreLimits : (body : Bytes) → Gives AreLimits (socks_limits body)
socks_limits-AreLimits body =
    let e = codes "invalid node socks limits" in
    Gives->>= IsNumber AreLimits _ _
      (optional_u32-IsNumber e body (codes "direct_port") 0 (omega arith))
      λ port p. Gives-check AreLimits e (leb port 65535) _ λ small.
        Gives->>= IsNumber AreLimits _ _
          (optional_u32-IsNumber e body (codes "max_socks_streams") default_max_socks_streams
            (omega arith))
          λ streams s.
            Gives->>= IsNumber AreLimits _ _
              (optional_u32-IsNumber e body (codes "socks_idle_timeout_sec")
                default_socks_idle_timeout_sec (omega arith))
              λ idle i. Gives-check AreLimits e (not (streams == 0 || idle == 0)) _ λ some'.
                let (s', i') = both-given streams idle some' in
                (ground (arith, small), (s', s.1), (i', i.1))

pub node_add-IsValid : (body : Bytes) → Gives (IsValid body) (node_add body)
unfolding node_add
node_add-IsValid body =
    Gives->>= IsName (IsValid body) _ _ (required-IsName body (codes "name")) λ name n.
      Gives->>= IsName (IsValid body) _ _ (required-IsName body (codes "node_id")) λ node_id ni.
        Gives->>= IsName (IsValid body) _ _ (required-IsName body (codes "node_key")) λ node_key nk.
          Gives->>= IsRow (IsValid body) _ _
            (or_fail-IsRow _ (api_form_required body (codes "network_id") 63))
            λ network_id w. Gives->>= IsMtu (IsValid body) _ _ (optional_mtu-IsMtu body) λ mtu m.
              Gives->>= AreLimits (IsValid body) _ _ (socks_limits-AreLimits body)
                λ (port, streams, idle) (p, s, i). (
                  record {
                    name = n;
                    node_id = ni;
                    network_id = w;
                    tap_name = optional-Fits body (codes "tap_name");
                    bridge_name = optional-Fits body (codes "bridge_name");
                    mtu = m;
                    direct_port = p;
                    max_socks_streams = s;
                    socks_idle_timeout_sec = i;
                  },
                  nk,
                )

pub node_edit-IsValid : (body : Bytes) → Gives (IsValid body) (node_edit body)
unfolding node_edit
node_edit-IsValid body =
    Gives->>= IsRow (IsValid body) _ _ (required_i64-IsRow body (codes "id")) λ id r.
      Gives->>= IsName (IsValid body) _ _ (required-IsName body (codes "name")) λ name n.
        Gives->>= IsName (IsValid body) _ _ (required-IsName body (codes "node_id")) λ node_id ni.
          Gives->>= IsRow (IsValid body) _ _ (required_i64-IsRow body (codes "network_id"))
            λ network_id w.
              Gives->>= IsNumber (IsValid body) _ _ (required_u32-IsNumber body (codes "mtu"))
                λ mtu m.
                  Gives-check (IsValid body) (codes "invalid mtu")
                    (leb min_mtu mtu && leb mtu max_mtu) _
                    λ near.
                      Gives->>= AreLimits (IsValid body) _ _ (socks_limits-AreLimits body)
                        λ (port, streams, idle) (p, s, i). (
                          r,
                          record {
                            name = n;
                            node_id = ni;
                            network_id = w;
                            tap_name = optional-Fits body (codes "tap_name");
                            bridge_name = optional-Fits body (codes "bridge_name");
                            mtu = (ground (arith, near), ground (arith, near));
                            direct_port = p;
                            max_socks_streams = s;
                            socks_idle_timeout_sec = i;
                          },
                          optional-Fits body (codes "node_key"),
                        )
