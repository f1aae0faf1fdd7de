-- ===== src/Wire/Config/Bounds.antt =====
-- What a node or a client accepts as a configuration.
use ntap_a.Base.{
  ◌≤◌, ◌<◌, ◌≡◌, ◌≢◌, some, not, ◌||◌, arith, length, drop, Ensures, Ensures->>=, Ensures-guard,
  Ensures-elim, ◌==◌, leb, ltb, refl, Bool-cases, inl, inr,
}
use ntap_a.Base.Words.{Bytes}
use ntap_a.Proto.{min_mtu, max_mtu}
use ntap_a.Wire.{read_string}
use ntap_a.Wire.Text.{read_string_bounds}
use ntap_a.Wire.Config.{
  ConfigPush, decode_config_push, decode_direct, decode_link, link_fields, tap_name_max,
  bridge_name_max, direct_mode_max, direct_addr_max, direct_token_text_max,
}

pub record IsUsable (m : ConfigPush) : Type 0 where
  pub network : m.network_id ≢ 0
  pub mtu_low : min_mtu ≤ m.mtu
  pub mtu_high : m.mtu ≤ max_mtu
  pub tap_name : length m.tap_name < tap_name_max
  pub bridge_name : length m.bridge_name < bridge_name_max
  pub direct_mode : length m.direct_mode < direct_mode_max
  pub direct_addr : length m.direct_addr < direct_addr_max
  pub direct_token : length m.direct_token < direct_token_text_max

decode_direct-Ensures :
    (m : ConfigPush) (rest : Bytes) → IsUsable m → Ensures IsUsable (decode_direct m rest)
unfolding decode_direct
decode_direct-Ensures m rest u = Ensures->>= _ (read_string direct_mode_max rest) _ λ p r.
    Ensures->>= _ (read_string direct_addr_max p.1) _ λ q s.
      Ensures->>= _ (read_string direct_token_text_max q.1) _ λ t w.
        Ensures-guard _ (length t.1 == 0) _ λ n.
          let (mode, _) = read_string_bounds direct_mode_max rest p.0 p.1 r in
          let (addr, _) = read_string_bounds direct_addr_max p.1 q.0 q.1 s in
          let (token, _) = read_string_bounds direct_token_text_max q.1 t.0 t.1 w in
          record {
            network = u.network;
            mtu_low = u.mtu_low;
            mtu_high = u.mtu_high;
            tap_name = u.tap_name;
            bridge_name = u.bridge_name;
            direct_mode = mode;
            direct_addr = addr;
            direct_token = token;
          }

decode_link-Ensures :
    (m : ConfigPush) (rest : Bytes)
    → length m.tap_name < tap_name_max
    → length m.bridge_name < bridge_name_max
    → length m.direct_mode ≡ 0
    → length m.direct_addr ≡ 0
    → length m.direct_token ≡ 0
    → Ensures IsUsable (decode_link m rest)
unfolding decode_link
decode_link-Ensures m rest t b x y z =
    Ensures-guard IsUsable (not (m.network_id == 0 || ltb m.mtu min_mtu || ltb max_mtu m.mtu)) _
      λ g.
        let u : IsUsable m = ground arith in
        elim (Bool-cases (length rest == 8)) [
          | inl e ↦ rw e u
          | inr e ↦ rw e (decode_direct-Ensures m (drop 8 rest) u)
        ]

decode_config_push-Ensures : (payload : Bytes) → Ensures IsUsable (decode_config_push payload)
unfolding decode_config_push link_fields
decode_config_push-Ensures payload = Ensures-guard _ (leb 19 (length payload)) _ λ h.
    Ensures->>= _ (read_string tap_name_max (drop 11 payload)) _ λ p r.
      Ensures->>= _ (read_string bridge_name_max p.1) _ λ q s.
        Ensures-guard _ (leb 8 (length q.1)) _ λ n.
          let (tap, _) = read_string_bounds tap_name_max (drop 11 payload) p.0 p.1 r in
          let (bridge, _) = read_string_bounds bridge_name_max p.1 q.0 q.1 s in
          decode_link-Ensures (link_fields payload p.0 q.0 q.1) q.1 tap bridge refl refl refl

-- An accepted configuration names a network, has an MTU from 576 to 1500, and each of its five
-- texts has room for its NUL.
pub decode_config_push-IsUsable :
    (payload : Bytes) (m : ConfigPush) → decode_config_push payload ≡ some m → IsUsable m
decode_config_push-IsUsable payload m e =
    Ensures-elim IsUsable _ (decode_config_push-Ensures payload) e
