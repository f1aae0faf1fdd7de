-- ===== src/Wire/Config/RoundTrip.antt =====
-- What the server pushes is what a node or a client reads.
use ntap_a.Base.{
  ℕ, ◌+◌, ◌≤◌, ◌<◌, ◌≡◌, ◌≢◌, refl, [], ◌∷◌, ◌++◌, Bool, some, arith, length, length-append, ◌>>=◌,
  le→leb, ◌∙◌,
}
use ntap_a.Base.Words.{Bytes, IsByte, IsU16, IsU32, put_be16, put_be32, get_be16, get_be32}
use ntap_a.Buffer.{size_max}
use ntap_a.Buffer.Writes.{Granted, Pending-init, append-then}
use ntap_a.Proto.{min_mtu, max_mtu}
use ntap_a.Wire.{c_string, strlen}
use ntap_a.Wire.Text.{field, append_string-then, read_string-field, emit-eq}
use ntap_a.Wire.Config.{
  ConfigPush, encode_config_push, decode_config_push, decode_direct, decode_link, link_fields,
  tap_name_max, bridge_name_max, direct_mode_max, direct_addr_max, direct_token_text_max,
}

pub record PushFits (m : ConfigPush) : Type 0 where
  pub config_version : IsU32 m.config_version
  pub network_id : IsU32 m.network_id
  pub network_set : m.network_id ≢ 0
  pub tap_enabled : IsByte m.tap_enabled
  pub socks_enabled : IsByte m.socks_enabled
  pub direct_enabled : IsByte m.direct_enabled
  pub tap_name : strlen m.tap_name < tap_name_max
  pub bridge_name : strlen m.bridge_name < bridge_name_max
  pub mtu_low : min_mtu ≤ m.mtu
  pub mtu_high : m.mtu ≤ max_mtu
  pub direct_port : IsU16 m.direct_port
  pub flags : IsU32 m.flags
  pub direct_mode : strlen m.direct_mode < direct_mode_max
  pub direct_addr : strlen m.direct_addr < direct_addr_max
  pub direct_token : strlen m.direct_token < direct_token_text_max

abbrev direct_part : ConfigPush → Bytes
direct_part m = field m.direct_mode ++ (field m.direct_addr ++ (field m.direct_token ++ []))

abbrev link_part : ConfigPush → Bytes
link_part m = put_be16 m.mtu ++ (put_be16 m.direct_port ++ (put_be32 m.flags ++ direct_part m))

abbrev name_part : ConfigPush → Bytes
name_part m = field m.tap_name ++ (field m.bridge_name ++ link_part m)

abbrev push_bytes : ConfigPush → Bytes
push_bytes m =
    put_be32 m.config_version
    ++ (put_be32 m.network_id ++ (m.tap_enabled ∷ m.socks_enabled ∷ m.direct_enabled ∷ name_part m))

abbrev pub push_size : ConfigPush → ℕ
push_size m =
    29
    + strlen m.tap_name
    + strlen m.bridge_name
    + strlen m.direct_mode
    + strlen m.direct_addr
    + strlen m.direct_token

module _ (alloc : ℕ → Bool) (cap : ℕ) (granted : Granted alloc) (small : cap ≤ size_max) where
  encode_config_push-eq :
      (m : ConfigPush)
      → PushFits m
      → push_size m ≤ cap
      → encode_config_push alloc cap m ≡ some (push_bytes m)
  unfolding encode_config_push
  encode_config_push-eq m f h =
      append-then granted small' (put_be32 m.config_version) _ (Pending-init total) λ b p.
        append-then granted small' (put_be32 m.network_id) _ p λ b p.
          append-then granted small' (m.tap_enabled ∷ []) _ p λ b p.
            append-then granted small' (m.socks_enabled ∷ []) _ p λ b p.
              append-then granted small' (m.direct_enabled ∷ []) (name_part m) p λ b p.
                append_string-then granted small' m.tap_name (field m.bridge_name ++ link_part m)
                  (omega arith) p
                  λ b p.
                    append_string-then granted small' m.bridge_name (link_part m) (omega arith) p
                      λ b p. append-then granted small' (put_be16 m.mtu) _ p λ b p.
                        append-then granted small' (put_be16 m.direct_port) _ p λ b p.
                          append-then granted small' (put_be32 m.flags) (direct_part m) p λ b p.
                            append_string-then granted small' m.direct_mode
                              (field m.direct_addr ++ (field m.direct_token ++ [])) (omega arith) p
                              λ b p.
                                append_string-then granted small' m.direct_addr
                                  (field m.direct_token ++ []) (omega arith) p
                                  λ b p.
                                    append_string-then granted small' m.direct_token []
                                      (omega arith) p λ b p. emit-eq granted small' cap b fits p
    where
      total : Bytes
      total = push_bytes m

      fits : length total ≤ cap
      fits = omega (
        arith,
        length-append (c_string m.tap_name) (field m.bridge_name ++ link_part m),
        length-append (c_string m.bridge_name) (link_part m),
        length-append (c_string m.direct_mode)
            (field m.direct_addr ++ (field m.direct_token ++ [])),
        length-append (c_string m.direct_addr) (field m.direct_token ++ []),
        length-append (c_string m.direct_token) [],
      )

      small' : length total ≤ size_max
      small' = omega (arith, fits)

  decode_direct-eq :
      (m n : ConfigPush)
      → PushFits m
      → decode_direct n (direct_part m)
        ≡ some (record n {
          direct_mode = c_string m.direct_mode;
          direct_addr = c_string m.direct_addr;
          direct_token = c_string m.direct_token;
        })
  unfolding decode_direct
  decode_direct-eq m n f =
      rw
        (read_string-field direct_mode_max m.direct_mode
          (field m.direct_addr ++ (field m.direct_token ++ [])) f.direct_mode (omega arith))
        (rw
          (read_string-field direct_addr_max m.direct_addr (field m.direct_token ++ [])
            f.direct_addr (omega arith))
          (rw
            (read_string-field direct_token_text_max m.direct_token [] f.direct_token (omega arith))
            refl))

  link_fields-eq :
      (m : ConfigPush)
      → PushFits m
      → link_fields (push_bytes m) (c_string m.tap_name) (c_string m.bridge_name) (link_part m)
        ≡ record m {
          tap_name = c_string m.tap_name;
          bridge_name = c_string m.bridge_name;
          direct_mode = [];
          direct_addr = [];
          direct_token = [];
        }
  unfolding link_fields get_be32 get_be16
  link_fields-eq m f = ground arith

  decode_link-eq :
      (m n : ConfigPush)
      → PushFits m
      → n.network_id ≡ m.network_id
      → n.mtu ≡ m.mtu
      → decode_link n (link_part m) ≡ decode_direct n (direct_part m)
  unfolding decode_link
  decode_link-eq m n f e g = ground arith

  -- Where memory is granted, a pushed configuration is read back field by field, the five texts cut at
  -- their NULs, if its network id is not 0, its MTU is from 576 to 1500, its other numbers fit into their
  -- fields, each text is shorter than its array, and the whole fits into the buffer.
  pub decode_config_push-encode_config_push :
      (m : ConfigPush)
      → PushFits m
      → push_size m ≤ cap
      → (encode_config_push alloc cap m >>= decode_config_push)
        ≡ some (record m {
          tap_name = c_string m.tap_name;
          bridge_name = c_string m.bridge_name;
          direct_mode = c_string m.direct_mode;
          direct_addr = c_string m.direct_addr;
          direct_token = c_string m.direct_token;
        })
  unfolding decode_config_push
  decode_config_push-encode_config_push m f h = rw (encode_config_push-eq m f h) (
      rw
        (read_string-field tap_name_max m.tap_name (field m.bridge_name ++ link_part m) f.tap_name
          (omega arith))
        (rw
          (read_string-field bridge_name_max m.bridge_name (link_part m) f.bridge_name
            (omega arith))
          (rw
            (
              le→leb 19 (length (push_bytes m)) (omega (arith, bytes)),
              le→leb 8 (length (link_part m)) (omega arith),
              link_fields-eq m f,
            )
            (decode_link-eq m _ f refl refl ∙ decode_direct-eq m _ f))))
    where
      bytes : 19 ≤ length (push_bytes m)
      bytes = omega (
        arith,
        length-append (c_string m.tap_name) (field m.bridge_name ++ link_part m),
        length-append (c_string m.bridge_name) (link_part m),
      )
