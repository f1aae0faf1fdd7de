-- ===== src/Wire/Socks/RoundTrip.antt =====
-- The two ends of a SOCKS stream agree on its messages.
use ntap_a.Base.{
  ℕ, ◌+◌, ◌≤◌, ◌<◌, ◌≡◌, ◌≢◌, [], ◌∷◌, ◌++◌, Bool, some, arith, length, length-append, ◌>>=◌, ==_ne,
  append-nil, All,
}
use ntap_a.Base.Words.{
  Bytes, IsByte, IsU16, IsU32, put_be16, put_be32, get_be32, get_be16-put_be16, get_be32-put_be32,
  byte_at,
}
use ntap_a.Buffer.{size_max}
use ntap_a.Buffer.Writes.{Granted, Pending-init, append-then}
use ntap_a.Proto.{payload_max_socks}
use ntap_a.Wire.{c_string, strlen}
use ntap_a.Wire.Text.{field, append_string-then, read_string-field}
use ntap_a.Wire.Socks.{
  SocksOpen, SocksData, SocksClose, encode_socks_open, decode_socks_open, encode_socks_data,
  decode_socks_data, encode_socks_close, encode_socks_close_reason, decode_socks_close, host_max,
  emit_socks, reason_remote_closed,
}

pub record OpenFits (m : SocksOpen) : Type 0 where
  pub stream_id : IsU32 m.stream_id
  pub stream_id_set : m.stream_id ≢ 0
  pub host : strlen m.host < host_max
  pub host_set : byte_at m.host 0 ≢ 0
  pub port : IsU16 m.port
  pub port_set : m.port ≢ 0

abbrev open_bytes : SocksOpen → Bytes
open_bytes m = put_be32 m.stream_id ++ (field m.host ++ put_be16 m.port)

first-c_string : (host : Bytes) → byte_at host 0 ≢ 0 → byte_at (c_string host) 0 ≢ 0
unfolding c_string
first-c_string [] h = h
first-c_string (b ∷ bs) h = ground arith

module _ (alloc : ℕ → Bool) (cap : ℕ) (granted : Granted alloc) (small : cap ≤ size_max) where
  encode_socks_open-eq :
      (m : SocksOpen)
      → OpenFits m
      → 8 + strlen m.host ≤ cap
      → encode_socks_open alloc cap m ≡ some (open_bytes m)
  unfolding encode_socks_open emit_socks
  encode_socks_open-eq m f h =
      rw (==_ne (byte_at m.host 0) 0 f.host_set, ==_ne m.port 0 f.port_set)
        (append-then granted small' (put_be32 m.stream_id) (field m.host ++ put_be16 m.port)
          (Pending-init total)
          λ b p. append_string-then granted small' m.host (put_be16 m.port) (omega arith) p λ b p.
            append-then granted small' (put_be16 m.port) [] p
              λ b (v, e). ground (arith, append-nil b.bytes, fits))
    where
      total : Bytes
      total = open_bytes m

      fits : (length total ≤ cap) × (length total ≤ payload_max_socks)
      fits = omega (arith, length-append (c_string m.host) (put_be16 m.port))

      small' : length total ≤ size_max
      small' = omega (arith, fits)

  -- An open request with a host and a port is read back, the host cut at its NUL.
  pub decode_socks_open-encode_socks_open :
      (m : SocksOpen)
      → OpenFits m
      → 8 + strlen m.host ≤ cap
      → (encode_socks_open alloc cap m >>= decode_socks_open)
        ≡ some (record m { host = c_string m.host })
  unfolding decode_socks_open
  decode_socks_open-encode_socks_open m f h = rw (encode_socks_open-eq m f h) (
      rw (read_string-field host_max m.host (put_be16 m.port) f.host (omega arith)) (
        ground (
          arith,
          get_be32-put_be32 m.stream_id (field m.host ++ put_be16 m.port),
          get_be16-put_be16 m.port [],
          first-c_string m.host f.host_set,
          length-append (c_string m.host) (put_be16 m.port),
        )))

-- A data message that is sent is read back whole.
pub decode_socks_data-encode_socks_data :
    (cap : ℕ) (m : SocksData) (bs : Bytes)
    → IsU32 m.stream_id
    → encode_socks_data cap m ≡ some bs
    → decode_socks_data bs ≡ some m
unfolding encode_socks_data decode_socks_data
decode_socks_data-encode_socks_data cap m bs h e =
    ground (arith, get_be32-put_be32 m.stream_id m.bytes)

-- A data message that is accepted is the encoding of what was read, and its data are not empty.
pub encode_socks_data-decode_socks_data :
    (payload : Bytes) (m : SocksData)
    → All IsByte payload
    → decode_socks_data payload ≡ some m
    → (m.bytes ≢ []) × (encode_socks_data (length payload) m ≡ some payload)
unfolding encode_socks_data decode_socks_data get_be32
encode_socks_data-decode_socks_data (a ∷ b ∷ c ∷ d ∷ x ∷ rest) m r e = ground arith
encode_socks_data-decode_socks_data _ m r e = ground arith

-- A close with a reason is read back; the older form without one reads as closed by the remote
-- end, with no flag set.
pub decode_socks_close_forms :
    (m : SocksClose) (long short : Bytes)
    → IsU32 m.stream_id
    → IsU16 m.reason_code
    → IsU16 m.flags
    → encode_socks_close_reason m ≡ some long
    → encode_socks_close m.stream_id ≡ some short
    → (decode_socks_close long ≡ some m)
      × (decode_socks_close short
          ≡ some (record m { reason_code = reason_remote_closed; flags = 0 }))
unfolding encode_socks_close encode_socks_close_reason decode_socks_close
decode_socks_close_forms m long short i r f e g = ground (
  arith,
  get_be32-put_be32 m.stream_id [],
  get_be32-put_be32 m.stream_id (put_be16 m.reason_code ++ put_be16 m.flags),
  get_be16-put_be16 m.reason_code (put_be16 m.flags),
  get_be16-put_be16 m.flags [],
)
