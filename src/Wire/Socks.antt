-- ===== src/Wire/Socks.antt =====
-- The SOCKS stream payloads of src/common/wire.c: open, data, close.
pub mod RoundTrip
use ntap_a.Base.{
  ℕ, ◌+◌, ◌-◌, [], ◌∷◌, ◌++◌, Bool, not, ◌||◌, ◌&&◌, Option, none, some, ◌==◌, ◌!=◌, ltb, leb,
  length, drop, if◌then◌else◌, ◌>>=◌, ◌>>◌, guard,
}
use ntap_a.Base.Words.{Bytes, byte_at, put_be16, put_be32, get_be16, get_be32}
use ntap_a.Buffer.{Buffer, init, append}
use ntap_a.Proto.{payload_max_socks}
use ntap_a.Wire.{strlen, append_string, read_string, emit}

abbrev pub host_max : ℕ
host_max = 256

abbrev pub data_overhead : ℕ
data_overhead = 4

abbrev pub close_base_size : ℕ
close_base_size = 4

abbrev pub close_reason_size : ℕ
close_reason_size = 8

abbrev pub close_flag_fin : ℕ
close_flag_fin = 0x0001

-- `NTAP_SOCKS_CLOSE_REASON_*`
abbrev pub reason_closed : ℕ
reason_closed = 0

abbrev pub reason_client_closed : ℕ
reason_client_closed = 1

abbrev pub reason_remote_closed : ℕ
reason_remote_closed = 2

abbrev pub reason_target_connect_failed : ℕ
reason_target_connect_failed = 3

abbrev pub reason_resource_limited : ℕ
reason_resource_limited = 4

abbrev pub reason_idle_timeout : ℕ
reason_idle_timeout = 5

-- `ntap_socks_open_t`
pub record SocksOpen : Type 0 where
  pub stream_id : ℕ
  pub host : Bytes
  pub port : ℕ

-- `ntap_socks_data_t`; `data` points into the payload, and `data_len` is its length.
pub record SocksData : Type 0 where
  pub stream_id : ℕ
  pub bytes : Bytes

-- `ntap_socks_close_t`
pub record SocksClose : Type 0 where
  pub stream_id : ℕ
  pub reason_code : ℕ
  pub flags : ℕ

-- The size is tested before the copy, both against `cap` and against the largest SOCKS payload.
unfoldable pub emit_socks : ℕ → Buffer → Option Bytes
emit_socks cap buf =
    if ltb cap (length buf.bytes) || ltb payload_max_socks (length buf.bytes)
    then none
    else some buf.bytes

unfoldable pub encode_socks_open : (ℕ → Bool) → ℕ → SocksOpen → Option Bytes
encode_socks_open alloc cap m = do
  guard (not (byte_at m.host 0 == 0 || m.port == 0))
  buf ← append alloc init (put_be32 m.stream_id)
  buf ← append_string alloc buf m.host
  buf ← append alloc buf (put_be16 m.port)
  emit_socks cap buf

unfoldable pub decode_socks_open : Bytes → Option SocksOpen
decode_socks_open payload = do
  guard (leb 8 (length payload))
  (host, rest) ← read_string host_max (drop 4 payload)
  guard (length rest == 2)
  guard (not (get_be32 payload == 0 || byte_at host 0 == 0 || get_be16 rest == 0))
  some (record { stream_id = get_be32 payload; host = host; port = get_be16 rest })

unfoldable pub encode_socks_data : ℕ → SocksData → Option Bytes
encode_socks_data cap m =
    if m.stream_id == 0
      || length m.bytes == 0
      || ltb (payload_max_socks - data_overhead) (length m.bytes)
      || ltb cap (data_overhead + length m.bytes)
    then none
    else some (put_be32 m.stream_id ++ m.bytes)

unfoldable pub decode_socks_data : Bytes → Option SocksData
decode_socks_data payload =
    if leb (length payload) data_overhead || ltb payload_max_socks (length payload)
    then none
    else if get_be32 payload == 0 || length payload - data_overhead == 0
    then none
    else some (record { stream_id = get_be32 payload; bytes = drop data_overhead payload })

unfoldable pub encode_socks_close : ℕ → Option Bytes
encode_socks_close stream_id = if stream_id == 0 then none else some (put_be32 stream_id)

unfoldable pub encode_socks_close_reason : SocksClose → Option Bytes
encode_socks_close_reason m =
    if m.stream_id == 0
    then none
    else some (put_be32 m.stream_id ++ (put_be16 m.reason_code ++ put_be16 m.flags))

unfoldable pub decode_socks_close : Bytes → Option SocksClose
decode_socks_close payload =
    if length payload != close_base_size && length payload != close_reason_size
    then none
    else if get_be32 payload == 0
    then none
    else if length payload == close_reason_size
    then some (record {
      stream_id = get_be32 payload;
      reason_code = get_be16 (drop 4 payload);
      flags = get_be16 (drop 6 payload);
    })
    else some
        (record { stream_id = get_be32 payload; reason_code = reason_remote_closed; flags = 0 })
