-- ===== src/Wire/AuthOk.antt =====
-- The AUTH_OK payload of src/common/wire.c, of a fixed size.
use ntap_a.Base.{ℕ, ◌≡◌, [], ◌++◌, Option, some, ◌==◌, arith, length, drop, ◌>>◌, guard}
use ntap_a.Base.Words.{
  Bytes, IsU32, IsU64, put_be32, put_be64, get_be32, get_be64, get_be32-put_be32, get_be64-put_be64,
}

abbrev pub auth_ok_size : ℕ
auth_ok_size = 20

-- `ntap_auth_ok_t`
pub record AuthOk : Type 0 where
  pub session_id : ℕ
  pub network_id : ℕ
  pub server_time : ℕ
  pub feature_bits : ℕ

unfoldable pub encode_auth_ok : AuthOk → Bytes
encode_auth_ok m =
    put_be32 m.session_id
    ++ (put_be32 m.network_id ++ (put_be64 m.server_time ++ put_be32 m.feature_bits))

unfoldable pub decode_auth_ok : Bytes → Option AuthOk
decode_auth_ok payload = do
  guard (length payload == auth_ok_size)
  some (record {
    session_id = get_be32 payload;
    network_id = get_be32 (drop 4 payload);
    server_time = get_be64 (drop 8 payload);
    feature_bits = get_be32 (drop 16 payload);
  })

pub record AuthOkFits (m : AuthOk) : Type 0 where
  pub session_id : IsU32 m.session_id
  pub network_id : IsU32 m.network_id
  pub server_time : IsU64 m.server_time
  pub feature_bits : IsU32 m.feature_bits

-- The two ends agree on every AUTH_OK.
pub decode_auth_ok-encode_auth_ok :
    (m : AuthOk) → AuthOkFits m → decode_auth_ok (encode_auth_ok m) ≡ some m
unfolding encode_auth_ok decode_auth_ok get_be32 get_be64
decode_auth_ok-encode_auth_ok m f = ground (
  arith,
  get_be32-put_be32 m.session_id [],
  get_be32-put_be32 m.network_id [],
  get_be64-put_be64 m.server_time [],
  get_be32-put_be32 m.feature_bits [],
)
