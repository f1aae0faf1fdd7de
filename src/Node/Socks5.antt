-- ===== src/Node/Socks5.antt =====
-- The SOCKS5 dialogue with a client, socks5_authenticate and socks5_read_connect of
-- src/a/node_server.c, over the arrivals of its socket. ntap_a_db_get_socks_auth is a parameter; the
-- answers are taken to be sent.
pub mod Connect
use ntap_a.Base.{
  ℕ, ◌+◌, ◌-◌, ◌*◌, List, [], ◌∷◌, ◌++◌, Bool, true, false, not, ◌&&◌, ◌||◌, Option, none, some,
  ◌==◌, ltb, leb, if◌then◌else◌, take,
}
use ntap_a.Base.Words.{Bytes, byte_at, get_be16}
use ntap_a.Base.Decimal.{show_dec}
use ntap_a.Net.{Arrival, recv_all}
use ntap_a.Wire.{c_string}

abbrev pub has_byte : ℕ → Bytes → Bool
has_byte b [] = false
has_byte b (c ∷ cs) = c == b || has_byte b cs

-- Bytes received, and what the rest of the dialogue makes of them and of what is left.
abbrev pub received {ℓ} :
    {A : Type ℓ} → Option Bytes × List Arrival → A → (Bytes → List Arrival → A) → A
received (none, es) failed k = failed
received (some bs, es) failed k = k bs es

-- The answers that went out, what the database gives for the user where it is let in, and what is left.
pub record Login (Auth : Type 0) : Type 0 where
  pub answers : List Bytes
  pub auth : Option Auth
  pub left : List Arrival

module _ {Auth : Type 0} (get_socks_auth : Bytes → Bytes → Option Auth) where
  abbrev pub refuse : List Bytes → Login Auth
  refuse answers = record { answers = answers; auth = none; left = [] }

  abbrev pub method_chosen : List Bytes
  method_chosen = (5 ∷ 2 ∷ []) ∷ []

  abbrev pub checked : List Arrival → Option Auth → Login Auth
  checked es none = refuse (method_chosen ++ ((1 ∷ 1 ∷ []) ∷ []))
  checked es (some a) = record {
    answers = method_chosen ++ ((1 ∷ 0 ∷ []) ∷ []);
    auth = some a;
    left = es;
  }

  -- From the length of the password on.
  abbrev pub read_password : Bytes → List Arrival → Login Auth
  read_password username es = received (recv_all 1 es) (refuse method_chosen) λ plen es.
      if byte_at plen 0 == 0
      then refuse method_chosen
      else received (recv_all (byte_at plen 0) es) (refuse method_chosen)
          λ password es. checked es (get_socks_auth (c_string username) (c_string password))

  -- From the header of the user name on.
  abbrev pub read_user : List Arrival → Login Auth
  read_user es = received (recv_all 2 es) (refuse method_chosen) λ header es.
      if not (byte_at header 0 == 1) || byte_at header 1 == 0
      then refuse method_chosen
      else received (recv_all (byte_at header 1) es) (refuse method_chosen) read_password

  -- `socks5_authenticate`
  unfoldable pub socks5_authenticate : List Arrival → Login Auth
  socks5_authenticate es = received (recv_all 2 es) (refuse []) λ header es.
      if not (byte_at header 0 == 5) || byte_at header 1 == 0
      then refuse []
      else received (recv_all (byte_at header 1) es) (refuse [])
          λ methods es. if has_byte 2 methods then read_user es else refuse ((5 ∷ 255 ∷ []) ∷ [])

-- Where a client wants to be connected to, and what is left of the arrivals.
pub record Target : Type 0 where
  pub host : Bytes
  pub port : ℕ
  pub left : List Arrival

abbrev pub dotted : Bytes → Bytes
dotted ip =
    show_dec (byte_at ip 0)
    ++ (b'.' ∷ show_dec (byte_at ip 1))
    ++ (b'.' ∷ show_dec (byte_at ip 2))
    ++ (b'.' ∷ show_dec (byte_at ip 3))

abbrev pub read_port : Bytes → List Arrival → Option Target
read_port host es = received (recv_all 2 es) none λ raw es.
    if get_be16 raw == 0
    then none
    else some (record { host = host; port = get_be16 raw; left = es })

abbrev pub read_domain : ℕ → List Arrival → Option Target
read_domain host_len es = received (recv_all 1 es) none λ len es.
    if byte_at len 0 == 0 || leb host_len (byte_at len 0)
    then none
    else received (recv_all (byte_at len 0) es) none λ host es. read_port (c_string host) es

abbrev pub read_address : ℕ → ℕ → List Arrival → Option Target
read_address host_len atyp es =
    if atyp == 1
    then received (recv_all 4 es) none (λ ip es. read_port (take (host_len - 1) (dotted ip)) es)
    else if atyp == 3
    then read_domain host_len es
    else none

-- `socks5_read_connect` into a host of `host_len` bytes.
unfoldable pub socks5_read_connect : ℕ → List Arrival → Option Target
socks5_read_connect host_len es =
    if host_len == 0
    then none
    else received (recv_all 4 es) none λ header es.
      if not (byte_at header 0 == 5) || not (byte_at header 1 == 1) || not (byte_at header 2 == 0)
      then none
      else read_address host_len (byte_at header 3) es
