-- ===== src/Config/Server/Usable.antt =====
-- That the server starts only with settings that it can use.
use ntap_a.Base.{
  ℕ, ◌<◌, ◌≡◌, refl, sym, ap, [], ◌∷◌, ◌++◌, Bool, true, false, Option, none, some, arith, ◌==◌,
  length, Bool-cases, inl, inr, Ensures, Ensures-elim, ◌^◌, Option-cases,
}
use ntap_a.Base.Words.{Bytes}
use ntap_a.Base.Texts.{codes}
use ntap_a.Base.Decimal.{ℤ, pos, negsuc, Parsed, strtoll}
use ntap_a.Base.Results.{
  Result, gives, fails, ◌>>◌, check, Gives, Gives->>=, Gives-check, Gives-or_fail,
}
use ntap_a.Config.{
  Config, config_get, given, config_load, config_require, config_require_addr, split_last,
  whole_between, host_port, fits_in,
}
use ntap_a.Config.Server.{
  ServerConfig, server_config, server_config_load, path_or_default, level_or_info, copy_optional,
}

-- Not empty, and within an array of 512 bytes.
pub record IsGiven (value : Bytes) : Type 0 where
  not_empty : 0 < length value
  fits : length value < 512

-- A decimal number that is not 0 and fits into 16 bits, and nothing behind it.
pub record IsPort (text : Bytes) : Type 0 where
  parsed : Parsed
  port : ℕ
  reads : strtoll text ≡ some parsed
  number : parsed.value ≡ pos port
  ends : parsed.rest ≡ []
  above : 0 < port
  below : port < 2 ^ 16

-- HOST:PORT, where the host is not empty.
pub record IsAddress (value : Bytes) : Type 0 where
  host : Bytes
  port_text : Bytes
  parts : value ≡ host ++ (b':' ∷ port_text)
  has_host : 0 < length host
  has_port : IsPort port_text
  fits : length value < 512

given_lem : (m : Option Bytes) (value : Bytes) → given m ≡ some value → 0 < length value
given_lem none value e = ground (arith, e)
given_lem (some []) value e = ground (arith, e)
given_lem (some (c ∷ cs)) value e = ground (arith, e)

config_require-IsGiven : (cfg : Config) (s k : Bytes) → Gives IsGiven (config_require cfg s k 512)
unfolding config_require
config_require-IsGiven cfg s k =
    Gives-or_fail IsGiven (codes "missing " ++ s ++ codes "." ++ k) (given (config_get cfg s k))
      (λ value.
        check (codes "value too long for " ++ s ++ codes "." ++ k) (fits_in 512 value)
        >> gives value)
      λ value e.
        Gives-check IsGiven (codes "value too long for " ++ s ++ codes "." ++ k) (fits_in 512 value)
          (gives value)
          λ h. record {
            not_empty = given_lem (config_get cfg s k) value e;
            fits = ground (arith, h);
          }

abbrev Split : ℕ → Bytes → Bytes × Bytes → Type 0
Split c text (l, r) = text ≡ l ++ (c ∷ r)

split_last-Split : (c : ℕ) (xs : Bytes) → Ensures (Split c xs) (split_last c xs)
unfolding split_last
split_last-Split c [] = tt
split_last-Split c (x ∷ xs) = elim (Option-cases (split_last c xs)) [
  | inr ((l, r), e) ↦
      rw e (ap (λ t. x ∷ t) (Ensures-elim (Split c xs) (split_last c xs) (split_last-Split c xs) e))
  | inl e ↦ elim (Bool-cases (x == c)) [
    | inl hit ↦ let same : x ≡ c = ground (arith, hit) in rw (e, hit) (ap (λ y. y ∷ xs) same)
    | inr miss ↦ rw (e, miss) tt
  ]
]

parsed-IsPort :
    (text : Bytes) (port : ℕ) (v : ℤ) (in_range : Bool) (rest : Bytes)
    → strtoll text ≡ some (record { value = v; in_range = in_range; rest = rest })
    → whole_between 1 65535 (some (record { value = v; in_range = in_range; rest = rest }))
      ≡ some port
    → IsPort text
unfolding whole_between
parsed-IsPort text port (pos n) true [] r e = record {
  parsed = record { value = pos n; in_range = true; rest = [] };
  port = port;
  reads = r;
  number = ap pos (ground (arith, e));
  ends = refl;
  above = ground (arith, e);
  below = ground (arith, e);
}
parsed-IsPort text port (negsuc n) true [] r e = ground (arith, e)
parsed-IsPort text port v false rest r e = ground (arith, e)
parsed-IsPort text port v true (c ∷ cs) r e = ground (arith, e)

whole_between-IsPort :
    (text : Bytes) (p : Option Parsed) (port : ℕ)
    → strtoll text ≡ p
    → whole_between 1 65535 p ≡ some port
    → IsPort text
unfolding whole_between
whole_between-IsPort text none port r e = ground (arith, e)
whole_between-IsPort text (some p) port r e = parsed-IsPort text port p.value p.in_range p.rest r e

-- What host_port lets through is as it was split.
host_port_lem :
    (p : Option (Bytes × Bytes)) (host port_s : Bytes)
    → host_port p ≡ some (host, port_s)
    → (p ≡ some (host, port_s)) × (0 < length host)
host_port_lem none host port_s e = ground (arith, e)
host_port_lem (some ([], r)) host port_s e = ground (arith, e)
host_port_lem (some (c ∷ cs, [])) host port_s e = ground (arith, e)
host_port_lem (some (c ∷ cs, d ∷ ds)) host port_s e =
    (e, let h : c ∷ cs ≡ host = ground (arith, e) in rw (sym h) (omega arith))

config_require_addr-IsAddress :
    (cfg : Config) (s k : Bytes) → Gives IsAddress (config_require_addr cfg s k 512)
unfolding config_require_addr
config_require_addr-IsAddress cfg s k =
    Gives->>= IsGiven IsAddress (config_require cfg s k 512) _ (config_require-IsGiven cfg s k)
      λ value given.
        Gives-or_fail IsAddress (codes "invalid address in " ++ s ++ codes "." ++ k)
          (host_port (split_last b':' value)) _
          λ (host, port_s) e.
            Gives-or_fail IsAddress (codes "invalid port in " ++ s ++ codes "." ++ k)
              (whole_between 1 65535 (strtoll port_s)) _
              λ port e'.
                Gives-check IsAddress (codes "value too long for " ++ s ++ codes "." ++ k)
                  (fits_in 512 value) (gives value)
                  λ fit.
                    let (split, has_host) = host_port_lem (split_last b':' value) host port_s e in
                    record {
                      host = host;
                      port_text = port_s;
                      parts =
                          Ensures-elim (Split b':' value) (split_last b':' value)
                            (split_last-Split b':' value) split;
                      has_host = has_host;
                      has_port = whole_between-IsPort port_s (strtoll port_s) port refl e';
                      fits = given.fits;
                    }

Gives-any : {A : Type 0} (m : Result A) → Gives (λ a. Unit {0}) m
Gives-any (gives a) = tt
Gives-any (fails e) = tt

-- What the server needs of its settings.
pub record IsUsable (c : ServerConfig) : Type 0 where
  tap : IsAddress c.tap_addr
  socks : IsAddress c.socks_addr
  api : IsAddress c.api_addr
  db : IsGiven c.db_file
  key : IsGiven c.api_key
  level : 0 < length c.log_level

level_given : (level : Bytes) → 0 < length (level_or_info level)
level_given [] = omega arith
level_given (c ∷ cs) = omega arith

server_config-IsUsable : (path : Bytes) (cfg : Config) → Gives IsUsable (server_config path cfg)
unfolding server_config
server_config-IsUsable path cfg =
    let server = codes "server" in
    Gives->>= IsAddress IsUsable (config_require_addr cfg server (codes "tap_addr") 512) _
      (config_require_addr-IsAddress cfg server (codes "tap_addr"))
      λ tap_addr tap.
        Gives->>= IsAddress IsUsable (config_require_addr cfg server (codes "socks_addr") 512) _
          (config_require_addr-IsAddress cfg server (codes "socks_addr"))
          λ socks_addr socks.
            Gives->>= IsAddress IsUsable (config_require_addr cfg server (codes "api_addr") 512) _
              (config_require_addr-IsAddress cfg server (codes "api_addr"))
              λ api_addr api.
                Gives->>= IsGiven IsUsable (config_require cfg server (codes "db_file") 512) _
                  (config_require-IsGiven cfg server (codes "db_file"))
                  λ db_file db.
                    Gives->>= IsGiven IsUsable
                      (config_require cfg (codes "auth") (codes "api_key") 512) _
                      (config_require-IsGiven cfg (codes "auth") (codes "api_key"))
                      λ api_key key. record {
                        tap = tap;
                        socks = socks;
                        api = api;
                        db = db;
                        key = key;
                        level =
                            level_given
                              (copy_optional (config_get cfg (codes "log") (codes "level")));
                      }

-- Whatever the files hold, the server gets settings only with three addresses HOST:PORT, whose ports are
-- decimal numbers from 1 to 65535, a database, a key of the API and a log level that are not empty.
pub server_config_load-IsUsable :
    (files : Bytes → Option Bytes) (path : Bytes) → Gives IsUsable (server_config_load files path)
unfolding server_config_load
server_config_load-IsUsable files path =
    Gives-or_fail IsUsable (codes "failed to open") (files (path_or_default path)) _ λ file opened.
      Gives->>= (λ cfg. Unit {0}) IsUsable (config_load file) _ (Gives-any (config_load file))
        λ cfg loaded. server_config-IsUsable (path_or_default path) cfg
