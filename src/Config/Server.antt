-- ===== src/Config/Server.antt =====
-- src/a/config.c: the settings of the server. The files are a parameter: their bytes, where they can
-- be opened.
pub mod Usable
use ntap_a.Base.{List, [], ◌∷◌, ◌-◌, Option, none, some, take, if◌then◌else◌}
use ntap_a.Base.Words.{Bytes}
use ntap_a.Base.Texts.{codes}
use ntap_a.Base.Results.{Result, gives, fails, ◌>>=◌, ◌>>◌, or_fail}
use ntap_a.Wire.Auth.{config_value_max}
use ntap_a.Config.{is_empty, Config, config_get, config_load, config_require, config_require_addr}

pub record ServerConfig : Type 0 where
  pub path : Bytes
  pub tap_addr : Bytes
  pub socks_addr : Bytes
  pub api_addr : Bytes
  pub db_file : Bytes
  pub api_key : Bytes
  pub log_level : Bytes
  pub log_file : Bytes

-- `snprintf` of "%s" into an array of the struct.
abbrev pub into_array : Bytes → Bytes
into_array text = take (config_value_max - 1) text

abbrev pub copy_optional : Option Bytes → Bytes
copy_optional none = []
copy_optional (some value) = into_array value

abbrev pub default_path : Bytes
default_path = codes "ntap-a.conf"

abbrev pub path_or_default : Bytes → Bytes
path_or_default path = if is_empty path then default_path else path

abbrev pub level_or_info : Bytes → Bytes
level_or_info level = if is_empty level then codes "info" else level

-- What `ntap_a_config_load` makes of the entries.
unfoldable pub server_config : Bytes → Config → Result ServerConfig
server_config path cfg = do
  tap_addr ← config_require_addr cfg (codes "server") (codes "tap_addr") config_value_max
  socks_addr ← config_require_addr cfg (codes "server") (codes "socks_addr") config_value_max
  api_addr ← config_require_addr cfg (codes "server") (codes "api_addr") config_value_max
  db_file ← config_require cfg (codes "server") (codes "db_file") config_value_max
  api_key ← config_require cfg (codes "auth") (codes "api_key") config_value_max
  gives (record {
    path = into_array path;
    tap_addr = tap_addr;
    socks_addr = socks_addr;
    api_addr = api_addr;
    db_file = db_file;
    api_key = api_key;
    log_level = level_or_info (copy_optional (config_get cfg (codes "log") (codes "level")));
    log_file = copy_optional (config_get cfg (codes "log") (codes "file"));
  })

-- `ntap_a_config_load`
unfoldable pub server_config_load : (Bytes → Option Bytes) → Bytes → Result ServerConfig
server_config_load files path = do
  file ← or_fail (codes "failed to open") (files (path_or_default path))
  cfg ← config_load file
  server_config (path_or_default path) cfg
