-- ===== src/Tests/Config.antt =====
-- src/common/config.c at small inputs.
use ntap_a.Base.{◌≡◌, refl, [], ◌∷◌, ◌++◌, none, some}
use ntap_a.Base.Words.{Bytes}
use ntap_a.Base.Texts.{codes, bytes_equal, skip_space, drop_space, split_at}
use ntap_a.Base.Decimal.{strtoll, after_sign, signed, clamp, read_digits}
use ntap_a.Base.Results.{gives, Gives}
use ntap_a.Wire.{c_string}
use ntap_a.Config.{
  Config, config_get, config_load, load_lines, load_line, parse_line, parse_trimmed, trim,
  strip_comment, replace, set_entry, fgets_lines, config_get_u16, config_require_addr,
  config_require, split_last, whole_between,
}
use ntap_a.Config.Server.{server_config, server_config_load}
use ntap_a.Config.Server.Usable.{IsUsable, server_config_load-IsUsable}
use ntap_a.Config.Load.{lines_of, value_at, config_load-value_at}

abbrev lf : Bytes
lf = 10 ∷ []

abbrev file : Bytes
file =
    codes "# ports"
    ++ lf
    ++ codes "[node]"
    ++ lf
    ++ codes " port = 80 ; old"
    ++ lf
    ++ codes "port=\"8#1\" # new"
    ++ lf

abbrev loaded : Config
loaded = record { section = codes "node"; key = codes "port"; value = codes "\"8#1\"" } ∷ []

loads : config_load file ≡ gives loaded
unfolding config_load load_lines load_line parse_line parse_trimmed trim strip_comment replace
    set_entry fgets_lines skip_space drop_space split_at bytes_equal c_string
loads = refl

config_load-value_at_example :
    Gives
      (λ cfg.
        config_get cfg (codes "node") (codes "port")
        ≡ value_at (codes "node") (codes "port") [] none (lines_of file))
      (config_load file)
config_load-value_at_example = config_load-value_at file (codes "node") (codes "port")

abbrev addresses : Config
addresses =
    record { section = codes "a"; key = codes "addr"; value = codes "[::1]:9000" }
    ∷ record { section = codes "a"; key = codes "mtu"; value = codes "1500" }
    ∷ []

reads_mtu : config_get_u16 addresses (codes "a") (codes "mtu") 1400 576 1500 ≡ gives 1500
unfolding config_get_u16 config_get bytes_equal whole_between strtoll after_sign signed clamp
    read_digits skip_space
reads_mtu = refl

reads_addr :
    config_require_addr addresses (codes "a") (codes "addr") 64 ≡ gives (codes "[::1]:9000")
unfolding config_require_addr config_require config_get bytes_equal split_last whole_between strtoll
    after_sign signed clamp read_digits skip_space
reads_addr = refl

-- The settings of a server, without the section of the log.
abbrev settings : Bytes
settings =
    codes "[server]"
    ++ lf
    ++ codes "tap_addr = h:9000"
    ++ lf
    ++ codes "socks_addr = h:1080"
    ++ lf
    ++ codes "api_addr = h:80"
    ++ lf
    ++ codes "db_file = a.db"
    ++ lf
    ++ codes "[auth]"
    ++ lf
    ++ codes "api_key = k"
    ++ lf

server_starts :
    server_config_load (λ path. some settings) (codes "n.conf")
    ≡ gives (record {
      path = codes "n.conf";
      tap_addr = codes "h:9000";
      socks_addr = codes "h:1080";
      api_addr = codes "h:80";
      db_file = codes "a.db";
      api_key = codes "k";
      log_level = codes "info";
      log_file = [];
    })
unfolding server_config_load server_config config_load load_lines load_line parse_line parse_trimmed
    trim strip_comment replace set_entry fgets_lines skip_space drop_space split_at bytes_equal
    c_string config_require_addr config_require config_get split_last whole_between strtoll
    after_sign signed clamp read_digits
server_starts = refl

server_config_load-IsUsable_example :
    Gives IsUsable (server_config_load (λ path. some settings) (codes "n.conf"))
server_config_load-IsUsable_example =
    server_config_load-IsUsable (λ path. some settings) (codes "n.conf")
