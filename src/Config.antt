-- ===== src/Config.antt =====
-- src/common/config.c: configuration files of sections and `key = value` lines. A text is the list of its
-- bytes; the file is its bytes, which `fopen` and `fgets` are taken to give without an error. What the
-- table holds after a failed load is left out.
pub mod Table
pub mod Load
pub mod Server
use ntap_a.Base.{
  ℕ, zero, suc, ◌+◌, ◌-◌, List, [], ◌∷◌, ◌++◌, map, Bool, true, false, not, ◌&&◌, ◌||◌, Option,
  none, some, ltb, leb, ◌==◌, if◌then◌else◌, length,
}
use ntap_a.Base.Words.{Bytes}
use ntap_a.Base.Texts.{codes, bytes_equal, skip_space, drop_space, split_at}
use ntap_a.Base.Decimal.{ℤ, pos, negsuc, Parsed, show_dec, strtoll}
use ntap_a.Base.Results.{Result, gives, fails, ◌>>=◌, ◌>>◌, check, or_fail}
use ntap_a.Wire.Auth.{config_value_max}
use ntap_a.Wire.{c_string}

abbrev pub config_max_entries : ℕ
config_max_entries = 128

abbrev pub config_section_max : ℕ
config_section_max = 64

abbrev pub config_key_max : ℕ
config_key_max = 64

-- `ntap_config_entry_t`
pub record ConfigEntry : Type 0 where
  pub section : Bytes
  pub key : Bytes
  pub value : Bytes

-- `ntap_config_t`: the first `count` entries.
abbrev pub Config : Type 0
Config = List ConfigEntry

unfoldable pub trim : Bytes → Bytes
trim text = drop_space (skip_space text)

-- `strip_inline_comment` from a place that is in quotes or not.
unfoldable pub strip_comment : Bool → Bytes → Bytes
strip_comment in_quote [] = []
strip_comment in_quote (c ∷ cs) =
    let in_quote' = if c == 34 then not in_quote else in_quote in
    let rest = strip_comment in_quote' cs in
    if not in_quote' && (c == b'#' || c == b';') then [] else c ∷ rest

-- `copy_text` into n bytes.
abbrev pub fits_in : ℕ → Bytes → Bool
fits_in n text = ltb (length text) n

abbrev pub is_entry : Bytes → Bytes → ConfigEntry → Bool
is_entry section key e = bytes_equal e.section section && bytes_equal e.key key

-- `ntap_config_get`, on what `find_entry` finds.
unfoldable pub config_get : Config → Bytes → Bytes → Option Bytes
config_get [] section key = none
config_get (e ∷ es) section key =
    if is_entry section key e then some e.value else config_get es section key

-- The entry gets the value, if there is one.
unfoldable pub replace : Bytes → Bytes → Bytes → Config → Option Config
replace section key value [] = none
replace section key value (e ∷ es) =
    let rest = replace section key value es in
    if is_entry section key e
    then some (record e { value = value } ∷ es)
    else (elim rest [ none ↦ none | some es' ↦ some (e ∷ es') ])

-- A line, once the blanks around it are taken off.
pub data Line : Type 0 where
  blank : Line
  bad_section : Line
  in_section : Bytes → Line
  bad_pair : Line
  pair : Bytes → Bytes → Line

abbrev pub is_comment : ℕ → Bool
is_comment c = c == b'#' || c == b';'

abbrev pub section_of : Option (Bytes × Bytes) → Line
section_of none = Line.bad_section
section_of (some (name, rest)) = Line.in_section (trim name)

abbrev pub pair_of : Option (Bytes × Bytes) → Line
pair_of none = Line.bad_pair
pair_of (some (key, value)) = Line.pair (trim key) (trim (strip_comment false value))

unfoldable pub parse_trimmed : Bytes → Line
parse_trimmed [] = Line.blank
parse_trimmed (c ∷ cs) =
    if is_comment c
    then Line.blank
    else if c == b'['
    then section_of (split_at b']' cs)
    else pair_of (split_at b'=' (c ∷ cs))

unfoldable pub parse_line : Bytes → Line
parse_line line = parse_trimmed (trim line)

abbrev pub is_empty : Bytes → Bool
is_empty [] = true
is_empty (c ∷ cs) = false

abbrev pub at_line : Bytes → ℕ → Bytes
at_line text line_no = text ++ codes " at line " ++ show_dec line_no

abbrev pub new_entry : Bytes → Bytes → Bytes → ConfigEntry
new_entry section key value = record { section = section; key = key; value = value }

-- The entry of a line with a key: the old one, or a new one behind the others.
abbrev pub place : ℕ → Bytes → Bytes → Bytes → Config → Option Config → Result Config
place line_no section key value cfg (some cfg') = gives cfg'
place line_no section key value cfg none = do
  check (codes "too many config entries") (ltb (length cfg) config_max_entries)
  check (at_line (codes "section/key too long") line_no)
      (fits_in config_section_max section && fits_in config_key_max key)
  gives (cfg ++ (new_entry section key value ∷ []))

unfoldable pub set_entry : ℕ → Bytes → Bytes → Bytes → Config → Result Config
set_entry line_no section key value cfg = do
  check (at_line (codes "empty key") line_no) (not (is_empty key))
  cfg' ← place line_no section key value cfg (replace section key value cfg)
  check (at_line (codes "value too long") line_no) (fits_in config_value_max value)
  gives cfg'

-- What one line does to the section and the table.
unfoldable pub load_line : ℕ → Line → Bytes × Config → Result (Bytes × Config)
load_line line_no Line.blank st = gives st
load_line line_no Line.bad_section st = fails (at_line (codes "invalid section") line_no)
load_line line_no (Line.in_section name) (current, cfg) = do
  check (at_line (codes "invalid section") line_no)
      (fits_in config_section_max name && not (is_empty name))
  gives (name, cfg)
load_line line_no Line.bad_pair st = fails (at_line (codes "invalid key/value") line_no)
load_line line_no (Line.pair key value) (current, cfg) = do
  check (at_line (codes "invalid key/value") line_no) (not (is_empty current))
  cfg' ← set_entry line_no current key value cfg
  gives (current, cfg')

unfoldable pub load_lines : ℕ → List Line → Bytes × Config → Result (Bytes × Config)
load_lines n [] st = gives st
load_lines n (l ∷ ls) st = load_line (suc n) l st >>= λ st'. load_lines (suc n) ls st'

-- What the calls of `fgets` into 1024 bytes give, the first with room for n bytes more; a text ends at its
-- first NUL.
abbrev pub to_front : ℕ → List Bytes → List Bytes
to_front c [] = (c ∷ []) ∷ []
to_front c (l ∷ ls) = (c ∷ l) ∷ ls

abbrev pub fgets_room : ℕ
fgets_room = 1023

unfoldable pub fgets_lines : ℕ → Bytes → List Bytes
fgets_lines n [] = []
fgets_lines n (c ∷ cs) =
    let ends = c == 10 || leb n 1 in
    let rest = fgets_lines (if ends then fgets_room else n - 1) cs in
    if ends then (c ∷ []) ∷ rest else to_front c rest

-- `ntap_config_load`
unfoldable pub config_load : Bytes → Result Config
config_load file =
    load_lines 0 (map (λ l. parse_line (c_string l)) (fgets_lines fgets_room file)) ([], [])
    >>= λ (current, cfg). gives cfg

-- The value, where there is one that is not empty.
abbrev pub given : Option Bytes → Option Bytes
given none = none
given (some []) = none
given (some (c ∷ cs)) = some (c ∷ cs)

-- `ntap_config_require` into `out_len` bytes.
unfoldable pub config_require : Config → Bytes → Bytes → ℕ → Result Bytes
config_require cfg section_name key out_len = do
  value ←
      or_fail (codes "missing " ++ section_name ++ codes "." ++ key)
        (given (config_get cfg section_name key))
  check (codes "value too long for " ++ section_name ++ codes "." ++ key) (fits_in out_len value)
  gives value

-- What stands before the last `c` and after it, as `strrchr` splits a text.
unfoldable pub split_last : ℕ → Bytes → Option (Bytes × Bytes)
split_last c [] = none
split_last c (x ∷ xs) = elim (split_last c xs) [
  | some (l, r) ↦ some (x ∷ l, r)
  | none ↦ if x == c then some ([], xs) else none
]

-- The number that the text is, between the bounds; `errno` is set where it is out of the range of long.
unfoldable pub whole_between : ℕ → ℕ → Option Parsed → Option ℕ
whole_between low high none = none
whole_between low high (some p) =
    if not (is_empty p.rest) || not p.in_range then none else (elim p.value [
      | pos n ↦ if leb low n && leb n high then some n else none
      | negsuc n ↦ none
    ])

abbrev pub host_port : Option (Bytes × Bytes) → Option (Bytes × Bytes)
host_port none = none
host_port (some (host, port)) = if is_empty host || is_empty port then none else some (host, port)

-- `ntap_config_require_addr`
unfoldable pub config_require_addr : Config → Bytes → Bytes → ℕ → Result Bytes
config_require_addr cfg section_name key out_len = do
  value ← config_require cfg section_name key config_value_max
  (host, port_s) ←
      or_fail (codes "invalid address in " ++ section_name ++ codes "." ++ key)
        (host_port (split_last b':' value))
  port ←
      or_fail (codes "invalid port in " ++ section_name ++ codes "." ++ key)
        (whole_between 1 65535 (strtoll port_s))
  check (codes "value too long for " ++ section_name ++ codes "." ++ key) (fits_in out_len value)
  gives value

-- `ntap_config_get_u16`
unfoldable pub config_get_u16 : Config → Bytes → Bytes → ℕ → ℕ → ℕ → Result ℕ
config_get_u16 cfg section_name key fallback min_value max_value =
    elim (given (config_get cfg section_name key)) [
      | none ↦ gives fallback
      | some value ↦
          or_fail (codes "invalid integer in " ++ section_name ++ codes "." ++ key)
            (whole_between min_value max_value (strtoll value))
    ]
