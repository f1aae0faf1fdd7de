-- ===== src/Api/Fields.antt =====
-- The typed fields of a form: api_form_required to api_form_required_node_pk of src/a/api_server.c,
-- with the texts that they leave in `err`.
use ntap_a.Base.{ℕ, [], ◌∷◌, ◌++◌, Bool, false, ◌&&◌, ◌||◌, Option, none, some, leb, if◌then◌else◌}
pub use ntap_a.Base.Results.{Result, gives, fails, ◌>>=◌, ◌>>◌, check, with_error, or_fail}
use ntap_a.Base.Words.{Bytes}
use ntap_a.Base.Texts.{codes, bytes_equal}
use ntap_a.Base.Decimal.{ℤ, pos, negsuc, Parsed, strtoll, int64_max}
use ntap_a.Api.{ascii_case_equal}
use ntap_a.Api.Auth.{is_empty}
use ntap_a.Api.Form.{FormRc, Got, api_form_get}

-- What a variable of the caller holds that is made empty where the call did not return 0.
abbrev pub or_empty : FormRc → Bytes → Bytes
or_empty FormRc.got text = text
or_empty rc text = []

abbrev pub missing : Bytes → Bytes
missing name = codes "missing form field " ++ name

abbrev pub invalid : Bytes → Bytes
invalid name = codes "invalid " ++ name

abbrev pub required_of : Bytes → FormRc → Bytes → Result Bytes
required_of name FormRc.got (c ∷ cs) = gives (c ∷ cs)
required_of name rc text = fails (missing name)

unfoldable pub api_form_required : Bytes → Bytes → ℕ → Result Bytes
api_form_required body name room =
    let g = api_form_get body name room in required_of name g.rc g.text

abbrev pub whole : Option Parsed → Option ℤ
whole none = none
whole (some p) = if is_empty p.rest then some p.value else none

-- `api_parse_i64`: a number out of the range of int64_t is clamped, not refused.
unfoldable pub api_parse_i64 : Bytes → Option ℤ
api_parse_i64 text = whole (strtoll text)

-- The number, if it is between the bounds.
unfoldable pub between : ℕ → ℕ → Option ℤ → Option ℕ
between low high none = none
between low high (some (negsuc n)) = none
between low high (some (pos n)) = if leb low n && leb n high then some n else none

abbrev pub number_max : ℕ
number_max = 1000000

-- The value is looked at before the return code: one that is broken at its first character, or starts
-- with "%00", counts as not given.
abbrev pub optional_of : ℕ → FormRc → Bytes → Option ℕ
optional_of fallback FormRc.absent text = some fallback
optional_of fallback rc [] = some fallback
optional_of fallback FormRc.broken (c ∷ cs) = none
optional_of fallback FormRc.got (c ∷ cs) = between 0 number_max (api_parse_i64 (c ∷ cs))

unfoldable pub api_parse_optional_u32 : Bytes → Bytes → ℕ → Option ℕ
api_parse_optional_u32 body name fallback =
    let g = api_form_get body name 63 in optional_of fallback g.rc g.text

unfoldable pub api_parse_required_u32 : Bytes → Bytes → Result ℕ
api_parse_required_u32 body name = api_form_required body name 63 >>= λ text.
    or_fail (invalid name) (between 0 number_max (api_parse_i64 text))

abbrev pub is_true : FormRc → Bytes → Bool
is_true FormRc.got text =
    bytes_equal text (codes "1")
    || ascii_case_equal text (codes "true")
    || ascii_case_equal text (codes "yes")
    || ascii_case_equal text (codes "on")
is_true rc text = false

unfoldable pub api_form_bool : Bytes → Bytes → Bool
api_form_bool body name = let g = api_form_get body name 31 in is_true g.rc g.text

-- A row id: above 0.
abbrev pub row_id : Bytes → Option ℕ
row_id text = between 1 int64_max (api_parse_i64 text)

unfoldable pub api_form_required_i64 : Bytes → Bytes → Result ℕ
api_form_required_i64 body name =
    api_form_required body name 63 >>= λ text. or_fail (invalid name) (row_id text)

-- Where the first name is not given, or empty, the second is looked up.
abbrev pub or_else_get : FormRc → Bytes → Got → Got
or_else_get FormRc.absent text second = second
or_else_get rc [] second = second
or_else_get rc (c ∷ cs) second = record { rc = rc; text = c ∷ cs }

unfoldable pub api_form_required_node_pk : Bytes → Result ℕ
api_form_required_node_pk body =
    let first = api_form_get body (codes "id") 63 in
    let g = or_else_get first.rc first.text (api_form_get body (codes "node_id") 63) in
    required_of (codes "id") g.rc g.text >>= λ text. or_fail (codes "invalid node id") (row_id text)
