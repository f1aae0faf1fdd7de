-- ===== src/Api/Endpoint/Reads.antt =====
-- What each value keeps to that an endpoint reads from a form.
use ntap_a.Base.{
  ℕ, zero, suc, ◌≤◌, ◌≡◌, refl, List, [], ◌∷◌, false, ◌&&◌, Option, none, some, arith, leb,
  Bool-cases, Option-cases, inl, inr, length,
}
pub use ntap_a.Base.Results.{Gives, Gives->>=, Gives-check, Gives-weaken, Gives-with_error}
use ntap_a.Base.Words.{Bytes}
use ntap_a.Base.Decimal.{ℤ, pos, negsuc, int64_max}
use ntap_a.Proto.{min_mtu, max_mtu}
use ntap_a.Api.Auth.{is_empty}
use ntap_a.Base.Texts.{codes, split_at}
use ntap_a.Api.Form.{
  FormRc, form_decode, decode_unit, c_text, decoded, value_of, find_field, halves, matches,
  segments, api_form_get,
}
use ntap_a.Api.Fields.{
  Result, gives, fails, ◌>>=◌, or_fail, between, row_id, number_max, api_parse_i64,
  api_form_required, required_of, or_empty, or_else_get, invalid, api_parse_optional_u32,
  optional_of, api_parse_required_u32, api_form_required_i64, api_form_required_node_pk,
}
use ntap_a.Api.Endpoint.{value_room, optional, mtu_of, optional_mtu, optional_u32}

abbrev pub IsBetween : ℕ → ℕ → ℕ → Type 0
IsBetween low high n = (low ≤ n) × (n ≤ high)

abbrev pub IsRow : ℕ → Type 0
IsRow = IsBetween 1 int64_max

abbrev pub IsNumber : ℕ → Type 0
IsNumber = IsBetween 0 number_max

abbrev pub IsMtu : ℕ → Type 0
IsMtu = IsBetween min_mtu max_mtu

pub or_fail-between :
    (e : Bytes) (low high : ℕ) (z : Option ℤ)
    → Gives (IsBetween low high) (or_fail e (between low high z))
unfolding between
or_fail-between e low high none = tt
or_fail-between e low high (some (negsuc n)) = tt
or_fail-between e low high (some (pos n)) = elim (Bool-cases (leb low n && leb n high)) [
  | inl h ↦ rw h (ground (arith, h), ground (arith, h))
  | inr h ↦ rw h tt
]

-- A text that is given, and fits into an array with this room.
abbrev pub Fits : ℕ → Bytes → Type 0
Fits room text = length text ≤ room

abbrev pub IsGiven : ℕ → Bytes → Type 0
IsGiven room text = (is_empty text ≡ false) × Fits room text

form_decode-Fits : (room : ℕ) (s : Bytes) → Fits room (form_decode room s).1
unfolding form_decode
form_decode-Fits room [] = omega arith
form_decode-Fits zero (c ∷ cs) = omega arith
form_decode-Fits (suc room) (c ∷ cs) = elim (Option-cases (decode_unit c cs)) [
  | inl bad ↦ rw (bad, form_decode) (omega arith)
  | inr ((b, rest), good) ↦ rw (good, form_decode) (omega (arith, form_decode-Fits room rest))
]

c_text_shorter : (s : Bytes) → length (c_text s) ≤ length s
unfolding c_text
c_text_shorter [] = omega arith
c_text_shorter (c ∷ cs) = ground (arith, c_text_shorter cs)

value_of-Fits : (room : ℕ) (v : Option Bytes) → Fits room (value_of room v).text
unfolding decoded
value_of-Fits room none = omega arith
value_of-Fits room (some v) =
    omega (arith, form_decode-Fits room v, c_text_shorter (form_decode room v).1)

find_field-Fits :
    (name : Bytes) (room : ℕ) (ss : List Bytes) → Fits room (find_field name room ss).text
unfolding find_field
find_field-Fits name room [] = omega arith
find_field-Fits name room (s ∷ ss) =
    let field = halves s (split_at b'=' s) in
    elim (Bool-cases (matches name field)) [
      | inl hit ↦ rw hit (value_of-Fits room field.1)
      | inr miss ↦ rw miss (find_field-Fits name room ss)
    ]

-- The text in the array of a form's field is never longer than the array has room for.
pub api_form_get-Fits :
    (body name : Bytes) (room : ℕ) → Fits room (api_form_get body name room).text
unfolding api_form_get
api_form_get-Fits body name room = find_field-Fits name room (segments body)

required_of-IsGiven :
    (name : Bytes) (room : ℕ) (rc : FormRc) (text : Bytes)
    → Fits room text
    → Gives (IsGiven room) (required_of name rc text)
required_of-IsGiven name room FormRc.got [] h = tt
required_of-IsGiven name room FormRc.got (c ∷ cs) h = (refl, h)
required_of-IsGiven name room FormRc.absent text h = tt
required_of-IsGiven name room FormRc.broken text h = tt

pub api_form_required-IsGiven :
    (body name : Bytes) (room : ℕ) → Gives (IsGiven room) (api_form_required body name room)
unfolding api_form_required
api_form_required-IsGiven body name room =
    let g = api_form_get body name room in
    required_of-IsGiven name room g.rc g.text (api_form_get-Fits body name room)

or_empty-Fits :
    (room : ℕ) (rc : FormRc) (text : Bytes) → Fits room text → Fits room (or_empty rc text)
or_empty-Fits room FormRc.got text h = h
or_empty-Fits room FormRc.absent text h = omega arith
or_empty-Fits room FormRc.broken text h = omega arith

pub optional-Fits : (body name : Bytes) → Fits value_room (optional body name)
optional-Fits body name =
    let g = api_form_get body name value_room in
    or_empty-Fits value_room g.rc g.text (api_form_get-Fits body name value_room)

pub or_fail-IsRow :
    (e : Bytes) (m : Result Bytes) → Gives IsRow (m >>= λ text. or_fail e (row_id text))
or_fail-IsRow e (gives text) = or_fail-between e 1 int64_max (api_parse_i64 text)
or_fail-IsRow e (fails e') = tt

pub required_i64-IsRow : (body name : Bytes) → Gives IsRow (api_form_required_i64 body name)
unfolding api_form_required_i64
required_i64-IsRow body name = or_fail-IsRow (invalid name) (api_form_required body name 63)

pub node_pk-IsRow : (body : Bytes) → Gives IsRow (api_form_required_node_pk body)
unfolding api_form_required_node_pk
node_pk-IsRow body =
    let first = api_form_get body (codes "id") 63 in
    let g = or_else_get first.rc first.text (api_form_get body (codes "node_id") 63) in
    or_fail-IsRow (codes "invalid node id") (required_of (codes "id") g.rc g.text)

pub required_u32-IsNumber : (body name : Bytes) → Gives IsNumber (api_parse_required_u32 body name)
unfolding api_parse_required_u32
required_u32-IsNumber body name =
    Gives->>= (IsGiven 63) IsNumber (api_form_required body name 63) _
      (api_form_required-IsGiven body name 63)
      (λ text u. or_fail-between (invalid name) 0 number_max (api_parse_i64 text))

pub optional_of-IsNumber :
    (e : Bytes) (fallback : ℕ) (rc : FormRc) (text : Bytes)
    → IsNumber fallback
    → Gives IsNumber (or_fail e (optional_of fallback rc text))
optional_of-IsNumber e fallback FormRc.absent text h = h
optional_of-IsNumber e fallback FormRc.got [] h = h
optional_of-IsNumber e fallback FormRc.broken [] h = h
optional_of-IsNumber e fallback FormRc.broken (c ∷ cs) h = tt
optional_of-IsNumber e fallback FormRc.got (c ∷ cs) h =
    or_fail-between e 0 number_max (api_parse_i64 (c ∷ cs))

pub optional_u32-IsNumber :
    (e body name : Bytes) (fallback : ℕ)
    → IsNumber fallback
    → Gives IsNumber (optional_u32 e body name fallback)
unfolding api_parse_optional_u32
optional_u32-IsNumber e body name fallback h =
    let g = api_form_get body name 63 in optional_of-IsNumber e fallback g.rc g.text h

mtu_of-IsMtu : (text : Bytes) → Gives IsMtu (mtu_of text)
mtu_of-IsMtu [] = (omega arith, omega arith)
mtu_of-IsMtu (c ∷ cs) =
    or_fail-between (codes "invalid mtu") min_mtu max_mtu (api_parse_i64 (c ∷ cs))

pub optional_mtu-IsMtu : (body : Bytes) → Gives IsMtu (optional_mtu body)
optional_mtu-IsMtu body =
    let g = api_form_get body (codes "mtu") 63 in mtu_of-IsMtu (or_empty g.rc g.text)
