-- ===== src/Api/Form.antt =====
-- The fields of a request's body, application/x-www-form-urlencoded: hex_digit_value to
-- api_form_get of src/a/api_server.c.
pub mod Codec
pub mod Lookup
pub mod Ids
use ntap_a.Base.{
  ℕ, zero, suc, ◌+◌, ◌-◌, ◌*◌, ◌≡◌, List, [], ◌∷◌, ◌++◌, Bool, true, false, not, ◌&&◌, ◌||◌, Option,
  none, some, ltb, leb, ◌==◌, if◌then◌else◌, length,
}
use ntap_a.Base.Words.{Bytes}
use ntap_a.Base.Texts.{codes, bytes_equal, split_at, is_xdigit, is_digit}
use ntap_a.Api.Auth.{is_empty}

-- `none` is the -1.
unfoldable pub hex_digit_value : ℕ → Option ℕ
hex_digit_value c =
    if is_digit c
    then some (c - b'0')
    else if leb b'a' c && leb c b'f'
    then some (c - b'a' + 10)
    else if leb b'A' c && leb c b'F'
    then some (c - b'A' + 10)
    else none

abbrev pub joined : Option ℕ → Option ℕ → Bytes → Option (ℕ × Bytes)
joined (some hi) (some lo) rest = some (hi * 16 + lo, rest)
joined _ _ rest = none

-- What a `%` and the characters behind it stand for, and what comes next.
unfoldable pub escape : Bytes → Option (ℕ × Bytes)
escape [] = none
escape (h ∷ []) = none
escape (h ∷ l ∷ rest) = joined (hex_digit_value h) (hex_digit_value l) rest

unfoldable pub decode_unit : ℕ → Bytes → Option (ℕ × Bytes)
decode_unit c cs =
    if c == b'+' then some (b' ', cs) else if c == b'%' then escape cs else some (c, cs)

-- `form_decode` into an array with room for `room` bytes and the NUL: whether it succeeds, and the
-- bytes that it has written either way.
unfoldable pub form_decode : ℕ → Bytes → Bool × Bytes
form_decode room [] = (true, [])
form_decode zero (c ∷ cs) = (false, [])
form_decode (suc room) (c ∷ cs) = elim (decode_unit c cs) [
  | none ↦ (false, [])
  | some (b, rest) ↦ let (ok, out) = form_decode room rest in (ok, b ∷ out)
]

-- The C text that stands in an array with these bytes: a decoded "%00" ends it.
unfoldable pub c_text : Bytes → Bytes
c_text [] = []
c_text (c ∷ cs) = let rest = c_text cs in if c == 0 then [] else c ∷ rest

-- What `api_form_get` returns: 0, 1 and -1.
pub data FormRc : Type 0 where
  got : FormRc
  absent : FormRc
  broken : FormRc

-- With the text in `out`; of a value that is `broken` only its first character is ever read.
pub record Got : Type 0 where
  pub rc : FormRc
  pub text : Bytes

unfoldable pub decoded : Bool × Bytes → Got
decoded (ok, out) = record { rc = if ok then FormRc.got else FormRc.broken; text = c_text out }

abbrev pub key_is : Bytes → Bool × Bytes → Bool
key_is name (ok, key) = ok && bytes_equal (c_text key) name

-- The parts of the body between the `&`.
abbrev pub put_first : ℕ → List Bytes → List Bytes
put_first c [] = (c ∷ []) ∷ []
put_first c (s ∷ ss) = (c ∷ s) ∷ ss

unfoldable pub segments : Bytes → List Bytes
segments [] = [] ∷ []
segments (c ∷ cs) = let rest = segments cs in if c == b'&' then [] ∷ rest else put_first c rest

-- A part's name, and its value where there is a `=`.
abbrev pub halves : Bytes → Option (Bytes × Bytes) → Bytes × Option Bytes
halves segment none = (segment, none)
halves segment (some (k, v)) = (k, some v)

abbrev pub value_of : ℕ → Option Bytes → Got
value_of room none = record { rc = FormRc.got; text = [] }
value_of room (some v) = decoded (form_decode room v)

abbrev pub matches : Bytes → Bytes × Option Bytes → Bool
matches name (k, v) = not (is_empty k) && key_is name (form_decode 127 k)

unfoldable pub find_field : Bytes → ℕ → List Bytes → Got
find_field name room [] = record { rc = FormRc.absent; text = [] }
find_field name room (s ∷ ss) =
    let field = halves s (split_at b'=' s) in
    let rest = find_field name room ss in if matches name field then value_of room field.1 else rest

-- `api_form_get` into an array of `room + 1` bytes.
unfoldable pub api_form_get : Bytes → Bytes → ℕ → Got
api_form_get body name room = find_field name room (segments body)
