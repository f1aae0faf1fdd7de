-- ===== src/Api/Form/Codec.antt =====
-- A form as a client writes it, and that form_decode reads it back.
use ntap_a.Base.{
  ℕ, zero, suc, ◌+◌, ◌-◌, ◌*◌, ◌/◌, ◌%◌, ◌≤◌, ◌<◌, ◌≡◌, refl, ap, ◌∙◌, [], ◌∷◌, Bool, true, false,
  ◌&&◌, ◌||◌, some, arith, ltb, leb, ◌==◌, if◌then◌else◌, length, All, Bool-cases, inl, inr,
}
use ntap_a.Base.Words.{Bytes, IsByte}
use ntap_a.Base.Texts.{is_digit, lacks}
use ntap_a.Api.Form.{hex_digit_value, escape, decode_unit, form_decode, c_text}

-- encodeURIComponent leaves letters, digits and some signs alone; this leaves letters and digits.
abbrev pub is_plain : ℕ → Bool
is_plain c = is_digit c || leb b'a' c && leb c b'z' || leb b'A' c && leb c b'Z'

abbrev pub hex_digit : ℕ → ℕ
hex_digit d = if ltb d 10 then b'0' + d else b'A' + (d - 10)

abbrev pub encode_unit : ℕ → Bytes → Bytes
encode_unit c rest =
    if is_plain c
    then c ∷ rest
    else if c == b' '
    then b'+' ∷ rest
    else b'%' ∷ hex_digit (c / 16) ∷ hex_digit (c % 16) ∷ rest

unfoldable pub form_encode : Bytes → Bytes
form_encode [] = []
form_encode (c ∷ cs) = let rest = form_encode cs in encode_unit c rest

hex_digit_value-hex_digit : (d : ℕ) → d < 16 → hex_digit_value (hex_digit d) ≡ some d
unfolding hex_digit_value
hex_digit_value-hex_digit d h = elim (Bool-cases (ltb d 10)) [
  | inl small ↦ ground (arith, small)
  | inr large ↦ ground (arith, large)
]

escape-hex_digits :
    (c : ℕ) (rest : Bytes)
    → IsByte c
    → escape (hex_digit (c / 16) ∷ hex_digit (c % 16) ∷ rest) ≡ some (c, rest)
unfolding escape
escape-hex_digits c rest h =
    let hi = hex_digit_value-hex_digit (c / 16) (omega (arith, h)) in
    let lo = hex_digit_value-hex_digit (c % 16) (omega arith) in
    let e : c / 16 * 16 + c % 16 ≡ c = omega arith in rw (hi, lo) (ap (λ v. some (v, rest)) e)

decode_unit-encode_unit :
    (c : ℕ) (rest : Bytes)
    → IsByte c
    → (d : ℕ) × (more : Bytes) × (encode_unit c rest ≡ d ∷ more)
      × (decode_unit d more ≡ some (c, rest))
unfolding decode_unit
decode_unit-encode_unit c rest h = elim (Bool-cases (is_plain c)) [
  | inl plain ↦ (c, rest, rw plain refl, ground (arith, plain))
  | inr special ↦ elim (Bool-cases (c == b' ')) [
    | inl space ↦ (b'+', rest, rw (special, space) refl, ground (arith, space))
    | inr other ↦ (
      b'%',
      hex_digit (c / 16) ∷ hex_digit (c % 16) ∷ rest,
      rw (special, other) refl,
      escape-hex_digits c rest h,
    )
  ]
]

-- A text of bytes, written with `+` for a blank and `%` and two digits for what is no letter or
-- digit, is what `form_decode` gives into an array with room for it.
pub form_decode-form_encode :
    (room : ℕ) (text : Bytes)
    → All IsByte text
    → length text ≤ room
    → form_decode room (form_encode text) ≡ (true, text)
unfolding form_decode form_encode
form_decode-form_encode room [] bytes fits = refl
form_decode-form_encode zero (c ∷ cs) bytes fits = absurd (omega (arith, fits))
form_decode-form_encode (suc room) (c ∷ cs) (b, bytes) fits =
    let (d, more, e, u) = decode_unit-encode_unit c (form_encode cs) b in
    let rest = form_decode-form_encode room cs bytes (omega (arith, fits)) in
    rw (e, u, rest, form_decode) refl

pub c_text-lacks : (text : Bytes) → lacks 0 text ≡ true → c_text text ≡ text
unfolding c_text lacks
c_text-lacks [] h = refl
c_text-lacks (c ∷ cs) h =
    let e : (c == 0) ≡ false = ground (arith, h) in rw (e, c_text-lacks cs (ground (arith, h))) refl

hex_digit_no_separator :
    (d : ℕ) → d < 16 → ((hex_digit d == b'&') ≡ false) × ((hex_digit d == b'=') ≡ false)
hex_digit_no_separator d h = elim (Bool-cases (ltb d 10)) [
  | inl small ↦ (ground (arith, small), ground (arith, small))
  | inr large ↦ (ground (arith, large), ground (arith, large))
]

encode_unit-lacks :
    (c : ℕ) (rest : Bytes)
    → IsByte c
    → (lacks b'&' (encode_unit c rest) ≡ lacks b'&' rest)
      × (lacks b'=' (encode_unit c rest) ≡ lacks b'=' rest)
unfolding lacks
encode_unit-lacks c rest h = elim (Bool-cases (is_plain c)) [
  | inl plain ↦ (ground (arith, plain), ground (arith, plain))
  | inr special ↦ elim (Bool-cases (c == b' ')) [
    | inl space ↦ (rw (special, space) refl, rw (special, space) refl)
    | inr other ↦
        let (hi, hi') = hex_digit_no_separator (c / 16) (omega (arith, h)) in
        let (lo, lo') = hex_digit_no_separator (c % 16) (omega arith) in
        (rw (special, other, hi, lo) refl, rw (special, other, hi', lo') refl)
  ]
]

-- What is encoded holds neither separator of a form.
pub form_encode-lacks :
    (text : Bytes)
    → All IsByte text
    → (lacks b'&' (form_encode text) ≡ true) × (lacks b'=' (form_encode text) ≡ true)
unfolding form_encode lacks
form_encode-lacks [] h = (refl, refl)
form_encode-lacks (c ∷ cs) (b, h) =
    let (amp, eq) = form_encode-lacks cs h in
    let (amp', eq') = encode_unit-lacks c (form_encode cs) b in (amp' ∙ amp, eq' ∙ eq)
