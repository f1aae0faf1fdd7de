-- ===== src/Api/Form/Lookup.antt =====
-- That api_form_get finds the first field of a name in a form, and reads its value.
use ntap_a.Base.{
  ℕ, ◌≤◌, ◌≡◌, refl, ap, ◌∙◌, List, [], ◌∷◌, ◌++◌, map, true, false, Option, none, some, arith,
  ◌==◌, if◌then◌else◌, length, All, Bool-cases, inl, inr,
}
use ntap_a.Base.Words.{Bytes, IsByte}
use ntap_a.Base.Texts.{bytes_equal, lacks, split_at, split_at-append}
use ntap_a.Api.Auth.{is_empty}
use ntap_a.Api.Form.{
  FormRc, Got, decoded, segments, halves, value_of, matches, find_field, api_form_get,
}
use ntap_a.Api.Form.Codec.{
  encode_unit, form_encode, form_decode-form_encode, form_encode-lacks, c_text-lacks,
}

-- A field of a form: its name and its value.
abbrev pub Field : Type 0
Field = Bytes × Bytes

abbrev pub form_part : Field → Bytes
form_part (name, value) = form_encode name ++ (b'=' ∷ form_encode value)

-- A form with one field or more.
unfoldable pub form_body : Field → List Field → Bytes
form_body f [] = form_part f
form_body f (g ∷ gs) = form_part f ++ (b'&' ∷ form_body g gs)

-- The value of the first field with the name.
unfoldable pub lookup : Bytes → List Field → Option Bytes
lookup name [] = none
lookup name ((k, v) ∷ fs) = if bytes_equal k name then some v else lookup name fs

abbrev pub of_lookup : Option Bytes → Got
of_lookup none = record { rc = FormRc.absent; text = [] }
of_lookup (some v) = record { rc = FormRc.got; text = v }

-- A C text of at most n bytes.
abbrev pub IsText : ℕ → Bytes → Type 0
IsText n text = All IsByte text × (lacks 0 text ≡ true) × (length text ≤ n)

-- A field with a name that the code has room for, and a value of at most n bytes.
abbrev pub IsField : ℕ → Field → Type 0
IsField n (name, value) = IsText 127 name × (is_empty name ≡ false) × IsText n value

lacks-append : (c : ℕ) (l r : Bytes) → lacks c l ≡ true → lacks c r ≡ true → lacks c (l ++ r) ≡ true
unfolding lacks
lacks-append c [] r hl hr = hr
lacks-append c (x ∷ xs) r hl hr = ground (arith, lacks-append c xs r)

form_part-lacks : (n : ℕ) (f : Field) → IsField n f → lacks b'&' (form_part f) ≡ true
unfolding lacks
form_part-lacks n (name, value) ((nb, nz, ns), given, (vb, vz, vs)) =
    lacks-append b'&' (form_encode name) (b'=' ∷ form_encode value) (form_encode-lacks name nb).0
      (form_encode-lacks value vb).0

segments-lacks : (s : Bytes) → lacks b'&' s ≡ true → segments s ≡ s ∷ []
unfolding segments lacks
segments-lacks [] h = refl
segments-lacks (c ∷ cs) h =
    let e : (c == b'&') ≡ false = ground (arith, h) in
    rw (e, segments-lacks cs (ground (arith, h))) refl

segments-append :
    (s rest : Bytes) → lacks b'&' s ≡ true → segments (s ++ (b'&' ∷ rest)) ≡ s ∷ segments rest
unfolding segments lacks
segments-append [] rest h = refl
segments-append (c ∷ cs) rest h =
    let e : (c == b'&') ≡ false = ground (arith, h) in
    rw (e, segments-append cs rest (ground (arith, h))) refl

segments-form_body :
    (n : ℕ) (f : Field) (fs : List Field)
    → IsField n f
    → All (IsField n) fs
    → segments (form_body f fs) ≡ map form_part (f ∷ fs)
unfolding form_body
segments-form_body n f [] hf h = segments-lacks (form_part f) (form_part-lacks n f hf)
segments-form_body n f (g ∷ gs) hf (hg, hs) =
    segments-append (form_part f) (form_body g gs) (form_part-lacks n f hf)
    ∙ ap (λ r. form_part f ∷ r) (segments-form_body n g gs hg hs)

encode_unit-given : (c : ℕ) (rest : Bytes) → is_empty (encode_unit c rest) ≡ false
encode_unit-given c rest = ground arith

form_encode-given : (text : Bytes) → is_empty text ≡ false → is_empty (form_encode text) ≡ false
unfolding form_encode
form_encode-given [] h = h
form_encode-given (c ∷ cs) h = encode_unit-given c (form_encode cs)

matches-form_part :
    (n : ℕ) (name k v : Bytes)
    → IsField n (k, v)
    → matches name (form_encode k, some (form_encode v)) ≡ bytes_equal k name
matches-form_part n name k v ((kb, kz, ks), given, vt) =
    rw (form_encode-given k given, form_decode-form_encode 127 k kb ks, c_text-lacks k kz) refl

value_of-form_part :
    (n : ℕ) (v : Bytes)
    → IsText n v
    → value_of n (some (form_encode v)) ≡ record { rc = FormRc.got; text = v }
unfolding decoded
value_of-form_part n v (vb, vz, vs) = rw (form_decode-form_encode n v vb vs, c_text-lacks v vz) refl

halves-form_part :
    (n : ℕ) (k v : Bytes)
    → IsField n (k, v)
    → halves (form_part (k, v)) (split_at b'=' (form_part (k, v)))
      ≡ (form_encode k, some (form_encode v))
halves-form_part n k v ((kb, kz, ks), given, vt) =
    rw (split_at-append b'=' (form_encode k) (form_encode v) (form_encode-lacks k kb).1) refl

find_field-parts :
    (name : Bytes) (n : ℕ) (fs : List Field)
    → All (IsField n) fs
    → find_field name n (map form_part fs) ≡ of_lookup (lookup name fs)
unfolding find_field lookup
find_field-parts name n [] h = refl
find_field-parts name n ((k, v) ∷ fs) (hf, h) =
    let (ht, given, vt) = hf in
    let rest = find_field-parts name n fs h in
    elim (Bool-cases (bytes_equal k name)) [
      | inl same ↦
          rw (halves-form_part n k v hf, matches-form_part n name k v hf, same)
            (value_of-form_part n v vt)
      | inr other ↦ rw (halves-form_part n k v hf, matches-form_part n name k v hf, other) rest
    ]

-- In the form of a client whose names are C texts of 1 to 127 bytes and whose values fit into the
-- array, `api_form_get` finds what the first field of that name holds, and nothing where there is none.
pub api_form_get-form_body :
    (name : Bytes) (n : ℕ) (f : Field) (fs : List Field)
    → All (IsField n) (f ∷ fs)
    → api_form_get (form_body f fs) name n ≡ of_lookup (lookup name (f ∷ fs))
unfolding api_form_get
api_form_get-form_body name n f fs (hf, h) =
    ap (find_field name n) (segments-form_body n f fs hf h)
    ∙ find_field-parts name n (f ∷ fs) (hf, h)
