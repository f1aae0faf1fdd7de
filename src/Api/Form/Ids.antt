-- ===== src/Api/Form/Ids.antt =====
-- The number of a row in a form is read back.
use ntap_a.Base.{
  ℕ, zero, suc, ◌+◌, ◌/◌, ◌%◌, ◌≤◌, ◌<◌, ◌≡◌, refl, sym, [], ◌∷◌, append-nil, true, some, length,
  length-append, arith, Bool-cases, inl, inr, All, ltb, le→leb,
}
use ntap_a.Base.Words.{Bytes, IsByte}
use ntap_a.Base.Texts.{codes, bytes_equal, lacks, is_digit}
use ntap_a.Base.Decimal.{
  digits, digits-All, first_digit, show_dec, HasDigits-64, int64_max, strtoll-digits,
}
use ntap_a.Api.Form.{FormRc}
use ntap_a.Api.Form.Lookup.{form_body, lookup, IsField, api_form_get-form_body}
use ntap_a.Api.Fields.{
  gives, required_of, api_form_required, api_form_required_i64, row_id, api_parse_i64, between,
}

length-digits : (f n : ℕ) → length (digits f n) ≤ f
unfolding digits
length-digits zero n = omega arith
length-digits (suc f) n = elim (Bool-cases (ltb n 10)) [
  | inl small ↦ rw small (omega arith)
  | inr big ↦ rw big (
      omega
        (arith, length-digits f (n / 10), length-append (digits f (n / 10)) ((b'0' + n % 10) ∷ [])))
]

digits-text :
    (text : Bytes) → All (λ c. is_digit c ≡ true) text → All IsByte text × (lacks 0 text ≡ true)
unfolding lacks
digits-text [] h = (tt, refl)
digits-text (c ∷ cs) (d, h) =
    let (bs, nz) = digits-text cs h in ((ground (arith, d), bs), ground (arith, d, nz))

id-IsField : (n : ℕ) → IsField 63 (codes "id", show_dec n)
unfolding lacks
id-IsField n =
    let (bs, nz) = digits-text (show_dec n) (digits-All 20 n) in
    (
      ((omega arith, (omega arith, tt)), refl, omega arith),
      refl,
      (bs, nz, omega (arith, length-digits 20 n)),
    )

row_id-show_dec : (n : ℕ) → 0 < n → n ≤ int64_max → row_id (show_dec n) ≡ some n
unfolding api_parse_i64 between
row_id-show_dec n given fits =
    let e = strtoll-digits 19 n [] (HasDigits-64 n (omega (arith, fits))) fits tt in
    rw (sym (append-nil (show_dec n)), e, le→leb 1 n given, le→leb n int64_max fits) refl

required-show_dec : (n : ℕ) → required_of (codes "id") FormRc.got (show_dec n) ≡ gives (show_dec n)
required-show_dec n = let (c, cs, e, d) = first_digit 19 n in rw e refl

pub required_i64-show_dec :
    (n : ℕ)
    → 0 < n
    → n ≤ int64_max
    → api_form_required_i64 (form_body (codes "id", show_dec n) []) (codes "id") ≡ gives n
unfolding api_form_required_i64 api_form_required
required_i64-show_dec n given fits =
    let look : lookup (codes "id") ((codes "id", show_dec n) ∷ []) ≡ some (show_dec n) =
      unfold lookup bytes_equal in refl in
    let g = api_form_get-form_body (codes "id") 63 (codes "id", show_dec n) [] (id-IsField n, tt) in
    rw (g, look, required-show_dec n, row_id-show_dec n given fits) refl
