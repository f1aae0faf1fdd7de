-- ===== src/Api/Http/Sizes.antt =====
-- That a request that was read fits its arrays.
use ntap_a.Base.{
  ℕ, zero, suc, ◌+◌, ◌-◌, ◌≤◌, ◌≡◌, List, [], ◌∷◌, not, ◌||◌, Option, none, some, arith, ltb,
  length, take, drop, length-take, length-append, Bool-cases, Option-cases, inl, inr, Ensures,
  Ensures-elim,
}
use ntap_a.Base.Words.{Bytes}
use ntap_a.Base.Texts.{codes, skip_space, split_at}
use ntap_a.Base.Decimal.{strtoul}
use ntap_a.Net.{Arrival, recv_all}
use ntap_a.Net.Stream.{recv_all-fits}
use ntap_a.Api.{Request, api_body_max, ascii_case_equal, trim_ascii}
use ntap_a.Api.Auth.{is_empty}
use ntap_a.Api.Form.{c_text}
use ntap_a.Api.Fields.{Result, gives, fails, or_fail}
use ntap_a.Api.Endpoint.Reads.{Gives, Gives->>=}
use ntap_a.Api.Http.{
  Head, word, if_given, scan_word, bad_line, request_line, named, with_length, set_header,
  header_line, header_lines, parse_head, with_body, read_head, find_header_end, header_end_of,
  crlf_lines, api_read_request,
}

-- The texts of `api_request_t` with their NUL, and the body, are within what is there for them.
abbrev pub IsSized : Request → Type 0
IsSized r =
    (length r.method ≤ 7)
    × (length r.path ≤ 255)
    × (length r.version ≤ 15)
    × (length r.timestamp ≤ 63)
    × (length r.nonce ≤ 127)
    × (length r.body_sha256 ≤ 64)
    × (length r.sign ≤ 64)
    × (length r.body ≤ api_body_max)

abbrev IsHead : Head → Type 0
IsHead h = IsSized h.request × (h.content_length ≤ api_body_max)

word_length : (n : ℕ) (text : Bytes) → length (word n text).0 ≤ n
unfolding word
word_length zero text = omega arith
word_length (suc n) [] = omega arith
word_length (suc n) (c ∷ cs) = ground (arith, word_length n cs)

if_given_length :
    (n : ℕ) (p : Bytes × Bytes) → length p.0 ≤ n → Ensures (λ q. length q.0 ≤ n) (if_given p)
if_given_length n ([], rest) h = tt
if_given_length n (c ∷ w, rest) h = h

abbrev IsWord : ℕ → Bytes × Bytes → Type 0
IsWord n p = length p.0 ≤ n

or_fail-Gives :
    {A : Type 0} (P : A → Type 0) (e : Bytes) (m : Option A) → Ensures P m → Gives P (or_fail e m)
or_fail-Gives P e none h = tt
or_fail-Gives P e (some a) h = h

scan_word-IsWord : (n : ℕ) (text : Bytes) → Gives (IsWord n) (or_fail bad_line (scan_word n text))
unfolding scan_word
scan_word-IsWord n text =
    or_fail-Gives (IsWord n) bad_line (if_given (word n (skip_space text)))
      (if_given_length n (word n (skip_space text)) (word_length n (skip_space text)))

request_line-IsHead : (line : Bytes) → Gives IsHead (request_line line)
unfolding request_line
request_line-IsHead line = Gives->>= (IsWord 7) IsHead _ _ (scan_word-IsWord 7 line) λ (m, rest) hm.
    Gives->>= (IsWord 255) IsHead _ _ (scan_word-IsWord 255 rest) λ (p, rest) hp.
      Gives->>= (IsWord 15) IsHead _ _ (scan_word-IsWord 15 rest) λ (v, rest) hv.
        ((hm, hp, hv, omega arith, omega arith, omega arith, omega arith, omega arith), omega arith)

take_length : (n : ℕ) (text : Bytes) → length (take n text) ≤ n
take_length n text = omega (arith, length-take n text)

with_length-IsHead : (h : Head) (p : Option (ℕ × Bytes)) → IsHead h → Gives IsHead (with_length h p)
with_length-IsHead h none ok = tt
with_length-IsHead h (some (n, rest)) (sized, small) =
    elim (Bool-cases (not (is_empty rest) || ltb api_body_max n)) [
      | inl bad ↦ rw bad tt
      | inr good ↦ rw good (sized, ground (arith, good))
    ]

set_header-IsHead :
    (h : Head) (name value : Bytes) → IsHead h → Gives IsHead (set_header h name value)
unfolding set_header
set_header-IsHead h name value ((m, p, v, t, n, b, z, y), small) =
    elim (Bool-cases (ascii_case_equal name (codes "Content-Length"))) [
      | inl e ↦ rw e (with_length-IsHead h (strtoul value) ((m, p, v, t, n, b, z, y), small))
      | inr e ↦ elim (Bool-cases (named name (codes "X-NTAP-Timestamp") (codes "timestamp"))) [
        | inl f ↦ rw (e, f) ((m, p, v, take_length 63 value, n, b, z, y), small)
        | inr f ↦ elim (Bool-cases (named name (codes "X-NTAP-Nonce") (codes "nonce"))) [
          | inl g ↦ rw (e, f, g) ((m, p, v, t, take_length 127 value, b, z, y), small)
          | inr g ↦
              elim (Bool-cases (named name (codes "X-NTAP-Body-SHA256") (codes "body_sha256"))) [
                | inl i ↦ rw (e, f, g, i) ((m, p, v, t, n, take_length 64 value, z, y), small)
                | inr i ↦ elim (Bool-cases (named name (codes "X-NTAP-Sign") (codes "api_sign"))) [
                  | inl j ↦ rw (e, f, g, i, j) ((m, p, v, t, n, b, take_length 64 value, y), small)
                  | inr j ↦ rw (e, f, g, i, j) ((m, p, v, t, n, b, z, y), small)
                ]
              ]
        ]
      ]
    ]

header_line-IsHead :
    (h : Head) (p : Option (Bytes × Bytes)) → IsHead h → Gives IsHead (header_line h p)
unfolding header_line
header_line-IsHead h none ok = ok
header_line-IsHead h (some (name, value)) ok =
    set_header-IsHead h (trim_ascii name) (trim_ascii value) ok

header_lines-IsHead : (h : Head) (ls : List Bytes) → IsHead h → Gives IsHead (header_lines h ls)
unfolding header_lines
header_lines-IsHead h [] ok = ok
header_lines-IsHead h (l ∷ ls) ok =
    Gives->>= IsHead IsHead (header_line h (split_at b':' l)) _
      (header_line-IsHead h (split_at b':' l) ok) (λ h' ok'. header_lines-IsHead h' ls ok')

parse_head-IsHead : (lines : List Bytes) → Gives IsHead (parse_head lines)
unfolding parse_head
parse_head-IsHead [] = tt
parse_head-IsHead (line ∷ []) = tt
parse_head-IsHead (line ∷ l ∷ ls) =
    Gives->>= IsHead IsHead (request_line line) _ (request_line-IsHead line)
      (λ h ok. header_lines-IsHead h (l ∷ ls) ok)

-- No more than was asked for.
recv_all_length :
    (n : ℕ) (es : List Arrival) (got : Bytes) → (recv_all n es).0 ≡ some got → length got ≤ n
recv_all_length n es got h =
    Ensures-elim (λ g. length g ≤ n) (recv_all n es).0 (recv_all-fits n es) h

with_body-IsSized :
    (h : Head) (already : Bytes) (n : ℕ) (es : List Arrival)
    → IsHead h
    → length already + n ≤ api_body_max
    → Gives IsSized (with_body h already (recv_all n es).0)
with_body-IsSized h already n es ((m, p, v, t, nn, b, z, y), small) fits =
    elim (Option-cases (recv_all n es).0) [
      | inl failed ↦ rw failed tt
      | inr (more, e) ↦ rw e (
        m,
        p,
        v,
        t,
        nn,
        b,
        z,
        omega (arith, length-append already more, recv_all_length n es more e, fits),
      )
    ]

anything : {A : Type 0} (m : Result A) → Gives (λ a. Unit {0}) m
anything (gives a) = tt
anything (fails e) = tt

-- A request that was read is within the arrays of `api_request_t` and the limit of its body, whatever
-- arrives.
pub api_read_request-IsSized : (es : List Arrival) → Gives IsSized (api_read_request es)
unfolding api_read_request
api_read_request-IsSized es =
    Gives->>= (λ p. Unit {0}) IsSized (read_head [] es) _ (anything (read_head [] es))
      λ (raw, left) u.
        let i = header_end_of (find_header_end raw) in
        let lines = crlf_lines (c_text (take (i + 2) raw)) in
        Gives->>= IsHead IsSized (parse_head lines) _ (parse_head-IsHead lines) λ h ok.
          let already = take h.content_length (drop (i + 4) raw) in
          with_body-IsSized h already (h.content_length - length already) left ok
            (omega (arith, length-take h.content_length (drop (i + 4) raw), ok.1))
