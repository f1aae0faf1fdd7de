-- ===== src/Api/Http.antt =====
-- How a request to the management API is read: find_header_end and api_read_request of
-- src/a/api_server.c. The socket is the list of arrivals of src/common/net.c; `malloc` for the body is
-- taken to succeed.
pub mod Sizes
use ntap_a.Base.{
  ℕ, zero, suc, ◌+◌, ◌-◌, ◌*◌, List, [], ◌∷◌, ◌++◌, Bool, true, false, not, ◌&&◌, ◌||◌, Option,
  none, some, ltb, leb, ◌==◌, if◌then◌else◌, length, take, drop,
}
use ntap_a.Base.Words.{Bytes}
use ntap_a.Base.Texts.{codes, is_space, skip_space, split_at}
use ntap_a.Base.Decimal.{strtoul}
use ntap_a.Net.{Arrival, put_back, recv_all}
use ntap_a.Api.{Request, api_body_max, sha256_hex_size, ascii_case_equal, trim_ascii, copy_to}
use ntap_a.Api.Auth.{is_empty}
use ntap_a.Api.Form.{c_text, put_first}
use ntap_a.Api.Fields.{Result, gives, fails, ◌>>=◌, ◌>>◌, check, or_fail}

abbrev pub api_header_max : ℕ
api_header_max = 8192

abbrev pub starts_end : Bytes → Bool
starts_end (a ∷ b ∷ c ∷ d ∷ rest) = a == 13 && b == 10 && c == 13 && d == 10
starts_end _ = false

-- The index of the first empty line's "\r\n\r\n".
unfoldable pub find_header_end : Bytes → Option ℕ
find_header_end [] = none
find_header_end (c ∷ cs) =
    let later = find_header_end cs in
    if starts_end (c ∷ cs) then some 0 else (elim later [ none ↦ none | some i ↦ some (suc i) ])

abbrev pub is_found : Option ℕ → Bool
is_found none = false
is_found (some i) = true

-- The loop of `recv` into `raw` until the header is complete: what was read, and what is left.
unfoldable pub read_head : Bytes → List Arrival → Result (Bytes × List Arrival)
read_head raw [] = fails (codes "api read failed")
read_head raw (Arrival.error ∷ es) = fails (codes "api read failed")
read_head raw (Arrival.would_block w ∷ es) = fails (codes "api read failed")
read_head raw (Arrival.bytes b bs ∷ es) =
    let room = api_header_max - length raw in
    let raw' = raw ++ take room (b ∷ bs) in
    let rest = read_head raw' es in
    if is_found (find_header_end raw')
    then gives (raw', put_back (drop room (b ∷ bs)) es)
    else if leb api_header_max (length raw')
    then fails (codes "api request header too large")
    else rest

-- The texts between the "\r\n".
abbrev pub starts_lf : Bytes → Bool
starts_lf [] = false
starts_lf (c ∷ cs) = c == 10

abbrev pub drop_first : List Bytes → List Bytes
drop_first [] = []
drop_first (l ∷ ls) = drop 1 l ∷ ls

unfoldable pub crlf_lines : Bytes → List Bytes
crlf_lines [] = [] ∷ []
crlf_lines (c ∷ cs) =
    let rest = crlf_lines cs in
    if c == 13 && starts_lf cs then [] ∷ drop_first rest else put_first c rest

-- "%<n>s" of `sscanf`: the word, and what is behind it.
unfoldable pub word : ℕ → Bytes → Bytes × Bytes
word zero text = ([], text)
word (suc n) [] = ([], [])
word (suc n) (c ∷ cs) =
    let (w, rest) = word n cs in if is_space c then ([], c ∷ cs) else (c ∷ w, rest)

abbrev pub if_given : Bytes × Bytes → Option (Bytes × Bytes)
if_given ([], rest) = none
if_given (c ∷ w, rest) = some (c ∷ w, rest)

unfoldable pub scan_word : ℕ → Bytes → Option (Bytes × Bytes)
scan_word n text = if_given (word n (skip_space text))

-- The request without its body, and `content_length`.
pub record Head : Type 0 where
  pub request : Request
  pub content_length : ℕ

abbrev pub bad_line : Bytes
bad_line = codes "bad api request line"

unfoldable pub request_line : Bytes → Result Head
request_line line = do
  (method, rest) ← or_fail bad_line (scan_word 7 line)
  (path, rest) ← or_fail bad_line (scan_word 255 rest)
  (version, rest) ← or_fail bad_line (scan_word 15 rest)
  gives record {
    request = record {
      method = method;
      path = path;
      version = version;
      timestamp = [];
      nonce = [];
      body_sha256 = [];
      sign = [];
      body = [];
    };
    content_length = 0;
  }

abbrev pub named : Bytes → Bytes → Bytes → Bool
named name a b = ascii_case_equal name a || ascii_case_equal name b

abbrev pub with_length : Head → Option (ℕ × Bytes) → Result Head
with_length h none = fails (codes "invalid content length")
with_length h (some (n, rest)) =
    if not (is_empty rest) || ltb api_body_max n
    then fails (codes "invalid content length")
    else gives record h { content_length = n }

-- What a header with this name and value sets.
unfoldable pub set_header : Head → Bytes → Bytes → Result Head
set_header h name value =
    if ascii_case_equal name (codes "Content-Length")
    then with_length h (strtoul value)
    else if named name (codes "X-NTAP-Timestamp") (codes "timestamp")
    then gives record h { request = record h.request { timestamp = copy_to 64 value } }
    else if named name (codes "X-NTAP-Nonce") (codes "nonce")
    then gives record h { request = record h.request { nonce = copy_to 128 value } }
    else if named name (codes "X-NTAP-Body-SHA256") (codes "body_sha256")
    then gives
        record h { request = record h.request { body_sha256 = copy_to sha256_hex_size value } }
    else if named name (codes "X-NTAP-Sign") (codes "api_sign")
    then gives record h { request = record h.request { sign = copy_to sha256_hex_size value } }
    else gives h

unfoldable pub header_line : Head → Option (Bytes × Bytes) → Result Head
header_line h none = gives h
header_line h (some (name, value)) = set_header h (trim_ascii name) (trim_ascii value)

unfoldable pub header_lines : Head → List Bytes → Result Head
header_lines h [] = gives h
header_lines h (l ∷ ls) = header_line h (split_at b':' l) >>= λ h'. header_lines h' ls

-- The text of the header: a request line that ends in "\r\n", and the other lines.
unfoldable pub parse_head : List Bytes → Result Head
parse_head (line ∷ l ∷ ls) = request_line line >>= λ h. header_lines h (l ∷ ls)
parse_head _ = fails bad_line

abbrev pub with_body : Head → Bytes → Option Bytes → Result Request
with_body h already none = fails (codes "connection closed")
with_body h already (some more) = gives record h.request { body = already ++ more }

abbrev pub header_end_of : Option ℕ → ℕ
header_end_of none = 0
header_end_of (some i) = i

-- `api_read_request`; of the texts that `ntap_recv_all` may leave in `err`, only the first is told.
unfoldable pub api_read_request : List Arrival → Result Request
api_read_request es = do
  (raw, left) ← read_head [] es
  let i = header_end_of (find_header_end raw)
  h ← parse_head (crlf_lines (c_text (take (i + 2) raw)))
  let already = take h.content_length (drop (i + 4) raw)
  with_body h already (recv_all (h.content_length - length already) left).0
