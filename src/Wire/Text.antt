-- ===== src/Wire/Text.antt =====
-- Strings on the wire, and the end of an encoder.
use ntap_a.Base.{
  ℕ, ◌+◌, ◌≤◌, ◌<◌, ◌≡◌, refl, ap, [], ◌∷◌, ◌++◌, Bool, Option, some, arith, length, length-append,
  le→ltb, length-take, length-drop, ◌∙◌, append-nil, ◌>>=◌, take-append_self, drop-append_self,
  drop,
}
use ntap_a.Base.Words.{Bytes, put_be16, get_be16, get_be16-put_be16}
use ntap_a.Buffer.{Buffer, append, size_max}
use ntap_a.Buffer.Writes.{Granted, Pending, append-Pending, append-then}
use ntap_a.Wire.{c_string, strlen, append_string, read_string, emit}

-- A string as it is sent: its length in two bytes, then its bytes.
abbrev pub field : Bytes → Bytes
field value = put_be16 (strlen value) ++ c_string value

pub c_string-c_string : (bs : Bytes) → c_string (c_string bs) ≡ c_string bs
unfolding c_string
c_string-c_string [] = refl
c_string-c_string (b ∷ bs) = ground (arith, c_string-c_string bs)

module _ {alloc : ℕ → Bool} (granted : Granted alloc) {total : Bytes}
    (small : length total ≤ size_max) where
  append_string-eq :
      (value rest : Bytes) (buf : Buffer)
      → strlen value ≤ 65535
      → Pending total (field value ++ rest) buf
      → (b : Buffer) × (append_string alloc buf value ≡ some b) × Pending total rest b
  unfolding append_string
  append_string-eq value rest buf h p =
      let size = put_be16 (strlen value) in
      let (b, e, q) = append-Pending granted small size (c_string value ++ rest) buf p in
      let (c, e', q') = append-Pending granted small (c_string value) rest b q in
      (c, rw (le→ltb 65535 (strlen value) h, e, e') refl, q')

  -- `if (append_string(...) != 0) goto done;` goes on, where the text has at most 65535 bytes.
  pub append_string-then {ℓ} :
      {A : Type ℓ} (value rest : Bytes) {buf : Buffer} {f : Buffer → Option A} {r : Option A}
      → strlen value ≤ 65535
      → Pending total (field value ++ rest) buf
      → ((b : Buffer) → Pending total rest b → f b ≡ r)
      → (append_string alloc buf value >>= f) ≡ r
  unfolding append_string
  append_string-then value rest {buf} {f} h p k =
      let (b, ok, q) = append_string-eq value rest buf h p in ap (λ o. o >>= f) ok ∙ k b q

  -- The copy at the end of an encoder.
  pub emit-eq :
      (cap : ℕ) (buf : Buffer)
      → length total ≤ cap
      → Pending total [] buf
      → emit cap buf ≡ some total
  unfolding emit
  emit-eq cap buf h p = ground (arith, append-nil buf.bytes)

  -- The last append of an encoder, and the copy.
  pub append-emit :
      (cap : ℕ) (last : Bytes) {buf : Buffer}
      → length total ≤ cap
      → Pending total last buf
      → (append alloc buf last >>= emit cap) ≡ some total
  append-emit cap last h (v, e) =
      append-then granted small last [] (v, rw append-nil e) (λ b p. emit-eq cap b h p)

-- A string that fits the array is read back, and what follows it is left.
pub read_string-field :
    (out_len : ℕ) (value rest : Bytes)
    → strlen value < out_len
    → strlen value ≤ 65535
    → read_string out_len (field value ++ rest) ≡ some (c_string value, rest)
unfolding read_string
read_string-field out_len value rest h s = ground (
  arith,
  get_be16-put_be16 (strlen value) (c_string value ++ rest),
  length-append (c_string value) rest,
  take-append_self (strlen value) (c_string value) rest refl,
  drop-append_self (strlen value) (c_string value) rest refl,
)

-- What `read_string` copies fits the array with its NUL, and it takes the length and the text.
pub read_string_bounds :
    (out_len : ℕ) (payload text rest : Bytes)
    → read_string out_len payload ≡ some (text, rest)
    → (length text < out_len) × (length payload ≡ 2 + length text + length rest)
unfolding read_string
read_string_bounds out_len payload text rest e = ground (
  arith,
  length-take (get_be16 payload) (drop 2 payload),
  length-drop (get_be16 payload) (drop 2 payload),
  length-drop 2 payload,
)
