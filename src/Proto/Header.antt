-- ===== src/Proto/Header.antt =====
-- The message header through `hdr_encode` and `hdr_decode`.
use ntap_a.Base.{◌++◌, ◌≡◌, refl, [], ◌∷◌, arith, All, length}
use ntap_a.Base.Words.{
  Bytes, IsByte, IsU16, IsU32, get_be16, get_be32, get_be16-put_be16, get_be32-put_be32,
}
use ntap_a.Proto.{Hdr, ok, hdr_check, hdr_bytes, hdr_fields, hdr_encode, hdr_decode, hdr_size}

-- Each field is in the range of its C type.
pub record IsInRange (hdr : Hdr) : Type 0 where
  pub magic : IsU32 hdr.magic
  pub version : IsByte hdr.version
  pub type : IsByte hdr.type
  pub flags : IsU16 hdr.flags
  pub session_id : IsU32 hdr.session_id
  pub length : IsU32 hdr.length

hdr_fields-hdr_bytes :
    (hdr : Hdr) (rest : Bytes) → IsInRange hdr → hdr_fields (hdr_bytes hdr ++ rest) ≡ hdr
unfolding hdr_fields hdr_bytes get_be16 get_be32
hdr_fields-hdr_bytes hdr rest r = ground (
  arith,
  get_be32-put_be32 hdr.magic [],
  get_be16-put_be16 hdr.flags [],
  get_be32-put_be32 hdr.session_id [],
  get_be32-put_be32 hdr.length [],
)

hdr_bytes-hdr_fields :
    (bs : Bytes) → length bs ≡ hdr_size → All IsByte bs → hdr_bytes (hdr_fields bs) ≡ bs
unfolding hdr_fields hdr_bytes get_be16 get_be32
hdr_bytes-hdr_fields (a ∷ b ∷ c ∷ d ∷ e ∷ f ∷ g ∷ h ∷ i ∷ j ∷ k ∷ l ∷ m ∷ n ∷ o ∷ p ∷ []) size r =
    ground arith
hdr_bytes-hdr_fields _ size r = absurd (omega arith)

hdr_encode_ok :
    (hdr : Hdr) (bs : Bytes)
    → hdr_encode hdr ≡ (ok, bs)
    → (hdr_check hdr ≡ ok) × (bs ≡ hdr_bytes hdr)
unfolding hdr_encode
hdr_encode_ok hdr bs e = ground arith

-- A header that `hdr_encode` accepts takes 16 bytes, and `hdr_decode` reads the same header back
-- from them, whatever follows.
pub hdr_decode-hdr_encode :
    (hdr : Hdr) (bs rest : Bytes)
    → IsInRange hdr
    → hdr_encode hdr ≡ (ok, bs)
    → (length bs ≡ hdr_size) × (hdr_decode (bs ++ rest) ≡ (ok, hdr))
unfolding hdr_decode
hdr_decode-hdr_encode hdr bs rest r e =
    let (c, b) = hdr_encode_ok hdr bs e in
    (rw b (unfold hdr_bytes in refl), rw (b, hdr_fields-hdr_bytes hdr rest r, c))

-- 16 bytes that `hdr_decode` accepts are the encoding of the header that it returns.
pub hdr_encode-hdr_decode :
    (bs : Bytes) (hdr : Hdr)
    → length bs ≡ hdr_size
    → All IsByte bs
    → hdr_decode bs ≡ (ok, hdr)
    → hdr_encode hdr ≡ (ok, bs)
unfolding hdr_encode hdr_decode
hdr_encode-hdr_decode bs hdr n b e = ground (arith, hdr_bytes-hdr_fields bs n b)
