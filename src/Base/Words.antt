-- ===== src/Base/Words.antt =====
-- Machine words, and the big-endian codecs that src/common/proto.c and src/common/wire.c both
-- define: put_be16, put_be32, put_be64, get_be16, get_be32, get_be64. A byte is a number below
-- 256. `(v >> k) & 0xff` is `v / 2 ^ k % 256`; the shifted bytes that a read joins by `|` occupy
-- different bits, so the join is their sum.
use Prim.Native.Nat.{ℕ, ◌+◌, ◌*◌, ◌/◌, ◌%◌, ◌^◌, ◌<◌}
use mathlib.Core.Path.{◌≡◌}
use mathlib.Core.List.{List, [], ◌∷◌, ◌++◌}
use native.Mathlib.Omega.{arith}
use ntap_a.Base.Lists.{get_or}

abbrev pub Bytes : Type 0
Bytes = List ℕ

abbrev pub IsByte : ℕ → Type 0
IsByte b = b < 256

abbrev pub IsU16 : ℕ → Type 0
IsU16 v = v < 2 ^ 16

abbrev pub IsU32 : ℕ → Type 0
IsU32 v = v < 2 ^ 32

abbrev pub IsU64 : ℕ → Type 0
IsU64 v = v < 2 ^ 64

-- `in[i]`
abbrev pub byte_at : Bytes → ℕ → ℕ
byte_at bs i = get_or bs i 0

abbrev pub put_be16 : ℕ → Bytes
put_be16 v = (v / 2 ^ 8 % 256) ∷ (v % 256) ∷ []

abbrev pub put_be32 : ℕ → Bytes
put_be32 v = (v / 2 ^ 24 % 256) ∷ (v / 2 ^ 16 % 256) ∷ (v / 2 ^ 8 % 256) ∷ (v % 256) ∷ []

abbrev pub put_be64 : ℕ → Bytes
put_be64 v =
    (v / 2 ^ 56 % 256)
    ∷ (v / 2 ^ 48 % 256)
    ∷ (v / 2 ^ 40 % 256)
    ∷ (v / 2 ^ 32 % 256)
    ∷ (v / 2 ^ 24 % 256)
    ∷ (v / 2 ^ 16 % 256)
    ∷ (v / 2 ^ 8 % 256)
    ∷ (v % 256)
    ∷ []

unfoldable pub get_be16 : Bytes → ℕ
get_be16 bs = byte_at bs 0 * 2 ^ 8 + byte_at bs 1

unfoldable pub get_be32 : Bytes → ℕ
get_be32 bs = byte_at bs 0 * 2 ^ 24 + byte_at bs 1 * 2 ^ 16 + byte_at bs 2 * 2 ^ 8 + byte_at bs 3

unfoldable pub get_be64 : Bytes → ℕ
get_be64 bs =
    byte_at bs 0 * 2 ^ 56
    + byte_at bs 1 * 2 ^ 48
    + byte_at bs 2 * 2 ^ 40
    + byte_at bs 3 * 2 ^ 32
    + byte_at bs 4 * 2 ^ 24
    + byte_at bs 5 * 2 ^ 16
    + byte_at bs 6 * 2 ^ 8
    + byte_at bs 7

pub get_be16-put_be16 : (v : ℕ) (rest : Bytes) → IsU16 v → get_be16 (put_be16 v ++ rest) ≡ v
unfolding get_be16
get_be16-put_be16 v rest h = omega arith

pub get_be32-put_be32 : (v : ℕ) (rest : Bytes) → IsU32 v → get_be32 (put_be32 v ++ rest) ≡ v
unfolding get_be32
get_be32-put_be32 v rest h = omega arith

pub get_be64-put_be64 : (v : ℕ) (rest : Bytes) → IsU64 v → get_be64 (put_be64 v ++ rest) ≡ v
unfolding get_be64
get_be64-put_be64 v rest h = omega arith
