-- ===== src/Base/Texts.antt =====
-- C texts as the lists of their bytes, without the NUL at their end, and what the sources use of
-- <ctype.h> and <string.h> on them, in the C locale.
use Prim.Native.Nat.{ℕ, ◌+◌}
use Prim.Native.Char.{code}
use Prim.Native.String.{String}
use mathlib.Core.Path.{◌≡◌, refl}
use mathlib.Core.Logic.{◌↔◌}
use mathlib.Core.Bool.{Bool, true, false, not, ◌&&◌, ◌||◌}
use mathlib.Core.Option.{Option, none, some}
use mathlib.Core.List.{[], ◌∷◌, ◌++◌}
use native.Mathlib.Omega.{arith}
use ntap_a.Base.Tests.{◌==◌, leb, if◌then◌else◌}
use ntap_a.Base.Words.{Bytes}

-- The bytes of a literal in ASCII.
abbrev pub codes : String → Bytes
codes String.[] = []
codes (String.◌∷◌ c s) = code c ∷ codes s

-- `memcmp(a, b, n) == 0` of two n-byte arrays, `strcmp(a, b) == 0` of two texts.
unfoldable pub bytes_equal : Bytes → Bytes → Bool
bytes_equal [] [] = true
bytes_equal [] (b ∷ bs) = false
bytes_equal (a ∷ as') [] = false
bytes_equal (a ∷ as') (b ∷ bs) = a == b && bytes_equal as' bs

equal-of : (a b : Bytes) → bytes_equal a b ≡ true → a ≡ b
unfolding bytes_equal
equal-of [] [] h = refl
equal-of [] (b ∷ bs) h = cc
equal-of (a ∷ as') [] h = cc
equal-of (a ∷ as') (b ∷ bs) h = ground (arith, equal-of as' bs)

pub bytes_equal_self : (a : Bytes) → bytes_equal a a ≡ true
unfolding bytes_equal
bytes_equal_self [] = refl
bytes_equal_self (a ∷ as') = ground (arith, bytes_equal_self as')

-- `memcmp` finds no difference exactly between equal byte strings.
pub bytes_equal_iff : (a b : Bytes) → (bytes_equal a b ≡ true) ↔ (a ≡ b)
bytes_equal_iff a b = (equal-of a b, λ e. rw e (bytes_equal_self b))

abbrev pub is_space : ℕ → Bool
is_space c = c == 32 || leb 9 c && leb c 13

abbrev pub is_digit : ℕ → Bool
is_digit c = leb b'0' c && leb c b'9'

abbrev pub is_xdigit : ℕ → Bool
is_xdigit c = is_digit c || leb b'a' c && leb c b'f' || leb b'A' c && leb c b'F'

unfoldable pub to_lower : ℕ → ℕ
to_lower c = if leb b'A' c && leb c b'Z' then c + 32 else c

-- The text from its first character that is no space.
unfoldable pub skip_space : Bytes → Bytes
skip_space [] = []
skip_space (c ∷ cs) = if is_space c then skip_space cs else c ∷ cs

-- The text up to its last character that is no space.
unfoldable pub drop_space : Bytes → Bytes
drop_space [] = []
drop_space (c ∷ cs) = elim (drop_space cs) [
  | [] ↦ if is_space c then [] else c ∷ []
  | d ∷ ds ↦ c ∷ d ∷ ds
]

-- What stands before the first `c` and after it, as `strchr` splits a text.
unfoldable pub split_at : ℕ → Bytes → Option (Bytes × Bytes)
split_at c [] = none
split_at c (x ∷ xs) =
    if x == c
    then some ([], xs)
    else (elim (split_at c xs) [ none ↦ none | some (l, r) ↦ some (x ∷ l, r) ])

-- No character of the text is `c`.
unfoldable pub lacks : ℕ → Bytes → Bool
lacks c [] = true
lacks c (x ∷ xs) = not (x == c) && lacks c xs

pub split_at-append :
    (c : ℕ) (l r : Bytes) → lacks c l ≡ true → split_at c (l ++ (c ∷ r)) ≡ some (l, r)
unfolding split_at lacks
split_at-append c [] r h = ground arith
split_at-append c (x ∷ xs) r h = ground (arith, split_at-append c xs r)

pub split_at-lacks : (c : ℕ) (l : Bytes) → lacks c l ≡ true → split_at c l ≡ none
unfolding split_at lacks
split_at-lacks c [] h = refl
split_at-lacks c (x ∷ xs) h = ground (arith, split_at-lacks c xs)
