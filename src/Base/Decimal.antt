-- ===== src/Base/Decimal.antt =====
-- Decimal numbers as C prints and reads them: `%lld`, `%llu`, `strtol`, `strtoll`.
use Prim.Native.Nat.{ℕ, zero, suc, ◌+◌, ◌-◌, ◌*◌, ◌/◌, ◌%◌, ◌^◌, ◌≤◌, ◌<◌}
use mathlib.Core.Path.{◌≡◌, refl, ap, ◌∙◌}
use mathlib.Core.Bool.{Bool, true, false}
use mathlib.Core.Option.{Option, none, some}
use mathlib.Core.List.{[], ◌∷◌, ◌++◌, append_assoc}
use native.Mathlib.Omega.{arith}
use mathlib.Core.Logic.{inl, inr}
use ntap_a.Base.Tests.{◌==◌, leb, ltb, if◌then◌else◌, Bool-cases, ltb→lt, le→leb}
use ntap_a.Base.Lists.{All, All-append}
use ntap_a.Base.Words.{Bytes}
use ntap_a.Base.Texts.{is_digit, skip_space}

-- Integers; `negsuc n` is -(n + 1).
pub data ℤ : Type 0 where
  pos : ℕ → ℤ
  negsuc : ℕ → ℤ

abbrev pub neg : ℕ → ℤ
neg n = if n == 0 then pos 0 else negsuc (n - 1)

-- The digits of a number; 20 are enough for 64 bits.
unfoldable pub digits : ℕ → ℕ → Bytes
digits zero n = []
digits (suc f) n = if ltb n 10 then (b'0' + n) ∷ [] else digits f (n / 10) ++ ((b'0' + n % 10) ∷ [])

-- `%lld` and `%llu` of a number that is not negative
abbrev pub show_dec : ℕ → Bytes
show_dec = digits 20

-- The number that the digits at the start make, after `acc`, and what follows them.
unfoldable pub read_digits : ℕ → Bytes → ℕ × Bytes
read_digits acc [] = (acc, [])
read_digits acc (c ∷ cs) =
    let r = read_digits (acc * 10 + (c - b'0')) cs in if is_digit c then r else (acc, c ∷ cs)

-- A number has at most f digits.
abbrev pub HasDigits : ℕ → ℕ → Type 0
HasDigits zero n = n < 1
HasDigits (suc f) n = HasDigits f (n / 10)

read_digit :
    (acc k : ℕ) (rest : Bytes)
    → k < 10
    → read_digits acc ((b'0' + k) ∷ rest) ≡ read_digits (acc * 10 + k) rest
unfolding read_digits
read_digit acc k rest h =
    let ok : is_digit (b'0' + k) ≡ true = ground arith in
    let e : b'0' + k - b'0' ≡ k = omega arith in rw (ok, e) refl

-- The last digit is read behind the others.
last_digit :
    (n : ℕ) (rest : Bytes) → read_digits (n / 10) ((b'0' + n % 10) ∷ rest) ≡ read_digits n rest
last_digit n rest =
    let e : n / 10 * 10 + n % 10 ≡ n = omega arith in
    read_digit (n / 10) (n % 10) rest (omega arith) ∙ ap (λ m. read_digits m rest) e

pub read_digits-digits :
    (f n : ℕ) (rest : Bytes)
    → HasDigits f n
    → read_digits 0 (digits f n ++ rest) ≡ read_digits n rest
unfolding digits
read_digits-digits zero n rest h = ap (λ m. read_digits m rest) (omega (arith, h))
read_digits-digits (suc f) n rest h = elim (Bool-cases (ltb n 10)) [
  | inl small ↦
      let e : 0 * 10 + n ≡ n = omega arith in
      rw small (read_digit 0 n rest (ltb→lt n 10 small) ∙ ap (λ m. read_digits m rest) e)
  | inr big ↦
      rw (big, append_assoc (digits f (n / 10)) ((b'0' + n % 10) ∷ []) rest)
        (read_digits-digits f (n / 10) ((b'0' + n % 10) ∷ rest) h ∙ last_digit n rest)
]

pub HasDigits-64 : (n : ℕ) → n < 2 ^ 64 → HasDigits 20 n
HasDigits-64 n h = omega (arith, h)

-- A number of at most 20 digits starts with a digit, and holds nothing else.
pub digits-All : (f n : ℕ) → All (λ c. is_digit c ≡ true) (digits f n)
unfolding digits
digits-All zero n = tt
digits-All (suc f) n = elim (Bool-cases (ltb n 10)) [
  | inl small ↦ rw small (ground (arith, small), tt)
  | inr big ↦ rw big (
      All-append _ (digits f (n / 10)) ((b'0' + n % 10) ∷ []) (digits-All f (n / 10))
        (ground arith, tt))
]

-- The value that `strtol` and its kin make of the digits, whether it is in the range of 64 bits, and
-- what is left; `none` where there is no digit. The range is that of int64_t; out of it they clamp.
pub record Parsed : Type 0 where
  pub value : ℤ
  pub in_range : Bool
  pub rest : Bytes

abbrev pub int64_max : ℕ
int64_max = 2 ^ 63 - 1

unfoldable pub clamp : Bool → ℕ × Bytes → Parsed
clamp false (m, rest) =
    if leb m int64_max
    then record { value = pos m; in_range = true; rest = rest }
    else record { value = pos int64_max; in_range = false; rest = rest }
clamp true (m, rest) =
    if leb m (int64_max + 1)
    then record { value = neg m; in_range = true; rest = rest }
    else record { value = neg (int64_max + 1); in_range = false; rest = rest }

unfoldable pub signed : Bool → Bytes → Option Parsed
signed minus [] = none
signed minus (c ∷ cs) = if is_digit c then some (clamp minus (read_digits 0 (c ∷ cs))) else none

unfoldable pub after_sign : Bytes → Option Parsed
after_sign [] = none
after_sign (c ∷ cs) =
    if c == b'-'
    then signed true cs
    else if c == b'+'
    then signed false cs
    else signed false (c ∷ cs)

-- `strtoll(text, &end, 10)`, and `strtol` where long has 64 bits: `none` is `end == text`.
unfoldable pub strtoll : Bytes → Option Parsed
unfolding after_sign skip_space
strtoll text = after_sign (skip_space text)

-- What follows a number is no digit.
abbrev pub Stops : Bytes → Type 0
Stops [] = Unit
Stops (c ∷ cs) = is_digit c ≡ false

read_digits_stop : (n : ℕ) (rest : Bytes) → Stops rest → read_digits n rest ≡ (n, rest)
unfolding read_digits
read_digits_stop n [] h = refl
read_digits_stop n (c ∷ cs) h = rw h refl

strtoll_digit :
    (c : ℕ) (cs : Bytes)
    → is_digit c ≡ true
    → strtoll (c ∷ cs) ≡ some (clamp false (read_digits 0 (c ∷ cs)))
unfolding strtoll signed
strtoll_digit c cs h = ground (arith, h)

pub first_digit :
    (f n : ℕ) → (c : ℕ) × (cs : Bytes) × (digits (suc f) n ≡ c ∷ cs) × (is_digit c ≡ true)
unfolding digits
first_digit zero n = elim (Bool-cases (ltb n 10)) [
  | inl small ↦ (b'0' + n, [], rw small refl, ground (arith, small))
  | inr big ↦ (b'0' + n % 10, [], rw big refl, ground arith)
]
first_digit (suc f) n = elim (Bool-cases (ltb n 10)) [
  | inl small ↦ (b'0' + n, [], rw small refl, ground (arith, small))
  | inr big ↦
      let (c, cs, e, d) = first_digit f (n / 10) in
      (c, cs ++ ((b'0' + n % 10) ∷ []), rw (big, e) refl, d)
]

-- `strtoll` reads a printed number back, and stops behind it.
pub strtoll-digits :
    (f n : ℕ) (rest : Bytes)
    → HasDigits (suc f) n
    → n ≤ int64_max
    → Stops rest
    → strtoll (digits (suc f) n ++ rest)
      ≡ some (record { value = pos n; in_range = true; rest = rest })
unfolding clamp
strtoll-digits f n rest h small stop =
    let (c, cs, e, d) = first_digit f n in
    let back = read_digits-digits (suc f) n rest h ∙ read_digits_stop n rest stop in
    let here : strtoll (digits (suc f) n ++ rest)
        ≡ some (clamp false (read_digits 0 (digits (suc f) n ++ rest))) =
      rw e (strtoll_digit c (cs ++ rest) d) in
    here ∙ rw (back, le→leb n int64_max small) refl

-- `strtoul(text, &end, 10)` where long has 64 bits, and "%ju": the number and what is left. With a
-- minus sign, the number is taken from 2 ^ 64.
unfoldable pub clamp_unsigned : Bool → ℕ × Bytes → ℕ × Bytes
clamp_unsigned minus (m, rest) =
    if leb (2 ^ 64) m
    then (2 ^ 64 - 1, rest)
    else (if minus then (2 ^ 64 - m) % 2 ^ 64 else m, rest)

unfoldable pub unsigned : Bool → Bytes → Option (ℕ × Bytes)
unsigned minus [] = none
unsigned minus (c ∷ cs) =
    if is_digit c then some (clamp_unsigned minus (read_digits 0 (c ∷ cs))) else none

unfoldable pub after_sign_unsigned : Bytes → Option (ℕ × Bytes)
after_sign_unsigned [] = none
after_sign_unsigned (c ∷ cs) =
    if c == b'-'
    then unsigned true cs
    else if c == b'+'
    then unsigned false cs
    else unsigned false (c ∷ cs)

unfoldable pub strtoul : Bytes → Option (ℕ × Bytes)
strtoul text = after_sign_unsigned (skip_space text)

strtoul_digit :
    (c : ℕ) (cs : Bytes)
    → is_digit c ≡ true
    → strtoul (c ∷ cs) ≡ some (clamp_unsigned false (read_digits 0 (c ∷ cs)))
unfolding strtoul unsigned after_sign_unsigned skip_space
strtoul_digit c cs h = ground (arith, h)

-- `strtoul` reads a printed number back, and stops behind it.
pub strtoul-digits :
    (f n : ℕ) (rest : Bytes)
    → HasDigits (suc f) n
    → n < 2 ^ 64
    → Stops rest
    → strtoul (digits (suc f) n ++ rest) ≡ some (n, rest)
unfolding clamp_unsigned
strtoul-digits f n rest h small stop =
    let (c, cs, e, d) = first_digit f n in
    let back = read_digits-digits (suc f) n rest h ∙ read_digits_stop n rest stop in
    let here : strtoul (digits (suc f) n ++ rest)
        ≡ some (clamp_unsigned false (read_digits 0 (digits (suc f) n ++ rest))) =
      rw e (strtoul_digit c (cs ++ rest) d) in
    let fits : leb (2 ^ 64) n ≡ false = ground (arith, small) in here ∙ rw (back, fits) refl
