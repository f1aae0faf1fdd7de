-- ===== src/Base/Results.antt =====
-- Calls that return 0 with a value, or -1 with a text in `err`.
use mathlib.Core.Path.{◌≡◌, refl}
use mathlib.Core.Bool.{Bool, true, false}
use mathlib.Core.Option.{Option, none, some}
use ntap_a.Base.Words.{Bytes}

-- A call that returns 0 with a value, or -1 with the text in `err`.
pub data Result (A : Type 0) : Type 0 where
  gives : A → Result A
  fails : Bytes → Result A

infixl 5 ◌>>=◌ ◌>>◌
abbrev pub ◌>>=◌ : {A B : Type 0} → Result A → (A → Result B) → Result B
gives a >>= f = f a
fails e >>= f = fails e

abbrev pub ◌>>◌ : {B : Type 0} → Result (Unit {0}) → Result B → Result B
m >> k = m >>= λ _. k

-- Returns -1 with this text unless the test holds.
abbrev pub check : Bytes → Bool → Result (Unit {0})
check e true = gives tt
check e false = fails e

-- Whatever the call put into `err`, this text replaces it.
abbrev pub with_error : {A : Type 0} → Bytes → Result A → Result A
with_error e (gives a) = gives a
with_error e (fails e') = fails e

abbrev pub or_fail : {A : Type 0} → Bytes → Option A → Result A
or_fail e none = fails e
or_fail e (some a) = gives a

-- A call gives a value only with the property.
abbrev pub Gives : {A : Type 0} → (A → Type 0) → Result A → Type 0
Gives P (gives a) = P a
Gives P (fails e) = Unit

pub Gives->>= :
    {A B : Type 0} (P : A → Type 0) (Q : B → Type 0) (m : Result A) (f : A → Result B)
    → Gives P m
    → ((a : A) → P a → Gives Q (f a))
    → Gives Q (m >>= f)
Gives->>= P Q (gives a) f h k = k a h
Gives->>= P Q (fails e) f h k = tt

pub Gives-weaken :
    {A : Type 0} (P Q : A → Type 0) → ((a : A) → P a → Q a) → (m : Result A) → Gives P m → Gives Q m
Gives-weaken P Q k (gives a) h = k a h
Gives-weaken P Q k (fails e) h = tt

pub Gives-check :
    {B : Type 0} (Q : B → Type 0) (e : Bytes) (b : Bool) (m : Result B)
    → (b ≡ true → Gives Q m)
    → Gives Q (check e b >> m)
Gives-check Q e true m k = k refl
Gives-check Q e false m k = tt

pub Gives-with_error :
    {A : Type 0} (P : A → Type 0) (e : Bytes) (m : Result A) → Gives P m → Gives P (with_error e m)
Gives-with_error P e (gives a) h = h
Gives-with_error P e (fails e') h = tt

pub Gives-or_fail :
    {A B : Type 0} (Q : B → Type 0) (e : Bytes) (m : Option A) (f : A → Result B)
    → ((a : A) → m ≡ some a → Gives Q (f a))
    → Gives Q (or_fail e m >>= f)
Gives-or_fail Q e none f k = tt
Gives-or_fail Q e (some a) f k = k a refl
