-- ===== src/Base/Options.antt =====
-- Calls that return -1, or a value: `none` is the failure.
use mathlib.Core.Path.{◌≡◌, refl, subst}
use mathlib.Core.Logic.{◌⊎◌, inl, inr}
use mathlib.Core.Bool.{Bool, true, false}
use mathlib.Core.Option.{Option, none, some}

infixl 5 ◌>>=◌ ◌>>◌
abbrev pub ◌>>=◌ {ℓ κ} : {A : Type ℓ} {B : Type κ} → Option A → (A → Option B) → Option B
none >>= f = none
some a >>= f = f a

abbrev pub ◌>>◌ {ℓ} : {B : Type ℓ} → Option (Unit {0}) → Option B → Option B
m >> k = m >>= λ _. k

-- Returns -1 unless the test holds.
abbrev pub guard : Bool → Option (Unit {0})
guard true = some tt
guard false = none

pub Option-cases {ℓ} : {A : Type ℓ} (o : Option A) → (o ≡ none) ⊎ ((a : A) × (o ≡ some a))
Option-cases none = inl refl
Option-cases (some a) = inr (a, refl)

-- What a successful bind tells of its two parts.
pub >>=-eq-some {ℓ κ} :
    {A : Type ℓ} {B : Type κ} (m : Option A) (f : A → Option B) {b : B}
    → (m >>= f) ≡ some b
    → (a : A) × (m ≡ some a) × (f a ≡ some b)
>>=-eq-some none f h = cc
>>=-eq-some (some a) f h = (a, refl, h)

-- A call succeeds only with a value that has the property.
abbrev pub Ensures {ℓ} : {A : Type ℓ} → (A → Type 0) → Option A → Type 0
Ensures P none = Unit
Ensures P (some a) = P a

pub Ensures->>= {ℓ κ} :
    {A : Type ℓ} {B : Type κ} (P : B → Type 0) (m : Option A) (f : A → Option B)
    → ((a : A) → m ≡ some a → Ensures P (f a))
    → Ensures P (m >>= f)
Ensures->>= P none f k = tt
Ensures->>= P (some a) f k = k a refl

pub Ensures-guard {ℓ} :
    {B : Type ℓ} (P : B → Type 0) (b : Bool) (m : Option B)
    → (b ≡ true → Ensures P m)
    → Ensures P (guard b >> m)
Ensures-guard P true m k = k refl
Ensures-guard P false m k = tt

pub Ensures-elim {ℓ} :
    {A : Type ℓ} (P : A → Type 0) (m : Option A) {a : A} → Ensures P m → m ≡ some a → P a
Ensures-elim P m h e = subst (Ensures P) e h

pub Ensures-weaken {ℓ} :
    {A : Type ℓ} (P Q : A → Type 0)
    → ((a : A) → P a → Q a)
    → (m : Option A) → Ensures P m
    → Ensures Q m
Ensures-weaken P Q k none h = tt
Ensures-weaken P Q k (some a) h = k a h

pub Ensures-intro {ℓ} :
    {A : Type ℓ} (P : A → Type 0) (m : Option A) → ((a : A) → m ≡ some a → P a) → Ensures P m
Ensures-intro P none k = tt
Ensures-intro P (some a) k = k a refl
