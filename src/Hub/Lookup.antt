-- ===== src/Hub/Lookup.antt =====
-- The searches through the tables.
use ntap_a.Base.{
  ℕ, zero, suc, ◌<◌, ◌≡◌, List, [], ◌∷◌, Bool, true, false, none, some, arith, length, get_or, set,
  refl, Bool-cases, inl, inr,
}
use ntap_a.Hub.{find_index}

-- A slot that the search stops at is in the table and passes the test.
pub find_index-some {ℓ} :
    {A : Type ℓ} (p : A → Bool) (xs : List A) (d : A) (i : ℕ)
    → find_index p xs ≡ some i
    → (i < length xs) × (p (get_or xs i d) ≡ true)
unfolding find_index
find_index-some p [] d i h = cc
find_index-some p (x ∷ xs) d zero h = ground arith
find_index-some p (x ∷ xs) d (suc i) h = ground (arith, find_index-some p xs d i)

-- The search still finds a slot that changed but passes the test.
pub find_index-set {ℓ} :
    {A : Type ℓ} (p : A → Bool) (xs : List A) (i : ℕ) (a : A)
    → find_index p xs ≡ some i
    → p a ≡ true
    → find_index p (set xs i a) ≡ some i
unfolding find_index
find_index-set p [] i a h t = cc
find_index-set p (x ∷ xs) zero a h t = ground (arith, t)
find_index-set p (x ∷ xs) (suc i) a h t = ground (arith, find_index-set p xs i a, t)

-- The search finds nothing where no slot passes the test.
pub find_index-none {ℓ} :
    {A : Type ℓ} (p : A → Bool) (xs : List A) (d : A)
    → ((j : ℕ) → p (get_or xs j d) ≡ false)
    → find_index p xs ≡ none
unfolding find_index
find_index-none p [] d h = refl
find_index-none p (x ∷ xs) d h = rw (h 0, find_index-none p xs d (λ j. h (suc j))) refl

-- The search stops at the only slot that passes the test.
pub find_index_only {ℓ} :
    {A : Type ℓ} (p : A → Bool) (xs : List A) (d : A) (i : ℕ)
    → i < length xs
    → p (get_or xs i d) ≡ true
    → ((j : ℕ) → p (get_or xs j d) ≡ true → j ≡ i)
    → find_index p xs ≡ some i
unfolding find_index
find_index_only p [] d i lt on h = absurd (omega (arith, lt))
find_index_only p (x ∷ xs) d zero lt on h = rw on refl
find_index_only p (x ∷ xs) d (suc i) lt on h = elim (Bool-cases (p x)) [
  | inl hit ↦ absurd (omega (arith, h 0 hit))
  | inr miss ↦
      rw (miss, find_index_only p xs d i (omega (arith, lt)) on (λ j e. omega (arith, h (suc j) e)))
        refl
]
