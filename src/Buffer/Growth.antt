-- ===== src/Buffer/Growth.antt =====
-- The capacity that `append` asks for, and when it succeeds.
use ntap_a.Base.{
  ℕ, zero, suc, ◌+◌, ◌*◌, ◌/◌, ◌^◌, ◌≤◌, ◌≡◌, ◌≢◌, Option, [], ◌∷◌, some, none, arith, length, true,
  Bool, ◌++◌, Bool-cases, Option-cases, inl, inr, ltb, length-append, append-nil,
}
use native.Mathlib.Nat.{pow-suc}
use ntap_a.Base.Words.{Bytes}
use ntap_a.Buffer.{Buffer, size_max, grow, grow_fuel, first_cap, make_room, append}

-- A size_t capacity holds what is in the buffer.
pub record IsValid (buf : Buffer) : Type 0 where
  pub held : length buf.bytes ≤ buf.cap
  pub small : buf.cap ≤ size_max

abbrev Reaches : ℕ → Option ℕ → Type 0
Reaches need o = (cap : ℕ) × (o ≡ some cap) × (need ≤ cap) × (cap ≤ size_max)

-- Doubling from a positive capacity reaches the need before the fuel runs out, and stays a size_t.
grow-Reaches :
    (fuel next need : ℕ)
    → need ≤ size_max
    → next ≤ size_max
    → need ≤ next * 2 ^ fuel
    → Reaches need (grow (suc fuel) next need)
unfolding grow
grow-Reaches zero next need hn hx h = (next, ground arith, omega arith, hx)
grow-Reaches (suc fuel) next need hn hx h = elim (Bool-cases (ltb next need)) [
  | inr done ↦ (next, rw done, ground arith, hx)
  | inl less ↦ elim (Bool-cases (ltb (size_max / 2) next)) [
    | inl far ↦ (need, rw (less, far), omega arith, hn)
    | inr near ↦
        rw (less, near)
          (grow-Reaches fuel (next * 2) need hn (ground arith) (omega (arith, (simp pow-suc at h))))
  ]
]

-- The capacity search of `append` always ends.
pub grow-first_cap :
    (buf : Buffer) (need : ℕ)
    → IsValid buf
    → need ≤ size_max
    → Reaches need (grow grow_fuel (first_cap buf) need)
grow-first_cap buf need v h = grow-Reaches 64 (first_cap buf) need h (ground arith) (ground arith)

make_room_lem :
    (alloc : ℕ → Bool) (buf : Buffer) (need : ℕ) (room : Buffer)
    → IsValid buf
    → need ≤ size_max
    → make_room alloc buf need ≡ some room
    → (room.bytes ≡ buf.bytes) × (need ≤ room.cap) × (buf.cap ≤ room.cap) × (room.cap ≤ size_max)
unfolding make_room
make_room_lem alloc buf need room v h e =
    let (cap, g, wide, small) = grow-first_cap buf need v h in
    let e' = rw (g) at e in ground (arith, e')

make_room_total :
    (alloc : ℕ → Bool) (buf : Buffer) (need : ℕ)
    → IsValid buf
    → ((n : ℕ) → alloc n ≡ true)
    → need ≤ size_max
    → make_room alloc buf need ≢ none
unfolding make_room
make_room_total alloc buf need v all h e =
    let (cap, g, wide, small) = grow-first_cap buf need v h in
    let e' = rw g at e in ground (arith, e', all cap)

-- An append that is granted keeps the buffer valid and adds the bytes at the end.
pub append_lem :
    (alloc : ℕ → Bool) (buf : Buffer) (bytes : Bytes) (out : Buffer)
    → IsValid buf
    → length bytes ≤ size_max
    → append alloc buf bytes ≡ some out
    → IsValid out × (out.bytes ≡ buf.bytes ++ bytes)
unfolding append
append_lem alloc buf [] out v h e = ground (arith, append-nil buf.bytes)
append_lem alloc buf (x ∷ xs) out v h e =
    elim (Option-cases (make_room alloc buf (length buf.bytes + length (x ∷ xs)))) [
      | inl r ↦ ground (arith, r)
      | inr (room, r) ↦ ground (
        arith,
        r,
        make_room_lem alloc buf (length buf.bytes + length (x ∷ xs)) room v,
        length-append buf.bytes (x ∷ xs),
      )
    ]

-- With memory for every request, an append fails only where the total is no size_t.
pub append_total :
    (alloc : ℕ → Bool) (buf : Buffer) (bytes : Bytes)
    → IsValid buf
    → ((n : ℕ) → alloc n ≡ true)
    → length buf.bytes + length bytes ≤ size_max
    → append alloc buf bytes ≢ none
unfolding append
append_total alloc buf bytes v all h e =
    ground (arith, make_room_total alloc buf (length buf.bytes + length bytes) v all)
