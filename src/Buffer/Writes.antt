-- ===== src/Buffer/Writes.antt =====
-- A chain of appends that has memory: rules that follow the chain to its end.
use ntap_a.Base.{
  ℕ, ◌+◌, ◌≤◌, ◌≡◌, refl, Option, some, arith, length, true, Bool, ◌++◌, length-append, ◌>>=◌, ap,
  Option-cases, inl, inr, append_assoc, ◌∙◌,
}
use ntap_a.Base.Words.{Bytes}
use ntap_a.Buffer.{Buffer, size_max, init, append}
use ntap_a.Buffer.Growth.{IsValid, append_lem, append_total}

-- No request for memory is refused.
abbrev pub Granted : (ℕ → Bool) → Type 0
Granted alloc = (n : ℕ) → alloc n ≡ true

-- The chain still has `rest` to write, and all it writes makes `total`.
abbrev pub Pending : Bytes → Bytes → Buffer → Type 0
Pending total rest buf = IsValid buf × (buf.bytes ++ rest ≡ total)

pub Pending-init : (total : Bytes) → Pending total total init
unfolding init
Pending-init total = (omega arith, refl)

module _ {alloc : ℕ → Bool} (granted : Granted alloc) {total : Bytes}
    (small : length total ≤ size_max) where
  -- One append, and the state of the chain behind it.
  pub append-Pending :
      (more rest : Bytes) (buf : Buffer)
      → Pending total (more ++ rest) buf
      → (b : Buffer) × (append alloc buf more ≡ some b) × Pending total rest b
  append-Pending more rest buf (v, e) = elim (Option-cases (append alloc buf more)) [
    | inl fails ↦ absurd (append_total alloc buf more v granted (omega (arith, size)) fails)
    | inr (b, ok) ↦
        let (w, written) = append_lem alloc buf more b v (omega (arith, size)) ok in
        (b, ok, (w, rw (written, append_assoc) e))
  ]
    where
      size : length buf.bytes + length more + length rest ≡ length total
      size =
          omega
            (arith, ap length e, length-append buf.bytes (more ++ rest), length-append more rest)

  -- `if (ntap_buffer_append(...) != 0) goto done;` goes on.
  pub append-then {ℓ} :
      {A : Type ℓ} (more rest : Bytes) {buf : Buffer} {f : Buffer → Option A} {r : Option A}
      → Pending total (more ++ rest) buf
      → ((b : Buffer) → Pending total rest b → f b ≡ r)
      → (append alloc buf more >>= f) ≡ r
  append-then more rest {buf} {f} p k =
      let (b, ok, q) = append-Pending more rest buf p in ap (λ o. o >>= f) ok ∙ k b q
