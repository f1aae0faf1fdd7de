-- ===== src/Hub/Mac/Unique.antt =====
-- At most one entry in use has an address in a network, whatever is learnt, aged out or forgotten.
use ntap_a.Base.{
  ℕ, zero, suc, ◌≡◌, refl, List, [], ◌∷◌, Bool, true, false, not, Option, none, some, arith, All,
  ◌⊎◌, inl, inr, set, if◌then◌else◌, ◌&&◌, ◌==◌, Option-cases, Bool-cases, subst,
}
use ntap_a.Base.Words.{Bytes}
use ntap_a.Session.{Session}
use ntap_a.Hub.{MacEntry, find_index}
use ntap_a.Base.Texts.{bytes_equal_iff}
use ntap_a.Hub.Mac.{
  mac_age, mac_expired, mac_matches, mac_relearn, mac_moved, count_move, mac_update, mac_insert,
  mac_learn, mac_forget_fd, mac_limit_reached, mac_is_learnable_src, fresh_entry, Learned,
}

-- No entry in use has the address.
abbrev pub Absent : ℕ → Bytes → List MacEntry → Type 0
Absent network_id mac = All (λ e. mac_matches network_id mac e ≡ false)

abbrev pub IsUnique : List MacEntry → Type 0
IsUnique [] = Unit
IsUnique (e ∷ es) = (e.active ≡ true → Absent e.network_id e.mac es) × IsUnique es

-- The entry went out of use, or kept its address.
abbrev pub Keeps : MacEntry → MacEntry → Type 0
Keeps e e' =
    (e'.active ≡ false)
    ⊎ ((e'.active ≡ e.active) × (e'.network_id ≡ e.network_id) × (e'.mac ≡ e.mac))

abbrev pub KeepsAll : List MacEntry → List MacEntry → Type 0
KeepsAll [] [] = Unit
KeepsAll [] (e' ∷ es') = ⊥
KeepsAll (e ∷ es) [] = ⊥
KeepsAll (e ∷ es) (e' ∷ es') = Keeps e e' × KeepsAll es es'

Absent-Keeps :
    (network_id : ℕ) (mac : Bytes) (es es' : List MacEntry)
    → KeepsAll es es'
    → Absent network_id mac es
    → Absent network_id mac es'
Absent-Keeps n m [] [] k a = a
Absent-Keeps n m [] (e' ∷ es') k a = absurd k
Absent-Keeps n m (e ∷ es) [] k a = absurd k
Absent-Keeps n m (e ∷ es) (e' ∷ es') (inl off, ks) (a, as') =
    (ground arith, Absent-Keeps n m es es' ks as')
Absent-Keeps n m (e ∷ es) (e' ∷ es') (inr same, ks) (a, as') =
    (ground arith, Absent-Keeps n m es es' ks as')

-- Entries that only go out of use, or change what is not their address, stay unique.
pub KeepsAll-IsUnique : (es es' : List MacEntry) → KeepsAll es es' → IsUnique es → IsUnique es'
KeepsAll-IsUnique [] [] k u = tt
KeepsAll-IsUnique [] (e' ∷ es') k u = absurd k
KeepsAll-IsUnique (e ∷ es) [] k u = absurd k
KeepsAll-IsUnique (e ∷ es) (e' ∷ es') (inl off, ks) (u, us) =
    (λ on. cc, KeepsAll-IsUnique es es' ks us)
KeepsAll-IsUnique (e ∷ es) (e' ∷ es') (inr (act, net, adr), ks) (u, us) = (
  λ on. rw (net, adr) (Absent-Keeps e.network_id e.mac es es' ks (u (ground arith))),
  KeepsAll-IsUnique es es' ks us,
)

pub KeepsAll-self : (es : List MacEntry) → KeepsAll es es
KeepsAll-self [] = tt
KeepsAll-self (e ∷ es) = (inr (refl, refl, refl), KeepsAll-self es)

-- What a learnt address changes of its own entry.
mac_relearn-Keeps : (s : Session) (now : ℕ) (e : MacEntry) → Keeps e (mac_relearn s now e).1
unfolding mac_relearn mac_moved count_move
mac_relearn-Keeps s now e = inr (ground arith)

-- The loop of `mac_learn_locked` keeps every address, or finds the one it looks for nowhere.
abbrev UpdateKeeps : Session → Bytes → List MacEntry → Option (Learned × List MacEntry) → Type 0
UpdateKeeps s mac es none = Absent s.network_id mac es
UpdateKeeps s mac es (some (r, es')) = KeepsAll es es'

mac_update-Keeps :
    (s : Session) (mac : Bytes) (now : ℕ) (es : List MacEntry)
    → UpdateKeeps s mac es (mac_update s mac now es)
unfolding mac_update
mac_update-Keeps s mac now [] = tt
mac_update-Keeps s mac now (e ∷ es) = elim (Bool-cases (mac_matches s.network_id mac e)) [
  | inl hit ↦ rw (hit, UpdateKeeps) (mac_relearn-Keeps s now e, KeepsAll-self es)
  | inr miss ↦ elim (Option-cases (mac_update s mac now es)) [
    | inl n ↦
        rw (miss, n, UpdateKeeps)
          (miss, subst (UpdateKeeps s mac es) n (mac_update-Keeps s mac now es))
    | inr (p, n) ↦
        rw (miss, n, UpdateKeeps)
          (inr (refl, refl, refl), subst (UpdateKeeps s mac es) n (mac_update-Keeps s mac now es))
  ]
]

Absent-set :
    (n : ℕ) (m : Bytes) (es : List MacEntry) (i : ℕ) (f : MacEntry)
    → mac_matches n m f ≡ false
    → Absent n m es
    → Absent n m (set es i f)
Absent-set n m [] i f h a = a
Absent-set n m (e ∷ es) zero f h (a, as') = (h, as')
Absent-set n m (e ∷ es) (suc i) f h (a, as') = (a, Absent-set n m es i f h as')

-- Two entries in use that one does not match do not match the other way round.
mac_matches_comm :
    (e f : MacEntry)
    → e.active ≡ true
    → mac_matches f.network_id f.mac e ≡ false
    → mac_matches e.network_id e.mac f ≡ false
mac_matches_comm e f on h = ground (arith, bytes_equal_iff e.mac f.mac, bytes_equal_iff f.mac e.mac)

-- An entry with an address that is absent may go into any slot.
IsUnique-set :
    (es : List MacEntry) (i : ℕ) (f : MacEntry)
    → Absent f.network_id f.mac es
    → IsUnique es
    → IsUnique (set es i f)
IsUnique-set [] i f a u = tt
IsUnique-set (e ∷ es) zero f (a, as') (u, us) = (λ on. as', us)
IsUnique-set (e ∷ es) (suc i) f (a, as') (u, us) = (
  λ on. Absent-set e.network_id e.mac es i f (mac_matches_comm e f on a) (u on),
  IsUnique-set es i f as' us,
)

mac_insert-IsUnique :
    (s : Session) (mac : Bytes) (now : ℕ) (es : List MacEntry)
    → Absent s.network_id mac es
    → IsUnique es
    → IsUnique (mac_insert s mac now es)
unfolding mac_insert
mac_insert-IsUnique s mac now es a u =
    elim (Option-cases (find_index (λ (e : MacEntry). not e.active) es)) [
      | inl n ↦ rw (n, IsUnique, mac_insert) u
      | inr (i, n) ↦ elim (Bool-cases (mac_limit_reached s es)) [
        | inl full ↦ rw (n, full, IsUnique, mac_insert) u
        | inr room ↦
            rw (n, room, IsUnique, mac_insert) (IsUnique-set es i (fresh_entry s mac now) a u)
      ]
    ]

-- Learning an address, known or new, leaves at most one entry in use for each address of a network.
pub mac_learn-IsUnique :
    (s : Session) (mac : Bytes) (now : ℕ) (es : List MacEntry)
    → IsUnique es
    → IsUnique (mac_learn s mac now es).1
unfolding mac_learn
mac_learn-IsUnique s mac now es u = elim (Bool-cases (mac_is_learnable_src mac)) [
  | inr no' ↦ rw no' u
  | inl learnable ↦ elim (Option-cases (mac_update s mac now es)) [
    | inl n ↦
        rw (learnable, n)
          (mac_insert-IsUnique s mac now es
            (subst (UpdateKeeps s mac es) n (mac_update-Keeps s mac now es)) u)
    | inr ((r, es'), n) ↦
        rw (learnable, n)
          (KeepsAll-IsUnique es es' (subst (UpdateKeeps s mac es) n (mac_update-Keeps s mac now es))
            u)
  ]
]

Keeps-if : (off : Bool) (e : MacEntry) → Keeps e (if off then record e { active = false } else e)
Keeps-if true e = inl refl
Keeps-if false e = inr (refl, refl, refl)

mac_age-Keeps :
    (now : ℕ) (sessions : List Session) (es : List MacEntry) → KeepsAll es (mac_age now sessions es)
unfolding mac_age
mac_age-Keeps now sessions [] = tt
mac_age-Keeps now sessions (e ∷ es) =
    (Keeps-if (mac_expired now sessions e) e, mac_age-Keeps now sessions es)

pub mac_age-IsUnique :
    (now : ℕ) (sessions : List Session) (es : List MacEntry)
    → IsUnique es
    → IsUnique (mac_age now sessions es)
mac_age-IsUnique now sessions es = KeepsAll-IsUnique es _ (mac_age-Keeps now sessions es)

mac_forget_fd-Keeps : (fd : ℕ) (es : List MacEntry) → KeepsAll es (mac_forget_fd fd es)
unfolding mac_forget_fd
mac_forget_fd-Keeps fd [] = tt
mac_forget_fd-Keeps fd (e ∷ es) = (Keeps-if (e.active && e.fd == fd) e, mac_forget_fd-Keeps fd es)

pub mac_forget_fd-IsUnique :
    (fd : ℕ) (es : List MacEntry) → IsUnique es → IsUnique (mac_forget_fd fd es)
mac_forget_fd-IsUnique fd es = KeepsAll-IsUnique es _ (mac_forget_fd-Keeps fd es)
