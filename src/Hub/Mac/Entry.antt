-- ===== src/Hub/Mac/Entry.antt =====
-- What aging and learning leave of the entry of an address, and that the look-up finds it.
use ntap_a.Base.{
  ℕ, zero, suc, ◌≡◌, ◌≢◌, refl, sym, ap, ◌∙◌, List, [], ◌∷◌, true, false, not, some, inl, inr,
  if◌then◌else◌, Bool-cases, Option-cases, get_or, set, arith, Ensures, Ensures-elim,
}
use ntap_a.Base.Words.{Bytes}
use ntap_a.Base.Texts.{bytes_equal, bytes_equal_iff}
use ntap_a.Session.{Session}
use ntap_a.Hub.{MacEntry, session_find, find_index}
use ntap_a.Hub.Lookup.{find_index-some}
use ntap_a.Hub.Mac.{
  Learned, mac_age, mac_expired, mac_matches, mac_update, mac_insert, mac_learn, mac_limit_reached,
  fresh_entry, mac_is_learnable_src,
}
use ntap_a.Hub.Mac.Freeze.{mac_entry, mac_relearn-matches}
use ntap_a.Hub.Mac.Lookup.{mac_search}

pub mac_entry-matches :
    (n : ℕ) (m : Bytes) (es : List MacEntry) (e : MacEntry)
    → mac_entry n m es ≡ some e
    → mac_matches n m e ≡ true
unfolding mac_entry
mac_entry-matches n m [] e h = cc
mac_entry-matches n m (x ∷ es) e h = elim (Bool-cases (mac_matches n m x)) [
  | inl hit ↦ ground (arith, h, hit)
  | inr miss ↦ mac_entry-matches n m es e (rw miss at h)
]

-- An entry that is not too old is still there after the table has aged.
pub mac_entry-mac_age :
    (now n : ℕ) (m : Bytes) (ss : List Session) (es : List MacEntry) (e : MacEntry)
    → mac_entry n m es ≡ some e
    → mac_expired now ss e ≡ false
    → mac_entry n m (mac_age now ss es) ≡ some e
unfolding mac_entry mac_age
mac_entry-mac_age now n m ss [] e h fresh = h
mac_entry-mac_age now n m ss (x ∷ es) e h fresh = elim (Bool-cases (mac_matches n m x)) [
  | inl hit ↦
      let same : x ≡ e = ground (arith, h, hit) in
      let keeps : mac_expired now ss x ≡ false = rw same fresh in rw (keeps, hit) (ap some same)
  | inr miss ↦
      let rest = mac_entry-mac_age now n m ss es e (rw miss at h) fresh in
      elim (Bool-cases (mac_expired now ss x)) [
        | inl old ↦ rw old rest
        | inr young ↦ rw (young, miss) rest
      ]
]

other-matches :
    (k n : ℕ) (mac m : Bytes) (e : MacEntry)
    → m ≢ mac
    → mac_matches k mac e ≡ true
    → mac_matches n m e ≡ false
other-matches k n mac m e ne h = elim (Bool-cases (mac_matches n m e)) [
  | inr miss ↦ miss
  | inl hit ↦
      let a : bytes_equal e.mac mac ≡ true = ground (arith, h) in
      let b : bytes_equal e.mac m ≡ true = ground (arith, hit) in
      absurd (ne (sym ((bytes_equal_iff e.mac m).0 b) ∙ (bytes_equal_iff e.mac mac).0 a))
]

mac_entry-mac_update :
    (s : Session) (mac : Bytes) (now n : ℕ) (m : Bytes) (es : List MacEntry)
    → m ≢ mac
    → Ensures (λ r. mac_entry n m r.1 ≡ mac_entry n m es) (mac_update s mac now es)
unfolding mac_entry mac_update
mac_entry-mac_update s mac now n m [] ne = tt
mac_entry-mac_update s mac now n m (x ∷ es) ne =
    elim (Bool-cases (mac_matches s.network_id mac x)) [
      | inl hit ↦
          let off = other-matches s.network_id n mac m x ne hit in
          rw hit (rw (mac_relearn-matches s now x n m, off) refl)
      | inr miss ↦ elim (Option-cases (mac_update s mac now es)) [
        | inl absent ↦ rw (miss, absent) tt
        | inr ((r, es'), found) ↦
            let rest =
              Ensures-elim (λ (p : Learned × List MacEntry). mac_entry n m p.1 ≡ mac_entry n m es)
                (mac_update s mac now es) (mac_entry-mac_update s mac now n m es ne) found in
            rw (miss, found) (ap (λ t. if mac_matches n m x then some x else t) rest)
      ]
    ]

mac_entry-set :
    (n : ℕ) (m : Bytes) (es : List MacEntry) (i : ℕ) (f d : MacEntry)
    → mac_matches n m f ≡ false
    → mac_matches n m (get_or es i d) ≡ false
    → mac_entry n m (set es i f) ≡ mac_entry n m es
unfolding mac_entry
mac_entry-set n m [] i f d hf hx = refl
mac_entry-set n m (x ∷ es) zero f d hf hx = rw (hf, hx) refl
mac_entry-set n m (x ∷ es) (suc i) f d hf hx =
    ap (λ t. if mac_matches n m x then some x else t) (mac_entry-set n m es i f d hf hx)

mac_entry-mac_insert :
    (s : Session) (mac : Bytes) (now n : ℕ) (m : Bytes) (es : List MacEntry)
    → bytes_equal mac m ≡ false
    → mac_entry n m (mac_insert s mac now es) ≡ mac_entry n m es
unfolding mac_insert
mac_entry-mac_insert s mac now n m es unequal =
    elim (Option-cases (find_index (λ (e : MacEntry). not e.active) es)) [
      | inl full ↦ rw (full, mac_insert) refl
      | inr (i, slot) ↦ elim (Bool-cases (mac_limit_reached s es)) [
        | inl many ↦ rw (slot, many, mac_insert) refl
        | inr few ↦
            let f = fresh_entry s mac now in
            let free = (find_index-some (λ (e : MacEntry). not e.active) es f i slot).1 in
            rw (slot, few, mac_insert)
              (mac_entry-set n m es i f f (ground (arith, unequal)) (ground (arith, free)))
      ]
    ]

-- Learning an address leaves the entries of all others.
pub mac_entry-mac_learn :
    (s : Session) (mac : Bytes) (now n : ℕ) (m : Bytes) (es : List MacEntry)
    → m ≢ mac
    → mac_entry n m (mac_learn s mac now es).1 ≡ mac_entry n m es
unfolding mac_learn
mac_entry-mac_learn s mac now n m es ne = elim (Bool-cases (mac_is_learnable_src mac)) [
  | inr no' ↦ rw no' refl
  | inl learnable ↦ elim (Option-cases (mac_update s mac now es)) [
    | inr ((r, es'), found) ↦
        rw (learnable, found)
          (Ensures-elim (λ (p : Learned × List MacEntry). mac_entry n m p.1 ≡ mac_entry n m es)
            (mac_update s mac now es) (mac_entry-mac_update s mac now n m es ne) found)
    | inl absent ↦
        rw (learnable, absent)
          (elim (Bool-cases (bytes_equal mac m)) [
            | inl hit ↦ absurd (ne (sym ((bytes_equal_iff mac m).0 hit)))
            | inr unequal ↦ mac_entry-mac_insert s mac now n m es unequal
          ])
  ]
]

pub mac_search-mac_entry :
    (n : ℕ) (m : Bytes) (ss : List Session) (es : List MacEntry) (e : MacEntry) (j : ℕ)
    → mac_entry n m es ≡ some e
    → session_find e.fd n ss ≡ some j
    → (mac_search n m ss es).0 ≡ some j
unfolding mac_search mac_entry
mac_search-mac_entry n m ss [] e j h at = cc
mac_search-mac_entry n m ss (x ∷ es) e j h at = elim (Bool-cases (mac_matches n m x)) [
  | inl hit ↦
      let same : x ≡ e = ground (arith, h, hit) in
      let here : session_find x.fd n ss ≡ some j = rw same at in rw (hit, here) refl
  | inr miss ↦ rw miss (mac_search-mac_entry n m ss es e j (rw miss at h) at)
]
