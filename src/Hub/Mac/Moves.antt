-- ===== src/Hub/Mac/Moves.antt =====
-- What an address that moves to a session does to the number of its addresses.
use ntap_a.Base.{
  ℕ, ◌+◌, ◌≤◌, ◌<◌, ◌≡◌, ◌≢◌, refl, List, [], ◌∷◌, true, false, some, arith, Bool-cases, inl, inr,
  subst, sym,
}
use ntap_a.Base.Words.{Bytes}
use ntap_a.Session.{Session}
use ntap_a.Hub.{MacEntry}
use ntap_a.Hub.Mac.{
  of_session, mac_count_for_fd, mac_matches, mac_relearn, mac_moved, count_move, mac_update,
  mac_learn, mac_is_learnable_src, learned, mac_move_freeze_threshold,
}
use ntap_a.Hub.Mac.Freeze.{mac_entry}

-- One move that is let through.
moved-of_session :
    (s : Session) (mac : Bytes) (now : ℕ) (e : MacEntry)
    → mac_matches s.network_id mac e ≡ true
    → e.fd ≢ s.fd
    → e.frozen_until ≤ now
    → (count_move now e).move_count < mac_move_freeze_threshold
    → (of_session s.fd s.network_id e ≡ false)
      × (of_session s.fd s.network_id (mac_relearn s now e).1 ≡ true)
      × ((mac_relearn s now e).0 ≡ learned)
unfolding mac_relearn mac_moved count_move
moved-of_session s mac now e m ne fr few = (ground arith, ground arith, ground arith)

mac_update_moved :
    (s : Session) (mac : Bytes) (now : ℕ) (es : List MacEntry) (e : MacEntry)
    → mac_entry s.network_id mac es ≡ some e
    → e.fd ≢ s.fd
    → e.frozen_until ≤ now
    → (count_move now e).move_count < mac_move_freeze_threshold
    → (es' : List MacEntry) × (mac_update s mac now es ≡ some (learned, es'))
      × (mac_count_for_fd s.fd s.network_id es' ≡ mac_count_for_fd s.fd s.network_id es + 1)
unfolding mac_update mac_entry mac_count_for_fd
mac_update_moved s mac now [] e h ne fr few = cc
mac_update_moved s mac now (x ∷ es) e h ne fr few =
    elim (Bool-cases (mac_matches s.network_id mac x)) [
      | inl hit ↦
          let same : x ≡ e = ground (arith, hit, h) in
          let (off, on, ok) =
            moved-of_session s mac now x hit (subst (λ y. y.fd ≢ s.fd) (sym same) ne)
              (subst (λ y. y.frozen_until ≤ now) (sym same) fr)
              (subst (λ y. (count_move now y).move_count < mac_move_freeze_threshold) (sym same)
                few) in
          ((mac_relearn s now x).1 ∷ es, rw (hit, ok) refl, rw (on, off) (omega arith))
      | inr miss ↦
          let (es', u, v) = mac_update_moved s mac now es e (rw miss at h) ne fr few in
          (x ∷ es', rw (miss, u) refl, omega (arith, v))
    ]

-- An address in the table that moves to a session, and is not frozen for it, counts to the session
-- whatever its limit: a session at `max_mac_per_session` goes over it.
pub mac_learn_moved :
    (s : Session) (mac : Bytes) (now : ℕ) (es : List MacEntry) (e : MacEntry)
    → mac_is_learnable_src mac ≡ true
    → mac_entry s.network_id mac es ≡ some e
    → e.fd ≢ s.fd
    → e.frozen_until ≤ now
    → (count_move now e).move_count < mac_move_freeze_threshold
    → mac_count_for_fd s.fd s.network_id es ≡ s.max_mac_per_session
    → s.max_mac_per_session < mac_count_for_fd s.fd s.network_id (mac_learn s mac now es).1
unfolding mac_learn
mac_learn_moved s mac now es e l h ne fr few full =
    let (es', u, v) = mac_update_moved s mac now es e h ne fr few in
    rw (l, u) (omega (arith, v, full))
