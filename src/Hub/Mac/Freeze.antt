-- ===== src/Hub/Mac/Freeze.antt =====
-- The MAC table as a map from addresses to entries, and the freeze of an address that flaps between
-- sessions.
use ntap_a.Base.{
  ℕ, ◌+◌, ◌≤◌, ◌<◌, ◌^◌, ◌≡◌, ◌≢◌, refl, List, [], ◌∷◌, true, Option, none, some, arith,
  if◌then◌else◌, Bool-cases, inl, inr, ap, sym, subst, ◌∙◌,
}
use ntap_a.Base.Words.{Bytes}
use ntap_a.Session.{Session}
use ntap_a.Hub.{MacEntry}
use ntap_a.Hub.Mac.{
  mac_matches, mac_relearn, mac_moved, count_move, mac_update, mac_learn, frozen, Learned,
  window_over, mac_is_learnable_src, mac_move_window_sec, mac_freeze_sec,
}

-- The entry that an address has in a network.
unfoldable pub mac_entry : ℕ → Bytes → List MacEntry → Option MacEntry
mac_entry network_id mac [] = none
mac_entry network_id mac (e ∷ es) =
    if mac_matches network_id mac e then some e else mac_entry network_id mac es

pub mac_relearn-matches :
    (s : Session) (now : ℕ) (e : MacEntry) (n : ℕ) (mac : Bytes)
    → mac_matches n mac (mac_relearn s now e).1 ≡ mac_matches n mac e
unfolding mac_relearn mac_moved count_move
mac_relearn-matches s now e n mac = ground arith

-- The loop changes the entry of the address, and answers as that entry says.
pub mac_update_entry :
    (s : Session) (mac : Bytes) (now : ℕ) (es : List MacEntry) (e : MacEntry)
    → mac_entry s.network_id mac es ≡ some e
    → (es' : List MacEntry) × (mac_update s mac now es ≡ some ((mac_relearn s now e).0, es'))
      × (mac_entry s.network_id mac es' ≡ some (mac_relearn s now e).1)
unfolding mac_update mac_entry
mac_update_entry s mac now [] e h = cc
mac_update_entry s mac now (x ∷ es) e h = elim (Bool-cases (mac_matches s.network_id mac x)) [
  | inl hit ↦ (
    (mac_relearn s now x).1 ∷ es,
    ground (arith, hit),
    ground (arith, hit, mac_relearn-matches s now x s.network_id mac),
  )
  | inr miss ↦
      let (es', u, v) = mac_update_entry s mac now es e (rw miss at h) in
      (x ∷ es', rw (miss, u) refl, rw miss v)
]

pub mac_learn_entry :
    (s : Session) (mac : Bytes) (now : ℕ) (es : List MacEntry) (e : MacEntry)
    → mac_is_learnable_src mac ≡ true
    → mac_entry s.network_id mac es ≡ some e
    → ((mac_learn s mac now es).0 ≡ (mac_relearn s now e).0)
      × (mac_entry s.network_id mac (mac_learn s mac now es).1 ≡ some (mac_relearn s now e).1)
unfolding mac_learn
mac_learn_entry s mac now es e l h =
    let (es', u, v) = mac_update_entry s mac now es e h in (rw (l, u) refl, rw (l, u) v)

relearn_freezes :
    (s : Session) (now : ℕ) (e : MacEntry)
    → e.fd ≢ s.fd
    → e.frozen_until ≤ now
    → e.move_window_sec ≢ 0
    → e.move_window_sec ≤ now
    → now ≤ e.move_window_sec + mac_move_window_sec
    → e.move_count ≡ 1
    → now + mac_freeze_sec < 2 ^ 64
    → ((mac_relearn s now e).0 ≡ frozen)
      × ((mac_relearn s now e).1.fd ≡ e.fd)
      × ((mac_relearn s now e).1.frozen_until ≡ now + mac_freeze_sec)
unfolding mac_relearn mac_moved count_move window_over
relearn_freezes s now e ne fr w lo hi one small = ground arith

relearn_frozen :
    (t : Session) (later : ℕ) (e : MacEntry)
    → t.fd ≢ e.fd
    → later < e.frozen_until
    → mac_relearn t later e ≡ (frozen, e)
unfolding mac_relearn mac_moved
relearn_frozen t later e ne lt = ground arith

-- An address in the table, not frozen, that has moved once and moves again, to another session of
-- its network, within ten seconds of the start of its window of moves, is frozen: the frame is
-- refused and the address stays where it was; and where a session other than that claims it next,
-- within 60 seconds, that is refused in the same way.
pub mac_learn_freeze :
    (s t : Session) (mac : Bytes) (now later : ℕ) (es : List MacEntry) (e : MacEntry)
    → mac_is_learnable_src mac ≡ true
    → mac_entry s.network_id mac es ≡ some e
    → e.fd ≢ s.fd
    → e.frozen_until ≤ now
    → e.move_window_sec ≢ 0
    → e.move_window_sec ≤ now
    → now ≤ e.move_window_sec + mac_move_window_sec
    → e.move_count ≡ 1
    → now + mac_freeze_sec < 2 ^ 64
    → t.network_id ≡ s.network_id
    → t.fd ≢ e.fd
    → later < now + mac_freeze_sec
    → let (r, es') = mac_learn s mac now es in
      let (r', es'') = mac_learn t mac later es' in
      (r ≡ frozen)
      × (r' ≡ frozen)
      × (f : MacEntry) × (mac_entry s.network_id mac es'' ≡ some f)
      × (f.fd ≡ e.fd)
mac_learn_freeze s t mac now later es e l h ne fr w lo hi one small net ne' lt =
    let (r, fd, until) = relearn_freezes s now e ne fr w lo hi one small in
    let f = (mac_relearn s now e).1 in
    let (a, b) = mac_learn_entry s mac now es e l h in
    let again = relearn_frozen t later f (λ p. ne' (p ∙ fd)) (omega (arith, until)) in
    let es' = (mac_learn s mac now es).1 in
    let (c, d) =
      mac_learn_entry t mac later es' f l (subst (λ n. mac_entry n mac es' ≡ some f) (sym net) b) in
    (
      a ∙ r,
      c ∙ ap (λ p. p.0) again,
      f,
      subst (λ n. mac_entry n mac (mac_learn t mac later es').1 ≡ some (mac_relearn t later f).1)
            net d
          ∙ ap (λ (p : Learned × MacEntry). some p.1) again,
      fd,
    )
