-- ===== src/Hub/Relay/Delivery.antt =====
-- What it means that a frame has been handed on, and when slots of sessions matter to that.
use ntap_a.Base.{
  ℕ, zero, suc, ◌<◌, ◌≡◌, refl, List, [], ◌∷◌, ◌++◌, Bool, true, arith, inl, inr, get_or, set,
  length, ◌⊎◌, ◌∙◌, sym,
}
use ntap_a.Base.Words.{Bytes}
use ntap_a.Session.{Session, queued}
use ntap_a.Session.Queue.{tap_msg, TapQueued}
use ntap_a.Hub.Relay.{no_session}

-- From the first list of sessions to the second, k sessions that the test lets through have the
-- frame at the end of their queue; no other queue has changed.
abbrev pub Relayed : (Session → Bool) → Bytes → List Session → List Session → ℕ → Type 0
Relayed may payload [] [] k = k ≡ 0
Relayed may payload [] (t ∷ ts) k = ⊥
Relayed may payload (s ∷ ss) [] k = ⊥
Relayed may payload (s ∷ ss) (t ∷ ts) k =
    (t.ctrl_queue ≡ s.ctrl_queue)
    × ((t.tap_queue ≡ s.tap_queue) × Relayed may payload ss ts k
        ⊎ (may s ≡ true)
          × (t.tap_queue ≡ s.tap_queue ++ (tap_msg s payload ∷ []))
          × (j : ℕ) × (k ≡ suc j)
          × Relayed may payload ss ts j)

-- The fields that decide about a session's frames, and its queues.
pub record Alike (s t : Session) : Type 0 where
  pub active : t.active ≡ s.active
  pub fd : t.fd ≡ s.fd
  pub network_id : t.network_id ≡ s.network_id
  pub session_id : t.session_id ≡ s.session_id
  pub is_tap_client : t.is_tap_client ≡ s.is_tap_client
  pub allow : t.allow_client_to_client ≡ s.allow_client_to_client
  pub ctrl_queue : t.ctrl_queue ≡ s.ctrl_queue
  pub tap_queue : t.tap_queue ≡ s.tap_queue

module _ (may : Session → Bool) (payload : Bytes) where
  pub Relayed-self : (ss : List Session) → Relayed may payload ss ss 0
  Relayed-self [] = refl
  Relayed-self (s ∷ ss) = (refl, inl (refl, Relayed-self ss))

  -- One slot takes the frame.
  pub Relayed-set :
      (ss : List Session) (i : ℕ) (t : Session)
      → i < length ss
      → may (get_or ss i no_session) ≡ true
      → TapQueued (get_or ss i no_session) payload (queued, t)
      → Relayed may payload ss (set ss i t) 1
  Relayed-set [] i t lt m q = omega arith
  Relayed-set (s ∷ ss) zero t lt m (c, q) = (c, inr (m, q, 0, refl, Relayed-self ss))
  Relayed-set (s ∷ ss) (suc i) t lt m q = (refl, inl (refl, Relayed-set ss i t (omega arith) m q))

  -- One slot changes in other fields than its queues.
  pub Relayed-touch :
      (ss : List Session) (i : ℕ) (t : Session)
      → t.ctrl_queue ≡ (get_or ss i no_session).ctrl_queue
      → t.tap_queue ≡ (get_or ss i no_session).tap_queue
      → Relayed may payload ss (set ss i t) 0
  Relayed-touch [] i t c q = refl
  Relayed-touch (s ∷ ss) zero t c q = (c, inl (q, Relayed-self ss))
  Relayed-touch (s ∷ ss) (suc i) t c q = (refl, inl (refl, Relayed-touch ss i t c q))

  -- A slot that changed before in other fields than these does not matter.
  pub Relayed-after :
      (ss out : List Session) (i k : ℕ) (t : Session)
      → Alike (get_or ss i no_session) t
      → may t ≡ may (get_or ss i no_session)
      → Relayed may payload (set ss i t) out k
      → Relayed may payload ss out k
  Relayed-after [] out i k t a m r = r
  Relayed-after (s ∷ ss) [] zero k t a m r = r
  Relayed-after (s ∷ ss) [] (suc i) k t a m r = r
  Relayed-after (s ∷ ss) (o ∷ out) zero k t a m (c, inl (q, r)) =
      (c ∙ a.ctrl_queue, inl (q ∙ a.tap_queue, r))
  Relayed-after (s ∷ ss) (o ∷ out) zero k t a m (c, inr (y, q, j, e, r)) =
      (c ∙ a.ctrl_queue, inr (sym m ∙ y, rw (q, a.tap_queue, a.session_id) refl, j, e, r))
  Relayed-after (s ∷ ss) (o ∷ out) (suc i) k t a m (c, inl (q, r)) =
      (c, inl (q, Relayed-after ss out i k t a m r))
  Relayed-after (s ∷ ss) (o ∷ out) (suc i) k t a m (c, inr (y, q, j, e, r)) =
      (c, inr (y, q, j, e, Relayed-after ss out i j t a m r))
