-- ===== src/Session/Queue.antt =====
-- The two queues of a session as one: control messages first, each kind in the order of arrival.
use ntap_a.Base.{
  ℕ, ◌≡◌, refl, List, [], ◌∷◌, ◌++◌, Bool, true, false, Option, none, some, arith, length,
  Bool-cases, inl, inr, if◌then◌else◌, ◌+◌, ◌%◌, ◌^◌, subst,
}
use ntap_a.Base.Words.{Bytes}
use ntap_a.Proto.MsgType
use ntap_a.Session.{
  OutboundMsg, Session, queue_append, pop_tap, pop_from, session_queue_pop, session_queue_clear,
  session_enqueue_control, session_enqueue_tap, roll_window, push_tap, over_budget, touched_bytes,
  Enqueued, refused, dropped, queued, queued_msg_bytes, writer_is_active, failed, sent,
  writer_round,
}

-- What the writer still has to send, in the order in which it will.
abbrev pub outbound : Session → List OutboundMsg
outbound s = s.ctrl_queue ++ s.tap_queue

abbrev pub Pops : Session → List OutboundMsg → Option OutboundMsg × Session → Type 0
Pops s [] r = r ≡ (none, s)
Pops s (msg ∷ rest) r = (r.0 ≡ some msg) × (outbound r.1 ≡ rest)

pop_tap-Pops :
    (q : List OutboundMsg) (s : Session)
    → s.ctrl_queue ≡ []
    → s.tap_queue ≡ q
    → Pops s q (pop_tap q s)
unfolding pop_tap
pop_tap-Pops [] s c t = refl
pop_tap-Pops (msg ∷ rest) s c t = ground arith

pop_from-Pops :
    (q : List OutboundMsg) (s : Session)
    → s.ctrl_queue ≡ q
    → Pops s (q ++ s.tap_queue) (pop_from q s)
unfolding pop_from
pop_from-Pops [] s c = pop_tap-Pops s.tap_queue s c refl
pop_from-Pops (msg ∷ rest) s c = (refl, refl)

-- `session_queue_pop_locked` takes the first message of the two queues, control before frames, and
-- finds none only where both are empty.
pub session_queue_pop-Pops : (s : Session) → Pops s (outbound s) (session_queue_pop s)
unfolding session_queue_pop
session_queue_pop-Pops s = pop_from-Pops s.ctrl_queue s refl

abbrev pub tap_msg : Session → Bytes → OutboundMsg
tap_msg s payload = record {
  type = MsgType.tap_frame;
  session_id = s.session_id;
  queued_bytes = queued_msg_bytes (length payload);
  payload = payload;
}

-- What an enqueue of a frame leaves of the queues: on `queued` the frame is last, on any other
-- answer they are as they were.
abbrev pub TapQueued : Session → Bytes → Enqueued × Session → Type 0
TapQueued s payload (queued, s') =
    (s'.ctrl_queue ≡ s.ctrl_queue) × (s'.tap_queue ≡ s.tap_queue ++ (tap_msg s payload ∷ []))
TapQueued s payload (dropped, s') = (s'.ctrl_queue ≡ s.ctrl_queue) × (s'.tap_queue ≡ s.tap_queue)
TapQueued s payload (refused, s') = (s'.ctrl_queue ≡ s.ctrl_queue) × (s'.tap_queue ≡ s.tap_queue)

push_tap-TapQueued :
    (alloc : ℕ → Bool) (s : Session) (payload : Bytes) (enforce : Bool)
    → TapQueued s payload (push_tap alloc s payload enforce)
unfolding push_tap queue_append
push_tap-TapQueued alloc s payload enforce = elim (Bool-cases (alloc (length payload))) [
  | inl e ↦ rw (e, TapQueued, push_tap) (refl, refl)
  | inr e ↦ rw (e, TapQueued, push_tap) (refl, refl)
]

-- The same queues under the same session id give the same outcome.
TapQueued-roll :
    (s : Session) (payload : Bytes) (now : ℕ) (r : Enqueued × Session)
    → TapQueued (roll_window s now) payload r
    → TapQueued s payload r
unfolding roll_window
TapQueued-roll s payload now (queued, s') (c, t) = ground arith
TapQueued-roll s payload now (dropped, s') (c, t) = ground arith
TapQueued-roll s payload now (refused, s') (c, t) = ground arith

enforced-TapQueued :
    (alloc : ℕ → Bool) (s : Session) (payload : Bytes) (now : ℕ) (over : Bool)
    → let s' = roll_window s now in
      TapQueued s payload (
        if over
        then (dropped, record s' { tap_queue_drops = (s'.tap_queue_drops + 1) % 2 ^ 32 })
        else push_tap alloc s' payload true)
enforced-TapQueued alloc s payload now true = unfold roll_window in ground arith
enforced-TapQueued alloc s payload now false =
    TapQueued-roll s payload now (push_tap alloc (roll_window s now) payload true)
      (push_tap-TapQueued alloc (roll_window s now) payload true)

-- `session_enqueue_tap` appends the frame under the session's id, or leaves both queues alone.
pub session_enqueue_tap-TapQueued :
    (alloc : ℕ → Bool) (s : Session) (payload : Bytes) (enforce : Bool) (now : ℕ)
    → TapQueued s payload (session_enqueue_tap alloc s payload enforce now)
unfolding session_enqueue_tap
session_enqueue_tap-TapQueued alloc s payload true now = elim (Bool-cases (writer_is_active s)) [
  | inr e ↦ rw e (refl, refl)
  | inl e ↦ rw e (
      enforced-TapQueued alloc s payload now
        (over_budget (roll_window s now) (queued_msg_bytes (length payload))))
]
session_enqueue_tap-TapQueued alloc s payload false now = elim (Bool-cases (writer_is_active s)) [
  | inr e ↦ rw e (refl, refl)
  | inl e ↦ rw e (push_tap-TapQueued alloc s payload false)
]

-- A round whose send fails shuts down the session's own descriptor; nothing is left to send then, and
-- a message that is enqueued after it, frame or control, is refused.
pub writer_round_failed :
    (send : OutboundMsg → Bool) (alloc : ℕ → Bool) (s : Session) (payload : Bytes) (enforce : Bool)
    (now type fd : ℕ)
    → (writer_round send s).0 ≡ failed fd
    → let s' = (writer_round send s).1 in
      (s.fd ≡ fd)
      × (outbound s' ≡ [])
      × ((session_enqueue_tap alloc s' payload enforce now).0 ≡ refused)
      × ((session_enqueue_control alloc s' type payload).0 ≡ refused)
unfolding writer_round session_enqueue_tap session_enqueue_control session_queue_clear
writer_round_failed send alloc s payload enforce now type fd h = ground arith

db_session_id-pop_tap :
    (q : List OutboundMsg) (s : Session) → (pop_tap q s).1.db_session_id ≡ s.db_session_id
unfolding pop_tap
db_session_id-pop_tap [] s = refl
db_session_id-pop_tap (msg ∷ rest) s = refl

db_session_id-pop_from :
    (q : List OutboundMsg) (s : Session) → (pop_from q s).1.db_session_id ≡ s.db_session_id
unfolding pop_from
db_session_id-pop_from [] s = db_session_id-pop_tap s.tap_queue s
db_session_id-pop_from (msg ∷ rest) s = refl

db_session_id-session_queue_pop :
    (s : Session) → (session_queue_pop s).1.db_session_id ≡ s.db_session_id
unfolding session_queue_pop
db_session_id-session_queue_pop s = db_session_id-pop_from s.ctrl_queue s

-- A round sends the first message of the two queues or none, and the rest stays in its order.
pub writer_round_order :
    (send : OutboundMsg → Bool) (s : Session) (msg : OutboundMsg) (rest : List OutboundMsg)
    → s.writer_stop ≡ false
    → outbound s ≡ msg ∷ rest
    → send msg ≡ true
    → let (r, s') = writer_round send s in
      (r ≡ sent msg (touched_bytes s msg)) × (outbound s' ≡ rest)
unfolding writer_round
writer_round_order send s msg rest run o ok =
    let popped = subst (λ q. Pops s q (session_queue_pop s)) o (session_queue_pop-Pops s) in
    ground (arith, popped.0, popped.1, db_session_id-session_queue_pop s)
