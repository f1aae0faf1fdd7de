-- ===== src/Session/Budget.antt =====
-- The byte counters of a session against the frames that wait in it.
use ntap_a.Base.{
  ℕ, ◌+◌, ◌≤◌, ◌<◌, ◌≡◌, refl, List, [], ◌∷◌, ◌++◌, Bool, true, arith, length, ap, ◌↔◌, ◌⊎◌,
}
use ntap_a.Base.Words.{Bytes, IsU32}
use ntap_a.Session.{
  OutboundMsg, Session, queue_append, pop_tap, pop_from, session_queue_pop, session_enqueue_tap,
  roll_window, push_tap, over_budget, queue_limit, dropped, queued, queued_msg_bytes,
  writer_is_active,
}

unfoldable pub sum_bytes : List OutboundMsg → ℕ
sum_bytes [] = 0
sum_bytes (msg ∷ q) = msg.queued_bytes + sum_bytes q

sum_bytes-append :
    (q : List OutboundMsg) (msg : OutboundMsg)
    → sum_bytes (q ++ (msg ∷ [])) ≡ sum_bytes q + msg.queued_bytes
unfolding sum_bytes
sum_bytes-append [] msg = omega arith
sum_bytes-append (x ∷ q) msg = omega (arith, sum_bytes-append q msg)

-- `tap_pending_bytes` is what the waiting frames take, and the two counters are uint32_t.
pub record IsAccounted (s : Session) : Type 0 where
  pub pending : s.tap_pending_bytes ≡ sum_bytes s.tap_queue
  pub pending_small : IsU32 s.tap_pending_bytes
  pub window_small : IsU32 s.tap_queue_window_bytes

pop_tap-IsAccounted :
    (q : List OutboundMsg) (s : Session)
    → s.tap_queue ≡ q
    → IsAccounted s
    → IsAccounted (pop_tap q s).1
unfolding pop_tap sum_bytes
pop_tap-IsAccounted [] s e v = v
pop_tap-IsAccounted (msg ∷ rest) s e v = ground (arith, ap sum_bytes e)

pop_from-IsAccounted :
    (q : List OutboundMsg) (s : Session) → IsAccounted s → IsAccounted (pop_from q s).1
unfolding pop_from
pop_from-IsAccounted [] s v = pop_tap-IsAccounted s.tap_queue s refl v
pop_from-IsAccounted (msg ∷ rest) s v = record {
  pending = v.pending;
  pending_small = v.pending_small;
  window_small = v.window_small;
}

-- A pop keeps the account: the clamp at 0 of `session_queue_pop_locked` is never taken.
pub session_queue_pop-IsAccounted :
    (s : Session) → IsAccounted s → IsAccounted (session_queue_pop s).1
unfolding session_queue_pop
session_queue_pop-IsAccounted s v = pop_from-IsAccounted s.ctrl_queue s v

-- Where the counters are right and the limit is a uint32_t, a flooded frame that is queued keeps
-- them right: no sum wraps. The bytes that then wait, and those of this second's window, are within
-- the limit.
pub session_enqueue_tap_budget :
    (alloc : ℕ → Bool) (s s' : Session) (payload : Bytes) (now : ℕ)
    → IsAccounted s
    → IsU32 s.tap_queue_limit_bytes
    → session_enqueue_tap alloc s payload true now ≡ (queued, s')
    → IsAccounted s'
      × (sum_bytes s'.tap_queue ≤ queue_limit s)
      × (s'.tap_queue_window_sec ≡ now)
      × (s'.tap_queue_window_bytes ≤ queue_limit s)
unfolding session_enqueue_tap push_tap roll_window over_budget queue_append
session_enqueue_tap_budget alloc s s' payload now v l e = ground (
  arith,
  sum_bytes-append s.tap_queue (record {
    type = 7;
    session_id = s.session_id;
    queued_bytes = queued_msg_bytes (length payload);
    payload = payload;
  }),
)

-- With the counters right, the writer running and the window that of this second, a flooded frame is
-- dropped exactly where it would take the waiting bytes or those of the window over the limit.
pub session_enqueue_tap_drop :
    (alloc : ℕ → Bool) (s : Session) (payload : Bytes) (now : ℕ)
    → IsAccounted s
    → writer_is_active s ≡ true
    → s.tap_queue_window_sec ≡ now
    → ((session_enqueue_tap alloc s payload true now).0 ≡ dropped) ↔ (
        (queue_limit s < sum_bytes s.tap_queue + queued_msg_bytes (length payload))
        ⊎ (queue_limit s < s.tap_queue_window_bytes + queued_msg_bytes (length payload)))
unfolding session_enqueue_tap push_tap roll_window over_budget
session_enqueue_tap_drop alloc s payload now v w e = (λ h. ground arith, λ h. ground arith)
