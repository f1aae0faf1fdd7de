-- ===== src/Tests/Session.antt =====
-- The queues of a session of src/a/node_server.c.
use ntap_a.Base.{ℕ, ◌≤◌, ◌≡◌, refl, [], ◌∷◌, Bool, true, false, arith}
use ntap_a.Proto.MsgType
use ntap_a.Session.{
  OutboundMsg, Session, session_queue_pop, session_enqueue_control, session_enqueue_tap,
  queued_msg_bytes, outbound_msg_create, queue_append, roll_window, over_budget, push_tap,
  writer_round, pop_from, pop_tap, session_queue_clear, queued, refused, failed,
}
use ntap_a.Session.Queue.{outbound, Pops, session_queue_pop-Pops, writer_round_failed}
use ntap_a.Session.Budget.{sum_bytes, IsAccounted, session_enqueue_tap_budget}
use ntap_a.Hub.Relay.{no_session}

abbrev always : ℕ → Bool
always n = true

abbrev pub frame_msg : OutboundMsg
frame_msg = record {
  type = MsgType.tap_frame;
  session_id = 9;
  queued_bytes = 20;
  payload = 1 ∷ 2 ∷ 3 ∷ 4 ∷ [];
}

abbrev pub ping_msg : OutboundMsg
ping_msg = record { type = MsgType.ping; session_id = 9; queued_bytes = 16; payload = [] }

-- One control message and one frame wait; a limit of 64 bytes.
abbrev pub busy : Session
busy = record no_session {
  active = true;
  fd = 4;
  session_id = 9;
  network_id = 3;
  db_session_id = 1;
  tap_queue_limit_bytes = 64;
  tap_queue_window_sec = 100;
  tap_queue_window_bytes = 20;
  tap_pending_bytes = 20;
  writer_started = true;
  ctrl_queue = ping_msg ∷ [];
  tap_queue = frame_msg ∷ [];
}

busy-IsAccounted : IsAccounted busy
unfolding sum_bytes
busy-IsAccounted = record {
  pending = refl;
  pending_small = omega arith;
  window_small = omega arith;
}

abbrev busier : Session
busier = record busy {
  tap_queue_window_bytes = 38;
  tap_pending_bytes = 38;
  tap_queue = frame_msg ∷ (record frame_msg { queued_bytes = 18; payload = 5 ∷ 6 ∷ [] }) ∷ [];
}

busy_takes : session_enqueue_tap always busy (5 ∷ 6 ∷ []) true 100 ≡ (queued, busier)
unfolding session_enqueue_tap push_tap roll_window over_budget queue_append outbound_msg_create
    queued_msg_bytes
busy_takes = refl

session_enqueue_tap_budget_example :
    IsAccounted busier
    × (sum_bytes busier.tap_queue ≤ 64)
    × (busier.tap_queue_window_sec ≡ 100)
    × (38 ≤ 64)
session_enqueue_tap_budget_example =
    session_enqueue_tap_budget always busy busier (5 ∷ 6 ∷ []) 100 busy-IsAccounted (omega arith)
      busy_takes

session_queue_pop-Pops_example : Pops busy (ping_msg ∷ frame_msg ∷ []) (session_queue_pop busy)
session_queue_pop-Pops_example = session_queue_pop-Pops busy

busy_fails : (writer_round (λ msg. false) busy).0 ≡ failed 4
unfolding writer_round session_queue_pop pop_from pop_tap session_queue_clear
busy_fails = refl

writer_round_failed_example :
    let s' = (writer_round (λ msg. false) busy).1 in
    (busy.fd ≡ 4)
    × (outbound s' ≡ [])
    × ((session_enqueue_tap always s' (7 ∷ []) true 101).0 ≡ refused)
    × ((session_enqueue_control always s' MsgType.pong (7 ∷ [])).0 ≡ refused)
writer_round_failed_example =
    writer_round_failed (λ msg. false) always busy (7 ∷ []) true 101 MsgType.pong 4 busy_fails
