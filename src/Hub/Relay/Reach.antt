-- ===== src/Hub/Relay/Reach.antt =====
-- What becomes of a frame that the relay does not refuse: the session of its destination, or every
-- session that may have it, is offered it.
use ntap_a.Base.{
  ℕ, ◌≡◌, ◌≢◌, refl, List, [], ◌∷◌, Bool, true, false, not, some, ltb, length, inl, inr,
  if◌then◌else◌, Bool-cases, get_or, set, take, drop, ◌&&◌, ◌||◌, map, ap, ◌∙◌, ==_ne,
}
use ntap_a.Base.Words.{Bytes}
use ntap_a.Session.{Session, Enqueued, refused, dropped, queued, session_enqueue_tap}
use ntap_a.Hub.{Hub, MacEntry, session_find}
use ntap_a.Hub.Flood.{flood_allowed}
use ntap_a.Hub.Mac.{
  mac_age, mac_learn, mac_is_broadcast, mac_is_multicast, mac_is_l2_control, learned,
}
use ntap_a.Hub.Mac.Lookup.{mac_lookup}
use ntap_a.Hub.Relay.{
  no_session, floods_to, client_blocked, count_enqueued, flood_loop, unicast_enqueued,
  relay_unicast, relay_flood, relay_to, relay_from, relay_tap_frame,
}

count_enqueued_sessions :
    (ss : List Session) (k d : ℕ) (r : Enqueued × Session) → (count_enqueued ss k d r).2 ≡ r.1 ∷ ss
unfolding count_enqueued
count_enqueued_sessions ss k d (queued, s) = refl
count_enqueued_sessions ss k d (dropped, s) = refl
count_enqueued_sessions ss k d (refused, s) = refl

unicast_enqueued_sessions :
    (ss : List Session) (i : ℕ) (r : Enqueued × Session)
    → (unicast_enqueued ss i r).2 ≡ set ss i r.1
unfolding unicast_enqueued
unicast_enqueued_sessions ss i (queued, s) = refl
unicast_enqueued_sessions ss i (dropped, s) = refl
unicast_enqueued_sessions ss i (refused, s) = refl

-- The source has a slot, and its address is learnt: the relay goes on to the destination.
pub record Goes (frame : Bytes) (from_fd network_id now i : ℕ) (hub : Hub) : Type 0 where
  pub long : ltb (length frame) 14 ≡ false
  pub found : session_find from_fd network_id hub.sessions ≡ some i
  pub plain :
      (mac_is_l2_control (take 6 frame) && not (get_or hub.sessions i no_session).allow_l2_control)
      ≡ false
  pub learns :
      (mac_learn
        (get_or hub.sessions i no_session)
        (take 6 (drop 6 frame))
        now
        (mac_age now hub.sessions hub.macs)).0
      ≡ learned

-- The MAC table when the destination is looked up.
abbrev pub table_at : Bytes → ℕ → ℕ → Hub → List MacEntry
table_at frame now i hub =
    (mac_learn (get_or hub.sessions i no_session) (take 6 (drop 6 frame)) now
      (mac_age now hub.sessions hub.macs)).1

module _ (alloc : ℕ → ℕ → Bool) (from_fd network_id : ℕ) (payload : Bytes) (now : ℕ) where
  -- The session after it has been offered the flooded frame, if it may have it.
  abbrev pub offered : Session → Session → Session
  offered source s =
      if floods_to from_fd network_id source s
      then (session_enqueue_tap (alloc s.fd) s payload true now).1
      else s

  flood_loop-map :
      (source : Session) (ss : List Session)
      → (flood_loop alloc from_fd network_id source payload now ss).2 ≡ map (offered source) ss
  unfolding flood_loop
  flood_loop-map source [] = refl
  flood_loop-map source (s ∷ ss) =
      let (k, d, out) = flood_loop alloc from_fd network_id source payload now ss in
      let r = session_enqueue_tap (alloc s.fd) s payload true now in
      elim (Bool-cases (floods_to from_fd network_id source s)) [
        | inl may ↦
            rw may (
              count_enqueued_sessions out k d r
              ∙ ap (λ rest. r.1 ∷ rest) (flood_loop-map source ss))
        | inr skip ↦ rw skip (ap (λ rest. s ∷ rest) (flood_loop-map source ss))
      ]

  relay_tap_frame-eq :
      (frame : Bytes) (i : ℕ) (hub : Hub)
      → Goes frame from_fd network_id now i hub
      → (relay_tap_frame alloc from_fd network_id frame payload now hub).2
        ≡ (relay_to alloc from_fd network_id i
            (take 6 frame)
            payload
            now
            (record hub { macs = table_at frame now i hub })).2
  unfolding relay_tap_frame relay_from
  relay_tap_frame-eq frame i hub g = rw (g.long, g.found, g.plain, g.learns) refl

  -- A broadcast that the relay does not refuse, and that the limits on floods let through, is
  -- offered to every session that may have it: each of them takes the step of
  -- `session_enqueue_tap`, and no other slot but the source's changes.
  pub relay_tap_frame_broadcast :
      (frame : Bytes) (i : ℕ) (hub : Hub)
      → Goes frame from_fd network_id now i hub
      → mac_is_broadcast (take 6 frame) ≡ true
      → (flood_allowed (get_or hub.sessions i no_session) now hub.rates).0 ≡ true
      → let source = (flood_allowed (get_or hub.sessions i no_session) now hub.rates).1 in
        (relay_tap_frame alloc from_fd network_id frame payload now hub).2.sessions
        ≡ map (offered source) (set hub.sessions i source)
  unfolding relay_to relay_flood
  relay_tap_frame_broadcast frame i hub g all ok =
      let source = (flood_allowed (get_or hub.sessions i no_session) now hub.rates).1 in
      rw (relay_tap_frame-eq frame i hub g, all, ok)
        (flood_loop-map source (set hub.sessions i source))

  -- A frame to an address whose session is known, on another descriptor and not closed to the
  -- source, is offered to that session alone, whatever waits there; no other slot changes.
  pub relay_tap_frame_unicast :
      (frame : Bytes) (i j : ℕ) (hub : Hub)
      → Goes frame from_fd network_id now i hub
      → (mac_is_broadcast (take 6 frame) || mac_is_multicast (take 6 frame)) ≡ false
      → (mac_lookup network_id (take 6 frame) hub.sessions (table_at frame now i hub)).0 ≡ some j
      → (get_or hub.sessions j no_session).fd ≢ from_fd
      → client_blocked (get_or hub.sessions i no_session) (get_or hub.sessions j no_session) ≡ false
      → let target = get_or hub.sessions j no_session in
        (relay_tap_frame alloc from_fd network_id frame payload now hub).2.sessions
        ≡ set hub.sessions j (session_enqueue_tap (alloc target.fd) target payload false now).1
  unfolding relay_to relay_unicast
  relay_tap_frame_unicast frame i j hub g one known other open' =
      let target = get_or hub.sessions j no_session in
      rw (relay_tap_frame-eq frame i hub g, one, known, ==_ne target.fd from_fd other, open')
        (unicast_enqueued_sessions hub.sessions j
          (session_enqueue_tap (alloc target.fd) target payload false now))
