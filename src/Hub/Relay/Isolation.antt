-- ===== src/Hub/Relay/Isolation.antt =====
-- Who gets a frame that `relay_tap_frame` takes.
use ntap_a.Base.{
  ℕ, ◌<◌, ◌≡◌, refl, List, [], ◌∷◌, Bool, true, false, not, ◌&&◌, ◌||◌, none, some, arith,
  Bool-cases, Option-cases, inl, inr, get_or, set, length, ◌⊎◌, take, drop, ◌==◌, ◌∙◌, sym, ltb,
}
use ntap_a.Base.Words.{Bytes}
use ntap_a.Session.{Session, Enqueued, refused, dropped, queued, session_enqueue_tap}
use ntap_a.Session.Queue.{TapQueued, session_enqueue_tap-TapQueued}
use ntap_a.Hub.{Hub, MacEntry, NetworkRate, session_find, session_matches}
use ntap_a.Hub.Lookup.{find_index-some}
use ntap_a.Hub.Flood.{flood_allowed, session_allows, network_allows, roll_session}
use ntap_a.Hub.Mac.{
  mac_learn, Learned, learned, frozen, mac_matches, mac_age, mac_is_broadcast, mac_is_multicast,
  mac_is_l2_control,
}
use ntap_a.Hub.Mac.Lookup.{mac_lookup, mac_search}
use ntap_a.Hub.Relay.{
  no_session, floods_to, client_blocked, flood_loop, relay_unicast, relay_flood, relay_to,
  relay_from, relay_tap_frame, count_enqueued, unicast_enqueued,
}
use ntap_a.Hub.Relay.Delivery.{
  Relayed, Alike, Relayed-self, Relayed-set, Relayed-touch, Relayed-after,
}

flood_allowed-Alike :
    (s : Session) (now : ℕ) (rates : List NetworkRate) → Alike s (flood_allowed s now rates).1
unfolding flood_allowed session_allows network_allows roll_session
flood_allowed-Alike s now rates = record {
  active = ground arith;
  fd = ground arith;
  network_id = ground arith;
  session_id = ground arith;
  is_tap_client = ground arith;
  allow = ground arith;
  ctrl_queue = ground arith;
  tap_queue = ground arith;
}

mac_search_found :
    (n : ℕ) (mac : Bytes) (ss : List Session) (es : List MacEntry) (j : ℕ)
    → (mac_search n mac ss es).0 ≡ some j
    → (fd : ℕ) × (session_find fd n ss ≡ some j)
unfolding mac_search
mac_search_found n mac ss [] j h = cc
mac_search_found n mac ss (e ∷ es) j h = elim (Bool-cases (mac_matches n mac e)) [
  | inl hit ↦ elim (Option-cases (session_find e.fd n ss)) [
    | inr (i, f) ↦ (e.fd, ground (arith, hit, f, h))
    | inl f ↦ ground (arith, hit, f, h)
  ]
  | inr miss ↦ mac_search_found n mac ss es j (rw miss at h)
]

-- A session that the look-up of an address finds is active and in the network.
mac_lookup_found :
    (n : ℕ) (mac : Bytes) (ss : List Session) (es : List MacEntry) (j : ℕ)
    → (mac_lookup n mac ss es).0 ≡ some j
    → (j < length ss)
      × ((get_or ss j no_session).active ≡ true)
      × ((get_or ss j no_session).network_id ≡ n)
unfolding mac_lookup session_find
mac_lookup_found n mac ss es j h =
    let (fd, f) = mac_search_found n mac ss es j (ground (arith, h)) in
    let (lt, m) = find_index-some (session_matches fd n) ss no_session j f in
    (lt, ground (arith, m), ground (arith, m))

count_enqueued-Relayed :
    (may : Session → Bool) (payload : Bytes) (s : Session) (ss out : List Session) (k d : ℕ)
    (r : Enqueued × Session)
    → may s ≡ true
    → TapQueued s payload r
    → Relayed may payload ss out k
    → Relayed may payload (s ∷ ss) (count_enqueued out k d r).2 (count_enqueued out k d r).0
unfolding count_enqueued
count_enqueued-Relayed may payload s ss out k d (queued, t) m (c, q) rest =
    (c, inr (m, q, k, omega arith, rest))
count_enqueued-Relayed may payload s ss out k d (dropped, t) m (c, q) rest = (c, inl (q, rest))
count_enqueued-Relayed may payload s ss out k d (refused, t) m (c, q) rest = (c, inl (q, rest))

unicast_enqueued-Relayed :
    (may : Session → Bool) (payload : Bytes) (ss : List Session) (i : ℕ) (r : Enqueued × Session)
    → i < length ss
    → may (get_or ss i no_session) ≡ true
    → TapQueued (get_or ss i no_session) payload r
    → Relayed may payload ss (unicast_enqueued ss i r).2 (unicast_enqueued ss i r).0
unfolding unicast_enqueued
unicast_enqueued-Relayed may payload ss i (queued, t) lt m q = Relayed-set may payload ss i t lt m q
unicast_enqueued-Relayed may payload ss i (dropped, t) lt m (c, q) =
    Relayed-touch may payload ss i t c q
unicast_enqueued-Relayed may payload ss i (refused, t) lt m (c, q) =
    Relayed-touch may payload ss i t c q

-- Whom a session may reach depends on two of its fields.
floods_to-Alike :
    (from_fd network_id : ℕ) (s t x : Session)
    → Alike s t
    → floods_to from_fd network_id t x ≡ floods_to from_fd network_id s x
floods_to-Alike from_fd network_id s t x a = ground (arith, a.is_tap_client, a.allow)

-- Whether a session may be reached depends on four of its fields.
reached-Alike :
    (from_fd network_id : ℕ) (source s t : Session)
    → Alike s t
    → floods_to from_fd network_id source t ≡ floods_to from_fd network_id source s
reached-Alike from_fd network_id source s t a =
    ground (arith, a.active, a.fd, a.network_id, a.is_tap_client)

pub Learned-cases : (r : Learned) → (r ≡ learned) ⊎ (r ≡ frozen)
Learned-cases learned = inl refl
Learned-cases frozen = inr refl

module _ (alloc : ℕ → ℕ → Bool) (from_fd network_id : ℕ) (payload : Bytes) (now : ℕ) where
  flood_loop-Relayed :
      (may : Session → Bool) (source : Session) (ss : List Session)
      → ((s : Session) → floods_to from_fd network_id source s ≡ may s)
      → let (k, d, out) = flood_loop alloc from_fd network_id source payload now ss in
        Relayed may payload ss out k
  unfolding flood_loop
  flood_loop-Relayed may source [] same = refl
  flood_loop-Relayed may source (s ∷ ss) same =
      let rest = flood_loop-Relayed may source ss same in
      let (k, d, out) = flood_loop alloc from_fd network_id source payload now ss in
      let r = session_enqueue_tap (alloc s.fd) s payload true now in
      let q = session_enqueue_tap-TapQueued (alloc s.fd) s payload true now in
      elim (Bool-cases (floods_to from_fd network_id source s)) [
        | inl ok ↦
            rw (ok, flood_loop)
              (count_enqueued-Relayed may payload s ss out k d r (sym (same s) ∙ ok) q rest)
        | inr skip ↦ rw skip (refl, inl (refl, rest))
      ]

  relay_unicast-Relayed :
      (source : Session) (ss : List Session) (i : ℕ)
      → i < length ss
      → (get_or ss i no_session).active ≡ true
      → (get_or ss i no_session).network_id ≡ network_id
      → let (k, m, out) = relay_unicast alloc from_fd source i payload now ss in
        Relayed (floods_to from_fd network_id source) payload ss out k
  unfolding relay_unicast
  relay_unicast-Relayed source ss i lt act net =
      let may = floods_to from_fd network_id source in
      let t = get_or ss i no_session in
      elim (Bool-cases (t.fd == from_fd)) [
        | inl own ↦ rw own (Relayed-self may payload ss)
        | inr other ↦ elim (Bool-cases (client_blocked source t)) [
          | inl blocked ↦ rw (other, blocked) (Relayed-self may payload ss)
          | inr open' ↦
              rw (other, open')
                (unicast_enqueued-Relayed may payload ss i
                  (session_enqueue_tap (alloc t.fd) t payload false now) lt
                  (ground (arith, act, net, other, open'))
                  (session_enqueue_tap-TapQueued (alloc t.fd) t payload false now))
        ]
      ]

  relay_flood-Relayed :
      (i : ℕ) (hub : Hub)
      → let (k, m, hub') = relay_flood alloc from_fd network_id i payload now hub in
        Relayed
          (floods_to from_fd network_id (get_or hub.sessions i no_session))
          payload
          hub.sessions
          hub'.sessions
          k
  unfolding relay_flood
  relay_flood-Relayed i hub =
      let s = get_or hub.sessions i no_session in
      let (ok, s', rates) = flood_allowed s now hub.rates in
      let a = flood_allowed-Alike s now hub.rates in
      let may = floods_to from_fd network_id s in
      let ss = set hub.sessions i s' in
      let (k, d, out) = flood_loop alloc from_fd network_id s' payload now ss in
      elim (Bool-cases ok) [
        | inl go ↦ rw go (
            Relayed-after may payload hub.sessions out i k s' a
              (reached-Alike from_fd network_id s s s' a)
              (flood_loop-Relayed may s' ss (λ x. floods_to-Alike from_fd network_id s s' x a)))
        | inr stop ↦ rw stop (Relayed-touch may payload hub.sessions i s' a.ctrl_queue a.tap_queue)
      ]

  relay_to-Relayed :
      (i : ℕ) (dst : Bytes) (hub : Hub)
      → let (k, m, hub') = relay_to alloc from_fd network_id i dst payload now hub in
        Relayed
          (floods_to from_fd network_id (get_or hub.sessions i no_session))
          payload
          hub.sessions
          hub'.sessions
          k
  unfolding relay_to
  relay_to-Relayed i dst hub =
      let s = get_or hub.sessions i no_session in
      let (found, macs) = mac_lookup network_id dst hub.sessions hub.macs in
      elim (Bool-cases (mac_is_broadcast dst || mac_is_multicast dst)) [
        | inl all ↦ rw all (relay_flood-Relayed i hub)
        | inr one ↦ elim (Option-cases found) [
          | inl unknown ↦ rw (one, unknown) (relay_flood-Relayed i (record hub { macs = macs }))
          | inr (j, known) ↦
              let (lt, act, net) = mac_lookup_found network_id dst hub.sessions hub.macs j known in
              rw (one, known) (relay_unicast-Relayed s hub.sessions j lt act net)
        ]
      ]

  relay_from-Relayed :
      (i : ℕ) (frame : Bytes) (hub : Hub)
      → let (k, m, hub') = relay_from alloc from_fd network_id i frame payload now hub in
        Relayed
          (floods_to from_fd network_id (get_or hub.sessions i no_session))
          payload
          hub.sessions
          hub'.sessions
          k
  unfolding relay_from
  relay_from-Relayed i frame hub =
      let s = get_or hub.sessions i no_session in
      let may = floods_to from_fd network_id s in
      let (r, macs) = mac_learn s (take 6 (drop 6 frame)) now hub.macs in
      elim (Bool-cases (mac_is_l2_control (take 6 frame) && not s.allow_l2_control)) [
        | inl control ↦ rw control (Relayed-self may payload hub.sessions)
        | inr plain ↦ elim (Learned-cases r) [
          | inl ok ↦ rw (plain, ok) (relay_to-Relayed i (take 6 frame) (record hub { macs = macs }))
          | inr stop ↦ rw (plain, stop) (Relayed-self may payload hub.sessions)
        ]
      ]

-- The session that sends: the one that is active on the descriptor in the network.
abbrev pub sender : ℕ → ℕ → Hub → Session
sender from_fd network_id hub = elim (session_find from_fd network_id hub.sessions) [
  | none ↦ no_session
  | some i ↦ get_or hub.sessions i no_session
]

-- `relay_tap_frame` hands a frame only to active sessions of the sender's network on another
-- descriptor, and never from one client to another where the sender's network forbids that. Each of
-- them gets it once, at the end of its queue of frames; every other queue stays as it was, and the
-- number that the function returns is the number of those that got it.
pub relay_tap_frame-Relayed :
    (alloc : ℕ → ℕ → Bool) (from_fd network_id : ℕ) (frame payload : Bytes) (now : ℕ) (hub : Hub)
    → let (k, m, hub') = relay_tap_frame alloc from_fd network_id frame payload now hub in
      Relayed
        (floods_to from_fd network_id (sender from_fd network_id hub))
        payload
        hub.sessions
        hub'.sessions
        k
unfolding relay_tap_frame
relay_tap_frame-Relayed alloc from_fd network_id frame payload now hub =
    let may = floods_to from_fd network_id (sender from_fd network_id hub) in
    let aged = record hub { macs = mac_age now hub.sessions hub.macs } in
    elim (Bool-cases (ltb (length frame) 14)) [
      | inl short ↦ rw short (Relayed-self may payload hub.sessions)
      | inr long ↦ elim (Option-cases (session_find from_fd network_id hub.sessions)) [
        | inl gone ↦ rw (long, gone) (Relayed-self may payload hub.sessions)
        | inr (i, found) ↦
            rw (long, found, sender)
              (relay_from-Relayed alloc from_fd network_id payload now i frame aged)
      ]
    ]
