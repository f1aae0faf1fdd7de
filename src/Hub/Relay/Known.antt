-- ===== src/Hub/Relay/Known.antt =====
-- Where a frame goes whose destination the server has seen.
use ntap_a.Base.{
  ℕ, ◌+◌, ◌≤◌, ◌≡◌, ◌≢◌, refl, sym, ◌∙◌, List, [], ◌∷◌, Bool, true, false, ◌||◌, some, inl, inr,
  Bool-cases, Option-cases, get_or, set, take, drop, arith,
}
use ntap_a.Base.Words.{Bytes}
use ntap_a.Session.{Session, session_enqueue_tap}
use ntap_a.Hub.{Hub, MacEntry, session_find, session_active, session_matches, find_index}
use ntap_a.Hub.Lookup.{find_index-some}
use ntap_a.Hub.Mac.{mac_age, mac_expired, entry_ttl, mac_is_broadcast, mac_is_multicast}
use ntap_a.Hub.Mac.Freeze.{mac_entry}
use ntap_a.Hub.Mac.Lookup.{mac_lookup}
use ntap_a.Hub.Relay.{no_session, client_blocked, relay_tap_frame}
use ntap_a.Hub.Relay.Reach.{Goes, table_at, relay_tap_frame_unicast}
use ntap_a.Hub.Mac.Entry.{
  mac_entry-matches, mac_entry-mac_age, mac_entry-mac_learn, mac_search-mac_entry,
}

find-active :
    (fd n : ℕ) (ss : List Session) (j : ℕ)
    → session_find fd n ss ≡ some j
    → session_active fd n ss ≡ true
unfolding session_find find_index session_active
find-active fd n [] j h = cc
find-active fd n (s ∷ ss) j h = elim (Bool-cases (session_matches fd n s)) [
  | inl hit ↦ rw hit refl
  | inr miss ↦ elim (Option-cases (find_index (session_matches fd n) ss)) [
    | inl absent ↦ absurd (ground (arith, h, miss, absent))
    | inr (k, found) ↦ rw miss (find-active fd n ss k found)
  ]
]

-- The entry of the destination is still there when it is looked up.
known_at :
    (frame : Bytes) (n now i j : ℕ) (hub : Hub) (e : MacEntry)
    → take 6 frame ≢ take 6 (drop 6 frame)
    → mac_entry n (take 6 frame) hub.macs ≡ some e
    → now ≤ e.last_seen + entry_ttl e
    → session_find e.fd n hub.sessions ≡ some j
    → mac_entry n (take 6 frame) (table_at frame now i hub) ≡ some e
unfolding mac_expired
known_at frame n now i j hub e ne known young at =
    let net : e.network_id ≡ n =
      ground (arith, mac_entry-matches n (take 6 frame) hub.macs e known) in
    let on : session_active e.fd e.network_id hub.sessions ≡ true =
      rw net (find-active e.fd n hub.sessions j at) in
    let kept : mac_expired now hub.sessions e ≡ false = ground (arith, young, on) in
    mac_entry-mac_learn (get_or hub.sessions i no_session) (take 6 (drop 6 frame)) now n
      (take 6 frame) (mac_age now hub.sessions hub.macs) ne
    ∙ mac_entry-mac_age now n (take 6 frame) hub.sessions hub.macs e known kept

-- A frame that the relay does not refuse, to an address of one receiver that is not its source's: where
-- the table that the frame meets has the destination, seen on another descriptor no longer ago than its
-- time to live, with a session in the network that is not closed to the source, the frame is offered to
-- that session alone, and no other slot changes.
pub relay_tap_frame_known :
    (alloc : ℕ → ℕ → Bool) (from_fd network_id : ℕ) (frame payload : Bytes) (now i j : ℕ)
    (hub : Hub) (e : MacEntry)
    → Goes frame from_fd network_id now i hub
    → (mac_is_broadcast (take 6 frame) || mac_is_multicast (take 6 frame)) ≡ false
    → take 6 frame ≢ take 6 (drop 6 frame)
    → mac_entry network_id (take 6 frame) hub.macs ≡ some e
    → now ≤ e.last_seen + entry_ttl e
    → session_find e.fd network_id hub.sessions ≡ some j
    → e.fd ≢ from_fd
    → client_blocked (get_or hub.sessions i no_session) (get_or hub.sessions j no_session) ≡ false
    → let target = get_or hub.sessions j no_session in
      (relay_tap_frame alloc from_fd network_id frame payload now hub).2.sessions
      ≡ set hub.sessions j (session_enqueue_tap (alloc target.fd) target payload false now).1
unfolding session_find mac_lookup
relay_tap_frame_known alloc from_fd n frame payload now i j hub e g one ne known young at other
      open' =
    let target = get_or hub.sessions j no_session in
    let (lt, on) = find_index-some (session_matches e.fd n) hub.sessions no_session j at in
    let same : target.fd ≡ e.fd = ground (arith, on) in
    let single : mac_is_multicast (take 6 frame) ≡ false = ground (arith, one) in
    let hit =
      mac_search-mac_entry n (take 6 frame) hub.sessions (table_at frame now i hub) e j
        (known_at frame n now i j hub e ne known young at) at in
    relay_tap_frame_unicast alloc from_fd n payload now frame i j hub g one (rw single hit)
      (λ p. other (sym same ∙ p)) open'
