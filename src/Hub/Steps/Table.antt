-- ===== src/Hub/Steps/Table.antt =====
-- The MAC table in the states that the server can reach.
use ntap_a.Base.{
  ℕ, zero, suc, ◌≡◌, refl, List, [], ◌∷◌, Bool, not, arith, ltb, length, replicate, inl, inr,
  Option-cases, Bool-cases, get_or, take, drop, ◌&&◌, ◌||◌,
}
use ntap_a.Base.Words.{Bytes}
use ntap_a.Session.{Session}
use ntap_a.Hub.{Hub, MacEntry, session_find, find_index}
use ntap_a.Hub.Mac.{
  mac_age, mac_learn, mac_matches, mac_is_multicast, mac_is_broadcast, mac_is_l2_control,
}
use ntap_a.Hub.Mac.Lookup.{mac_lookup, mac_search}
use ntap_a.Hub.Mac.Unique.{
  IsUnique, KeepsAll, KeepsAll-self, KeepsAll-IsUnique, mac_age-IsUnique, mac_learn-IsUnique,
  mac_forget_fd-IsUnique,
}
use ntap_a.Hub.Relay.{no_session, relay_flood, relay_to, relay_from, relay_tap_frame}
use ntap_a.Hub.Relay.Isolation.{Learned-cases}
use ntap_a.Hub.Registry.{unregister_locked, unregister_stop, is_on}
use ntap_a.Hub.Steps.{
  Reachable, start, logs_in, leaves, stops, relays, controls, writes, empty_entry,
}

mac_search-Keeps :
    (n : ℕ) (mac : Bytes) (ss : List Session) (es : List MacEntry)
    → KeepsAll es (mac_search n mac ss es).1
unfolding mac_search
mac_search-Keeps n mac ss [] = tt
mac_search-Keeps n mac ss (e ∷ es) = elim (Bool-cases (mac_matches n mac e)) [
  | inl hit ↦ elim (Option-cases (session_find e.fd n ss)) [
    | inl gone ↦ rw (hit, gone) (inl refl, KeepsAll-self es)
    | inr (j, found) ↦ rw (hit, found) (inr (refl, refl, refl), KeepsAll-self es)
  ]
  | inr miss ↦ rw miss (inr (refl, refl, refl), mac_search-Keeps n mac ss es)
]

mac_lookup-IsUnique :
    (n : ℕ) (mac : Bytes) (ss : List Session) (es : List MacEntry)
    → IsUnique es
    → IsUnique (mac_lookup n mac ss es).1
unfolding mac_lookup
mac_lookup-IsUnique n mac ss es u = elim (Bool-cases (mac_is_multicast mac)) [
  | inl many ↦ rw many u
  | inr one ↦ rw one (KeepsAll-IsUnique es _ (mac_search-Keeps n mac ss es) u)
]

module _ (alloc : ℕ → ℕ → Bool) (from_fd network_id : ℕ) (payload : Bytes) (now : ℕ) where
  relay_flood-macs :
      (i : ℕ) (hub : Hub)
      → (relay_flood alloc from_fd network_id i payload now hub).2.macs ≡ hub.macs
  unfolding relay_flood
  relay_flood-macs i hub = ground arith

  relay_to-IsUnique :
      (i : ℕ) (dst : Bytes) (hub : Hub)
      → IsUnique hub.macs
      → IsUnique (relay_to alloc from_fd network_id i dst payload now hub).2.macs
  unfolding relay_to
  relay_to-IsUnique i dst hub u =
      let (found, macs) = mac_lookup network_id dst hub.sessions hub.macs in
      let v = mac_lookup-IsUnique network_id dst hub.sessions hub.macs u in
      elim (Bool-cases (mac_is_broadcast dst || mac_is_multicast dst)) [
        | inl all ↦ rw (all, relay_flood-macs i hub) u
        | inr one ↦ elim (Option-cases found) [
          | inl unknown ↦ rw (one, unknown, relay_flood-macs i (record hub { macs = macs })) v
          | inr (j, known) ↦ rw (one, known) v
        ]
      ]

  relay_from-IsUnique :
      (i : ℕ) (frame : Bytes) (hub : Hub)
      → IsUnique hub.macs
      → IsUnique (relay_from alloc from_fd network_id i frame payload now hub).2.macs
  unfolding relay_from
  relay_from-IsUnique i frame hub u =
      let s = get_or hub.sessions i no_session in
      let src = take 6 (drop 6 frame) in
      let (r, macs) = mac_learn s src now hub.macs in
      let v = mac_learn-IsUnique s src now hub.macs u in
      elim (Bool-cases (mac_is_l2_control (take 6 frame) && not s.allow_l2_control)) [
        | inl control ↦ rw control u
        | inr plain ↦ elim (Learned-cases r) [
          | inl ok ↦
              rw (plain, ok) (relay_to-IsUnique i (take 6 frame) (record hub { macs = macs }) v)
          | inr stop ↦ rw (plain, stop) v
        ]
      ]

relay_tap_frame-IsUnique :
    (alloc : ℕ → ℕ → Bool) (from_fd network_id : ℕ) (frame payload : Bytes) (now : ℕ) (hub : Hub)
    → IsUnique hub.macs
    → IsUnique (relay_tap_frame alloc from_fd network_id frame payload now hub).2.macs
unfolding relay_tap_frame
relay_tap_frame-IsUnique alloc from_fd network_id frame payload now hub u =
    let aged = record hub { macs = mac_age now hub.sessions hub.macs } in
    let v = mac_age-IsUnique now hub.sessions hub.macs u in
    elim (Bool-cases (ltb (length frame) 14)) [
      | inl short ↦ rw short u
      | inr long ↦ elim (Option-cases (session_find from_fd network_id hub.sessions)) [
        | inl gone ↦ rw (long, gone) v
        | inr (i, found) ↦
            rw (long, found)
              (relay_from-IsUnique alloc from_fd network_id payload now i frame aged v)
      ]
    ]

replicate-IsUnique : (n : ℕ) → IsUnique (replicate n empty_entry)
replicate-IsUnique zero = tt
replicate-IsUnique (suc n) = (λ on. cc, replicate-IsUnique n)

unregister_locked-IsUnique :
    (fd : ℕ) (hub : Hub) → IsUnique hub.macs → IsUnique (unregister_locked fd hub).1.macs
unfolding unregister_locked
unregister_locked-IsUnique fd hub u = elim (Option-cases (find_index (is_on fd) hub.sessions)) [
  | inl none' ↦ rw (none', unregister_locked) (mac_forget_fd-IsUnique fd hub.macs u)
  | inr (i, found) ↦ rw (found, unregister_locked) (mac_forget_fd-IsUnique fd hub.macs u)
]

-- In every state that the server reaches from its start, whatever logs in, leaves, sends frames or
-- is written to, and in whatever order, at most one entry in use of the MAC table has an address of
-- a network.
pub Reachable-IsUnique : (hub : Hub) → Reachable hub → IsUnique hub.macs
unfolding unregister_stop
Reachable-IsUnique hub start = replicate-IsUnique 512
Reachable-IsUnique hub (logs_in nb th l runtime hub' r) = Reachable-IsUnique hub' r
Reachable-IsUnique hub (leaves fd hub' r) =
    unregister_locked-IsUnique fd hub' (Reachable-IsUnique hub' r)
Reachable-IsUnique hub (stops i hub' r) = Reachable-IsUnique hub' r
Reachable-IsUnique hub (relays alloc fd n frame payload now hub' r) =
    relay_tap_frame-IsUnique alloc fd n frame payload now hub' (Reachable-IsUnique hub' r)
Reachable-IsUnique hub (controls alloc i type payload hub' r) = Reachable-IsUnique hub' r
Reachable-IsUnique hub (writes send i hub' r) = Reachable-IsUnique hub' r
