-- ===== src/Hub/Registry/Slots.antt =====
-- Which slot a session gets, and what becomes of the others.
use ntap_a.Base.{
  ℕ, zero, suc, ◌<◌, ◌≡◌, refl, List, [], ◌∷◌, Bool, true, false, ◌&&◌, Option, none, some, arith,
  ◌==◌, subst, sym, get_or, set, length, Option-cases, inl, inr, get_or-set_self, All, set-twice,
  Ensures,
}
use ntap_a.Session.{Session, session_queue_clear, session_enqueue_tap, refused}
use ntap_a.Base.Words.{Bytes}
use ntap_a.Hub.{Hub, MacEntry, find_index, session_active, session_matches}
use ntap_a.Hub.Lookup.{find_index-some}
use ntap_a.Hub.Relay.{no_session}
use ntap_a.Hub.Registry.{
  RuntimeConfig, Login, new_session, set_up, slot_is_free, session_register, is_on,
  unregister_locked, session_stop_writer, unregister_stop,
}

set-active :
    (ss : List Session) (i : ℕ) (s : Session) (fd n : ℕ)
    → i < length ss
    → session_matches fd n s ≡ true
    → session_active fd n (set ss i s) ≡ true
unfolding session_active
set-active [] i s fd n lt m = ground (arith, lt)
set-active (x ∷ ss) zero s fd n lt m = ground (arith, m)
set-active (x ∷ ss) (suc i) s fd n lt m = ground (arith, set-active ss i s fd n (omega arith) m)

set-keeps :
    (ss : List Session) (i j : ℕ) (s : Session)
    → slot_is_free (get_or ss i no_session) ≡ true
    → (get_or ss j no_session).active ≡ true
    → get_or (set ss i s) j no_session ≡ get_or ss j no_session
set-keeps [] i j s f a = refl
set-keeps (x ∷ ss) zero zero s f a = ground arith
set-keeps (x ∷ ss) zero (suc j) s f a = refl
set-keeps (x ∷ ss) (suc i) zero s f a = refl
set-keeps (x ∷ ss) (suc i) (suc j) s f a = set-keeps ss i j s f a

-- Registering a session changes no slot in use; where it succeeds, the session is active on its
-- descriptor in its network.
pub session_register-keeps :
    (nonblocking thread : Bool) (l : Login) (runtime : Option RuntimeConfig) (ss : List Session)
    → let (ok, ss') = session_register nonblocking thread l runtime ss in
      ((j : ℕ)
        → (get_or ss j no_session).active ≡ true
        → get_or ss' j no_session ≡ get_or ss j no_session)
      × (ok ≡ true → session_active l.fd l.network_id ss' ≡ true)
unfolding session_register set_up
session_register-keeps nb th l none ss = (λ j a. refl, cc)
session_register-keeps nb th l (some runtime) ss =
    elim (Option-cases (find_index slot_is_free ss)) [
      | inl full ↦ rw (full, session_register) (λ j a. refl, cc)
      | inr (i, found) ↦
          let (lt, free) = find_index-some slot_is_free ss no_session i found in
          let (ok, s) = set_up nb th (new_session l runtime) in
          rw (found, session_register)
            (
              λ j a. set-keeps ss i j s free a,
              λ y. set-active ss i s l.fd l.network_id lt (ground (arith, y)),
            )
    ]

-- No address is left that was learned on the descriptor, every slot of another descriptor is as it
-- was, and no other descriptor is shut down.
abbrev pub Forgets : ℕ → Hub → Option ℕ × Hub → Type 0
Forgets fd hub (down, hub') =
    Ensures (λ d. d ≡ fd) down
    × All (λ (e : MacEntry). (e.active && e.fd == fd) ≡ false) hub'.macs
    × ((j : ℕ)
        → is_on fd (get_or hub.sessions j no_session) ≡ false
        → get_or hub'.sessions j no_session ≡ get_or hub.sessions j no_session)

-- A slot in use on the descriptor of a login that refuses every frame.
abbrev pub IsMute : Login → Session → Type 0
IsMute l s =
    (s.active ≡ true)
    × (s.fd ≡ l.fd)
    × ((alloc : ℕ → Bool) (payload : Bytes) (enforce : Bool) (now : ℕ)
        → session_enqueue_tap alloc s payload enforce now ≡ (refused, s))

stopped-IsMute :
    (l : Login) (runtime : RuntimeConfig)
    → let (down, s) = session_stop_writer (set_up true true (new_session l runtime)).1 in
      (down ≡ some l.fd) × IsMute l s
unfolding session_stop_writer set_up session_queue_clear session_enqueue_tap
stopped-IsMute l runtime = (refl, (refl, refl, λ alloc payload enforce now. refl))

-- Between the two halves of `session_unregister` a login may take the slot that the first half gave
-- up. The second half then stops the writer of the new session and shuts down the descriptor of that
-- login. It leaves the slot in use on the new descriptor, and the
-- slot refuses every frame.
pub unregister_stop-IsMute :
    (fd i : ℕ) (hub : Hub) (l : Login) (runtime : RuntimeConfig)
    → find_index (is_on fd) hub.sessions ≡ some i
    → find_index slot_is_free (unregister_locked fd hub).1.sessions ≡ some i
    → let (slot, hub') = unregister_locked fd hub in
      let (ok, ss) = session_register true true l (some runtime) hub'.sessions in
      let (down, hub'') = unregister_stop slot (record hub' { sessions = ss }) in
      (ok ≡ true) × (down ≡ some l.fd) × IsMute l (get_or hub''.sessions i no_session)
unfolding unregister_stop
unregister_stop-IsMute fd i hub l runtime found free =
    let hub' = (unregister_locked fd hub).1 in
    let s = (set_up true true (new_session l runtime)).1 in
    let reg : session_register true true l (some runtime) hub'.sessions
        ≡ (true, set hub'.sessions i s) =
      unfold session_register set_up in rw (free, session_register) refl in
    let slot : (unregister_locked fd hub).0 ≡ some i =
      unfold unregister_locked in rw (found, unregister_locked) refl in
    let (lt, on) = find_index-some slot_is_free hub'.sessions no_session i free in
    let at : get_or (set hub'.sessions i s) i no_session ≡ s =
      get_or-set_self hub'.sessions i s no_session lt in
    let after = session_stop_writer s in
    let stop : unregister_stop (unregister_locked fd hub).0
          (record hub' { sessions = set hub'.sessions i s })
        ≡ (after.0, record hub' { sessions = set hub'.sessions i after.1 }) =
      rw (slot, at, set-twice hub'.sessions i s after.1) refl in
    let at' : get_or (set hub'.sessions i after.1) i no_session ≡ after.1 =
      get_or-set_self hub'.sessions i after.1 no_session lt in
    let (down, mute) = stopped-IsMute l runtime in
    rw (reg, stop) (refl, down, subst (IsMute l) (sym at') mute)
