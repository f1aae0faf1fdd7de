-- ===== src/Node/Own.antt =====
-- What a peer's messages reach.
use ntap_a.Base.{
  ℕ, ◌≡◌, refl, List, [], ◌∷◌, true, not, ◌&&◌, Option, none, some, ◌==◌, ◌!=◌, get_or, set, arith,
  Bool-cases, Option-cases, inl, inr, ◌⊎◌, subst, Ensures, Ensures-elim,
}
use ntap_a.Base.Words.{Bytes}
use ntap_a.Proto.MsgType
use ntap_a.Wire.Frame.{TapFrame, decode_tap_frame}
use ntap_a.Wire.Socks.{decode_socks_data, decode_socks_close, SocksData, SocksClose}
use ntap_a.Session.{Session, session_enqueue_control}
use ntap_a.Hub.{session_find, session_matches, find_index}
use ntap_a.Hub.Relay.{no_session, relay_tap_frame, floods_to}
use ntap_a.Hub.Relay.Delivery.{Relayed}
use ntap_a.Hub.Relay.Isolation.{sender, relay_tap_frame-Relayed}
use ntap_a.Streams.{Delivery, socks_stream_send_to_client}
use ntap_a.Node.{
  Peer, Env, Tables, Turn, pong_to, on_ping, on_tap_frame, delivered, on_socks_data, on_socks_close,
  handle_message,
}

-- Slot by slot, a session is of this network, or its queues are as they were.
abbrev pub Others : ℕ → List Session → List Session → Type 0
Others n [] [] = Unit
Others n [] (t ∷ ts) = ⊥
Others n (s ∷ ss) [] = ⊥
Others n (s ∷ ss) (t ∷ ts) =
    ((s.network_id ≡ n) ⊎ ((t.ctrl_queue ≡ s.ctrl_queue) × (t.tap_queue ≡ s.tap_queue)))
    × Others n ss ts

Others-self : (n : ℕ) (ss : List Session) → Others n ss ss
Others-self n [] = tt
Others-self n (s ∷ ss) = (inr (refl, refl), Others-self n ss)

floods_to-network :
    (fd n : ℕ) (source s : Session) → floods_to fd n source s ≡ true → s.network_id ≡ n
floods_to-network fd n source s h = ground (arith, h)

Relayed-Others :
    (fd n : ℕ) (source : Session) (payload : Bytes) (ss ts : List Session) (k : ℕ)
    → Relayed (floods_to fd n source) payload ss ts k
    → Others n ss ts
Relayed-Others fd n source payload [] [] k r = tt
Relayed-Others fd n source payload [] (t ∷ ts) k r = r
Relayed-Others fd n source payload (s ∷ ss) [] k r = r
Relayed-Others fd n source payload (s ∷ ss) (t ∷ ts) k (c, inl (q, r)) =
    (inr (c, q), Relayed-Others fd n source payload ss ts k r)
Relayed-Others fd n source payload (s ∷ ss) (t ∷ ts) k (c, inr (may, q, j, e, r)) =
    (inl (floods_to-network fd n source s may), Relayed-Others fd n source payload ss ts j r)

-- The slot that is found for a descriptor in a network is one of that network.
find-Others :
    (fd n : ℕ) (t : Session) (ss : List Session)
    → Ensures (λ i. Others n ss (set ss i t)) (find_index (session_matches fd n) ss)
unfolding find_index
find-Others fd n t [] = tt
find-Others fd n t (s ∷ ss) = elim (Bool-cases (session_matches fd n s)) [
  | inl hit ↦ rw hit (inl (ground (arith, hit)), Others-self n ss)
  | inr miss ↦ elim (Option-cases (find_index (session_matches fd n) ss)) [
    | inl none' ↦ rw (miss, none') tt
    | inr (i, e) ↦
        rw (miss, e)
          (
            inr (refl, refl),
            Ensures-elim (λ i. Others n ss (set ss i t)) (find_index (session_matches fd n) ss)
                (find-Others fd n t ss) e,
          )
  ]
]

abbrev pub Own : Peer → Tables → Turn → Type 0
Own peer t turn = Others peer.network_id t.hub.sessions turn.tables.hub.sessions

pong_to-Own :
    (env : Env) (peer : Peer) (t : Tables) (found : Option ℕ)
    → session_find peer.fd peer.network_id t.hub.sessions ≡ found
    → Own peer t (pong_to env t found)
unfolding session_find
pong_to-Own env peer t none e = Others-self peer.network_id t.hub.sessions
pong_to-Own env peer t (some i) e =
    let (r, s) =
      session_enqueue_control env.alloc (get_or t.hub.sessions i no_session) MsgType.pong [] in
    Ensures-elim (λ i'. Others peer.network_id t.hub.sessions (set t.hub.sessions i' s))
      (find_index (session_matches peer.fd peer.network_id) t.hub.sessions)
      (find-Others peer.fd peer.network_id s t.hub.sessions) e

on_ping-Own : (env : Env) (peer : Peer) (t : Tables) → Own peer t (on_ping env peer t)
unfolding on_ping
on_ping-Own env peer t = elim (Bool-cases (peer.is_node && not env.set_online)) [
  | inl offline ↦ rw offline (Others-self peer.network_id t.hub.sessions)
  | inr online ↦ elim (Bool-cases (peer.has_row && not env.touch)) [
    | inl failed ↦ rw (online, failed) (Others-self peer.network_id t.hub.sessions)
    | inr touched ↦
        rw (online, touched)
          (pong_to-Own env peer t (session_find peer.fd peer.network_id t.hub.sessions) refl)
  ]
]

on_tap_frame-Own :
    (env : Env) (peer : Peer) (payload : Bytes) (m : Option TapFrame) (t : Tables)
    → Own peer t (on_tap_frame env peer payload m t)
unfolding on_tap_frame
on_tap_frame-Own env peer payload none t = Others-self peer.network_id t.hub.sessions
on_tap_frame-Own env peer payload (some m) t = elim (Bool-cases (m.network_id != peer.network_id)) [
  | inl foreign ↦ rw foreign (Others-self peer.network_id t.hub.sessions)
  | inr own ↦ elim (Bool-cases (peer.has_row && not env.touch)) [
    | inl failed ↦ rw (own, failed) (Others-self peer.network_id t.hub.sessions)
    | inr touched ↦
        let (k, mode, hub) =
          relay_tap_frame env.alloc_frame peer.fd m.network_id m.frame payload env.now t.hub in
        let source = sender peer.fd m.network_id t.hub in
        let same : m.network_id ≡ peer.network_id = ground (arith, own) in
        let relayed =
          Relayed-Others peer.fd m.network_id source payload t.hub.sessions hub.sessions k (
            relay_tap_frame-Relayed env.alloc_frame peer.fd m.network_id m.frame payload env.now
              t.hub) in
        rw (own, touched) (subst (λ n. Others n t.hub.sessions hub.sessions) same relayed)
  ]
]

delivered-Own : (peer : Peer) (t : Tables) (d : Option Delivery) → Own peer t (delivered t d)
delivered-Own peer t none = Others-self peer.network_id t.hub.sessions
delivered-Own peer t (some d) = Others-self peer.network_id t.hub.sessions

on_socks_data-Own :
    (env : Env) (peer : Peer) (m : Option SocksData) (t : Tables)
    → Own peer t (on_socks_data env peer m t)
unfolding on_socks_data
on_socks_data-Own env peer none t = Others-self peer.network_id t.hub.sessions
on_socks_data-Own env peer (some m) t =
    delivered-Own peer t
      (socks_stream_send_to_client env.send m.stream_id peer.fd m.bytes t.streams)

on_socks_close-Own :
    (peer : Peer) (m : Option SocksClose) (t : Tables) → Own peer t (on_socks_close peer m t)
unfolding on_socks_close
on_socks_close-Own peer none t = Others-self peer.network_id t.hub.sessions
on_socks_close-Own peer (some m) t = Others-self peer.network_id t.hub.sessions

-- Whatever message a peer sends, only the queues of sessions of its own network change: those of every
-- other session are as they were.
pub handle_message-Own :
    (env : Env) (peer : Peer) (type : ℕ) (payload : Bytes) (t : Tables)
    → Own peer t (handle_message env peer type payload t)
unfolding handle_message
handle_message-Own env peer type payload t =
    let self = Others-self peer.network_id t.hub.sessions in
    elim (Bool-cases (type == MsgType.ping)) [
      | inl ping ↦ rw ping (on_ping-Own env peer t)
      | inr a ↦ elim (Bool-cases (type == MsgType.tap_frame)) [
        | inl frame ↦ rw (a, frame) (on_tap_frame-Own env peer payload (decode_tap_frame payload) t)
        | inr b ↦ elim (Bool-cases (type == MsgType.socks_stream_data)) [
          | inl bytes ↦ rw (a, b, bytes) (on_socks_data-Own env peer (decode_socks_data payload) t)
          | inr c ↦ elim (Bool-cases (type == MsgType.socks_stream_close)) [
            | inl close ↦
                rw (a, b, c, close) (on_socks_close-Own peer (decode_socks_close payload) t)
            | inr d ↦ rw (a, b, c, d) self
          ]
        ]
      ]
    ]
