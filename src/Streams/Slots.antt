-- ===== src/Streams/Slots.antt =====
-- How many streams a node has.
use ntap_a.Base.{
  ℕ, zero, suc, ◌+◌, ◌≤◌, ◌<◌, ◌≡◌, ◌≢◌, refl, List, [], ◌∷◌, false, ◌&&◌, ◌||◌, arith, ◌==◌, leb,
  if◌then◌else◌, set, Option-cases, Bool-cases, inl, inr, map, ==_ne,
}
use ntap_a.Base.Words.{Bytes, byte_at}
use ntap_a.Hub.{find_index}
use ntap_a.Streams.{
  Stream, Registry, invalid_socket, streams_of, stream_limit, slot_is_free, socks_stream_register,
  socks_next_stream_id, Effect, shutdown, shutdown_send, stream_end,
}
use ntap_a.Streams.End.{is_on_node, socks_stream_close_node, close_effects, socks_stream_end_db}

-- A slot adds at most one stream.
streams_of-set_le :
    (n : ℕ) (ss : List Stream) (i : ℕ) (s : Stream)
    → streams_of n (set ss i s) ≤ streams_of n ss + 1
unfolding streams_of
streams_of-set_le n [] i s = omega arith
streams_of-set_le n (x ∷ ss) zero s = ground arith
streams_of-set_le n (x ∷ ss) (suc i) s = omega (arith, streams_of-set_le n ss i s)

socks_next_stream_id_set : (n : ℕ) → (socks_next_stream_id n).0 ≢ 0
unfolding socks_next_stream_id
socks_next_stream_id_set n = ground arith

-- What registering promises of its id and of the registry.
abbrev pub Registers : ℕ → ℕ → Registry → ℕ × Registry → Type 0
Registers node_pk limit reg (stream_id, reg') =
    (streams_of node_pk reg.streams ≤ stream_limit limit
      → streams_of node_pk reg'.streams ≤ stream_limit limit)
    × (stream_id ≡ 0 → reg' ≡ reg)

-- Registering a stream never takes a node over the limit on its streams; where it gives no id, it
-- changes nothing.
pub socks_stream_register-Registers :
    (node_pk node_fd client_fd : ℕ) (db_file : Bytes) (limit : ℕ) (reg : Registry)
    → Registers node_pk limit reg
        (socks_stream_register node_pk node_fd client_fd db_file limit reg)
unfolding socks_stream_register
socks_stream_register-Registers node_pk node_fd client_fd db_file limit reg =
    let bad =
      node_pk == 0
      || node_fd == invalid_socket
      || client_fd == invalid_socket
      || byte_at db_file 0 == 0 in
    elim (Bool-cases bad) [
      | inl b ↦ rw b (λ h. h, λ z. refl)
      | inr g ↦ elim (Bool-cases (leb (stream_limit limit) (streams_of node_pk reg.streams))) [
        | inl full ↦ rw (g, full) (λ h. h, λ z. refl)
        | inr room ↦ elim (Option-cases (find_index slot_is_free reg.streams)) [
          | inl none' ↦ rw (g, room, none') (λ h. h, λ z. refl)
          | inr (i, free) ↦
              let lt : streams_of node_pk reg.streams < stream_limit limit = ground (arith, room) in
              rw (g, room, free)
                (
                  λ h. omega (arith, streams_of-set_le node_pk reg.streams i _, lt),
                  λ z. elim (socks_next_stream_id_set reg.next_id z) [ ],
                )
        ]
      ]
    ]

count-off :
    (node_fd : ℕ) (s : Stream)
    → is_on_node node_fd (if is_on_node node_fd s then record s { active = false } else s) ≡ false
count-off node_fd s = ground arith

-- Where no stream of the node is left and every stream of another node is as it was.
abbrev pub Closed : ℕ → List Stream → List Stream → Type 0
Closed node_fd [] [] = Unit
Closed node_fd [] (t ∷ ts) = ⊥
Closed node_fd (s ∷ ss) [] = ⊥
Closed node_fd (s ∷ ss) (t ∷ ts) =
    (is_on_node node_fd t ≡ false) × (is_on_node node_fd s ≡ false → t ≡ s) × Closed node_fd ss ts

map-Closed :
    (node_fd : ℕ) (ss : List Stream)
    → Closed node_fd ss
        (map (λ s. if is_on_node node_fd s then record s { active = false } else s) ss)
map-Closed node_fd [] = tt
map-Closed node_fd (s ∷ ss) = (count-off node_fd s, λ off. rw off refl, map-Closed node_fd ss)

pub count_shutdowns : ℕ → List Effect → ℕ
count_shutdowns fd [] = 0
count_shutdowns fd (shutdown f ∷ es) = (if f == fd then 1 else 0) + count_shutdowns fd es
count_shutdowns fd (shutdown_send f ∷ es) = count_shutdowns fd es
count_shutdowns fd (stream_end db id r ∷ es) = count_shutdowns fd es

pub clients_on : ℕ → ℕ → List Stream → ℕ
clients_on node_fd fd [] = 0
clients_on node_fd fd (s ∷ ss) =
    (if is_on_node node_fd s && s.client_fd == fd then 1 else 0) + clients_on node_fd fd ss

close_effects-count :
    (node_fd fd : ℕ) (ss : List Stream)
    → count_shutdowns fd (close_effects node_fd ss) ≡ clients_on node_fd fd ss
unfolding close_effects count_shutdowns clients_on socks_stream_end_db
close_effects-count node_fd fd [] = refl
close_effects-count node_fd fd (s ∷ ss) = ground (arith, close_effects-count node_fd fd ss)

-- When a node goes, none of its streams is left, the streams of other nodes are as they were, and
-- each client's descriptor is shut down as often as one of the streams that went was on it.
pub socks_stream_close_node-Closed :
    (node_fd fd : ℕ) (reg : Registry)
    → node_fd ≢ invalid_socket
    → let (effects, reg') = socks_stream_close_node node_fd reg in
      Closed node_fd reg.streams reg'.streams
      × (reg'.next_id ≡ reg.next_id)
      × (count_shutdowns fd effects ≡ clients_on node_fd fd reg.streams)
unfolding socks_stream_close_node
socks_stream_close_node-Closed node_fd fd reg valid =
    rw (==_ne node_fd invalid_socket valid)
      (map-Closed node_fd reg.streams, refl, close_effects-count node_fd fd reg.streams)
