-- ===== src/Streams/Foreign.antt =====
-- What a node can do to the streams of other nodes.
use ntap_a.Base.{
  ℕ, ◌%◌, ◌≡◌, ◌≢◌, refl, [], ◌∷◌, Bool, true, false, Option, none, some, get_or, get_or-set_self,
  get_or-set_ne, ==_ne, !=_ne, Bool-cases, inl, inr, arith, ◌==◌, ◌||◌, ◌+◌, sym, ap,
}
use ntap_a.Base.Words.{Bytes}
use ntap_a.Hub.{find_index}
use ntap_a.Hub.Lookup.{find_index-some, find_index-none, find_index_only}
use ntap_a.Streams.{
  Stream, Registry, Delivery, shutdown, no_stream, invalid_socket, has_id, served_by, put,
  socks_stream_send_to_client,
}
use ntap_a.Streams.End.{
  socks_stream_unregister, socks_stream_end_db, socks_close_reason_name,
  socks_stream_handle_node_close,
}

-- The stream in slot i is the only one in use with its id.
abbrev pub IsOnly : Registry → ℕ → ℕ → Type 0
IsOnly reg stream_id i =
    (find_index (has_id stream_id) reg.streams ≡ some i)
    × ((j : ℕ) → has_id stream_id (get_or reg.streams j no_stream) ≡ true → j ≡ i)

served-has :
    (id fd : ℕ) (s : Stream) → served_by id fd s ≡ true → (has_id id s ≡ true) × (s.node_fd ≡ fd)
served-has id fd s h = (ground (arith, h), ground (arith, h))

-- No other node serves the stream.
foreign-none :
    (reg : Registry) (id i node_fd : ℕ)
    → IsOnly reg id i
    → (get_or reg.streams i no_stream).node_fd ≢ node_fd
    → find_index (served_by id node_fd) reg.streams ≡ none
foreign-none reg id i node_fd (found, only) other =
    find_index-none (served_by id node_fd) reg.streams no_stream λ j.
      elim (Bool-cases (served_by id node_fd (get_or reg.streams j no_stream))) [
        | inr miss ↦ miss
        | inl hit ↦
            let (has, on) = served-has id node_fd (get_or reg.streams j no_stream) hit in
            absurd (other (rw (only j has) at on))
      ]

-- After the stream is given up, no slot in use has its id.
given_up :
    (reg : Registry) (id i j : ℕ)
    → IsOnly reg id i
    → has_id id (
        get_or
          (put reg i (record (get_or reg.streams i no_stream) { active = false })).streams
          j
          no_stream)
      ≡ false
given_up reg id i j (found, only) =
    let s = get_or reg.streams i no_stream in
    let (lt, on) = find_index-some (has_id id) reg.streams no_stream i found in
    elim (Bool-cases (j == i)) [
      | inl same ↦
          let e : j ≡ i = ground (arith, same) in
          rw (e, get_or-set_self reg.streams i (record s { active = false }) no_stream lt) refl
      | inr other ↦
          let ne : i ≢ j = ground (arith, other) in
          rw (get_or-set_ne reg.streams (record s { active = false }) no_stream ne)
            (elim (Bool-cases (has_id id (get_or reg.streams j no_stream))) [
              | inl hit ↦ absurd (ne (sym (only j hit)))
              | inr miss ↦ miss
            ])
    ]

fin-refused :
    (reg : Registry) (id i node_fd code flags : ℕ)
    → IsOnly reg id i
    → (get_or reg.streams i no_stream).node_fd ≢ node_fd
    → flags % 2 ≡ 1
    → socks_stream_handle_node_close id node_fd code flags reg ≡ ([], reg)
unfolding socks_stream_handle_node_close
fin-refused reg id i node_fd code flags only other odd =
    elim (Bool-cases (id == 0 || node_fd == invalid_socket)) [
      | inl none' ↦ rw (odd, none') refl
      | inr some' ↦ rw (odd, some', foreign-none reg id i node_fd only other) refl
    ]

-- The client that gets the bytes, if any.
abbrev pub client_of : Option Delivery → Option ℕ
client_of none = none
client_of (some d) = some d.client_fd

-- The bytes of the node that serves the stream go to its client.
served :
    (send : ℕ → Bytes → Bool) (reg : Registry) (id i b : ℕ) (bs : Bytes)
    → IsOnly reg id i
    → id ≢ 0
    → (get_or reg.streams i no_stream).client_fd ≢ invalid_socket
    → let s = get_or reg.streams i no_stream in
      client_of (socks_stream_send_to_client send id s.node_fd (b ∷ bs) reg) ≡ some s.client_fd
unfolding socks_stream_send_to_client
served send reg id i b bs (found, only) nz valid =
    let s = get_or reg.streams i no_stream in
    let (lt, on) = find_index-some (has_id id) reg.streams no_stream i found in
    let self : served_by id s.node_fd s ≡ true = ground (arith, on) in
    let at =
      find_index_only (served_by id s.node_fd) reg.streams no_stream i lt self
        (λ j e. only j (served-has id s.node_fd (get_or reg.streams j no_stream) e).0) in
    rw (==_ne id 0 nz, at, ==_ne s.client_fd invalid_socket valid) refl

not-served :
    (send : ℕ → Bytes → Bool) (reg : Registry) (id fd : ℕ) (data' : Bytes)
    → ((j : ℕ) → has_id id (get_or reg.streams j no_stream) ≡ false)
    → socks_stream_send_to_client send id fd data' reg ≡ none
unfolding socks_stream_send_to_client
not-served send reg id fd [] h = refl
not-served send reg id fd (b ∷ bs) h =
    let gone = find_index-none (served_by id fd) reg.streams no_stream λ j. ground (arith, h j) in
    elim (Bool-cases (id == 0)) [ inl z ↦ rw z refl | inr nz ↦ rw (nz, gone) refl ]

unregister-eq :
    (reg : Registry) (id i node_fd code flags : ℕ)
    → find_index (has_id id) reg.streams ≡ some i
    → (get_or reg.streams i no_stream).client_fd ≢ invalid_socket
    → id ≢ 0
    → flags % 2 ≡ 0
    → let s = get_or reg.streams i no_stream in
      socks_stream_handle_node_close id node_fd code flags reg ≡ (
        shutdown s.client_fd
            ∷ socks_stream_end_db s.db_file s.db_stream_id (socks_close_reason_name code),
        put reg i (record s { active = false }),
      )
unfolding socks_stream_handle_node_close socks_stream_unregister
unregister-eq reg id i node_fd code flags found valid nz even =
    let s = get_or reg.streams i no_stream in
    rw (even, ==_ne id 0 nz, found, !=_ne s.client_fd invalid_socket valid) refl

-- What a close from a node that does not serve the stream does: with the FIN flag nothing; without it,
-- the client's connection is shut down and the row ended, and the bytes of the node that serves the
-- stream, which went to the client before, are refused.
pub record IsCutOff (send : ℕ → Bytes → Bool) (reg : Registry) (id i node_fd code flags : ℕ)
    : Type 0 where
  with_fin : socks_stream_handle_node_close id node_fd code (flags + 1) reg ≡ ([], reg)
  effects :
      let s = get_or reg.streams i no_stream in
      (socks_stream_handle_node_close id node_fd code flags reg).0
      ≡ shutdown s.client_fd
        ∷ socks_stream_end_db s.db_file s.db_stream_id (socks_close_reason_name code)
  before :
      (b : ℕ) (bs : Bytes)
      → let s = get_or reg.streams i no_stream in
        client_of (socks_stream_send_to_client send id s.node_fd (b ∷ bs) reg) ≡ some s.client_fd
  after :
      (data' : Bytes)
      → socks_stream_send_to_client send id
          (get_or reg.streams i no_stream).node_fd
          data'
          (socks_stream_handle_node_close id node_fd code flags reg).1
        ≡ none

-- Where one stream in use has the id, which is not 0, and it has a client, a node that does not serve it
-- can end it: its close with the FIN flag changes nothing, but without the flag the client's connection is
-- shut down and the row ended, and the bytes of the node that serves the stream, which went to the client
-- before, are refused.
pub node_close_any_node :
    (send : ℕ → Bytes → Bool) (reg : Registry) (i stream_id node_fd reason_code flags : ℕ)
    → IsOnly reg stream_id i
    → (get_or reg.streams i no_stream).node_fd ≢ node_fd
    → (get_or reg.streams i no_stream).client_fd ≢ invalid_socket
    → stream_id ≢ 0
    → flags % 2 ≡ 0
    → IsCutOff send reg stream_id i node_fd reason_code flags
node_close_any_node send reg i id node_fd code flags only other valid nz even =
    let cut = unregister-eq reg id i node_fd code flags only.0 valid nz even in
    record {
      with_fin = fin-refused reg id i node_fd code (flags + 1) only other (omega (arith, even));
      effects = ap (λ p. p.0) cut;
      before = λ b bs. served send reg id i b bs only nz valid;
      after = λ data'. rw cut (
          not-served send (put reg i (record (get_or reg.streams i no_stream) { active = false }))
            id (get_or reg.streams i no_stream).node_fd data' (λ j. given_up reg id i j only));
    }
