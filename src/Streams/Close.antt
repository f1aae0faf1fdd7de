-- ===== src/Streams/Close.antt =====
-- How a SOCKS stream ends.
use Prim.Native.String.{String}
use ntap_a.Base.{
  ℕ, ◌≡◌, ◌≢◌, refl, [], ◌∷◌, ◌++◌, true, false, some, get_or, get_or-set_self, set-twice, ap, ◌∙◌,
  ==_ne, !=_ne,
}
use ntap_a.Hub.{find_index}
use ntap_a.Hub.Lookup.{find_index-some, find_index-set}
use ntap_a.Streams.{
  Stream, Registry, shutdown_send, no_stream, invalid_socket, has_id, served_by, put,
}
use ntap_a.Streams.End.{
  finish, socks_stream_end_db, socks_stream_mark_client_fin, socks_close_reason_name,
  socks_stream_handle_node_close,
}

-- The stream after both sides have finished.
abbrev pub over : Stream → Stream
over s = record s { active = false; client_fin = true; node_fin = true }

mark_client_fin-eq :
    (reg : Registry) (i stream_id : ℕ) (s : Stream) (reason : String)
    → stream_id ≢ 0
    → find_index (has_id stream_id) reg.streams ≡ some i
    → get_or reg.streams i no_stream ≡ s
    → socks_stream_mark_client_fin stream_id reason reg
      ≡ finish reg i (record s { client_fin = true }) s.node_fin reason
unfolding socks_stream_mark_client_fin
mark_client_fin-eq reg i stream_id s reason nz found at = rw (==_ne stream_id 0 nz, found, at) refl

node_close-eq :
    (reg : Registry) (i stream_id node_fd code : ℕ) (s : Stream)
    → stream_id ≢ 0
    → node_fd ≢ invalid_socket
    → s.client_fd ≢ invalid_socket
    → find_index (served_by stream_id node_fd) reg.streams ≡ some i
    → get_or reg.streams i no_stream ≡ s
    → let (effects, reg') =
        finish reg i (record s { node_fin = true }) s.client_fin (socks_close_reason_name code) in
      socks_stream_handle_node_close stream_id node_fd code 1 reg
      ≡ (shutdown_send s.client_fd ∷ effects, reg')
unfolding socks_stream_handle_node_close
node_close-eq reg i stream_id node_fd code s nz valid open' found at =
    rw
      (
        ==_ne stream_id 0 nz,
        ==_ne node_fd invalid_socket valid,
        found,
        at,
        !=_ne s.client_fd invalid_socket open',
      )
      refl

-- Both sides of a stream that neither has finished yet finish, in one order and in the other: the
-- first of them leaves the stream in its slot, the second gives it up; the client's connection is closed for sending once, when the node
-- finishes, and the row ends once, at the end, with the reason of whoever finished last.
pub socks_stream_fin :
    (reg : Registry) (i stream_id node_fd reason_code : ℕ) (reason : String)
    → find_index (has_id stream_id) reg.streams ≡ some i
    → find_index (served_by stream_id node_fd) reg.streams ≡ some i
    → stream_id ≢ 0
    → node_fd ≢ invalid_socket
    → (get_or reg.streams i no_stream).client_fd ≢ invalid_socket
    → (get_or reg.streams i no_stream).client_fin ≡ false
    → (get_or reg.streams i no_stream).node_fin ≡ false
    → let s = get_or reg.streams i no_stream in
      let last = put reg i (over s) in
      let (e1, reg1) = socks_stream_mark_client_fin stream_id reason reg in
      let (e2, reg2) = socks_stream_handle_node_close stream_id node_fd reason_code 1 reg1 in
      let (f1, reg3) = socks_stream_handle_node_close stream_id node_fd reason_code 1 reg in
      let (f2, reg4) = socks_stream_mark_client_fin stream_id reason reg3 in
      ((e1 ++ e2)
        ≡ shutdown_send s.client_fd
          ∷ socks_stream_end_db s.db_file s.db_stream_id (socks_close_reason_name reason_code))
      × (reg2 ≡ last)
      × ((f1 ++ f2)
          ≡ shutdown_send s.client_fd ∷ socks_stream_end_db s.db_file s.db_stream_id reason)
      × (reg4 ≡ last)
socks_stream_fin reg i stream_id node_fd code reason has serves nz valid open' c n =
    let s = get_or reg.streams i no_stream in
    let (lt, on) = find_index-some (has_id stream_id) reg.streams no_stream i has in
    let s1 = record s { client_fin = true } in
    let s2 = record s { node_fin = true } in
    let serves1 =
      find_index-set (served_by stream_id node_fd) reg.streams i s1 serves
        (find_index-some (served_by stream_id node_fd) reg.streams no_stream i serves).1 in
    let has2 = find_index-set (has_id stream_id) reg.streams i s2 has on in
    let m1 = mark_client_fin-eq reg i stream_id s reason nz has refl in
    let c1 =
      node_close-eq (put reg i s1) i stream_id node_fd code s1 nz valid open' serves1
        (get_or-set_self reg.streams i s1 no_stream lt) in
    let c2 = node_close-eq reg i stream_id node_fd code s nz valid open' serves refl in
    let m2 =
      mark_client_fin-eq (put reg i s2) i stream_id s2 reason nz has2
        (get_or-set_self reg.streams i s2 no_stream lt) in
    let ended = λ (r : String). (socks_stream_end_db s.db_file s.db_stream_id r) in
    let m1' : socks_stream_mark_client_fin stream_id reason reg ≡ ([], put reg i s1) =
      m1 ∙ ap (λ b. finish reg i s1 b reason) n in
    let c1' : socks_stream_handle_node_close stream_id node_fd code 1 (put reg i s1)
        ≡ (shutdown_send s.client_fd ∷ ended (socks_close_reason_name code), put reg i (over s)) =
      c1
      ∙ ap
          (λ xs. (
            shutdown_send s.client_fd ∷ ended (socks_close_reason_name code),
            record reg { streams = xs },
          ))
          (set-twice reg.streams i s1 (over s)) in
    let c2' : socks_stream_handle_node_close stream_id node_fd code 1 reg
        ≡ (shutdown_send s.client_fd ∷ [], put reg i s2) =
      c2
      ∙ ap
          (λ b.
            let (e, r) = finish reg i s2 b (socks_close_reason_name code) in
            (shutdown_send s.client_fd ∷ e, r))
          c in
    let m2' : socks_stream_mark_client_fin stream_id reason (put reg i s2)
        ≡ (ended reason, put reg i (over s)) =
      m2
      ∙ ap (λ xs. (ended reason, record reg { streams = xs }))
          (set-twice reg.streams i s2 (over s)) in
    (rw (m1', c1') refl, rw (m1', c1') refl, rw (c2', m2') refl, rw (c2', m2') refl)
