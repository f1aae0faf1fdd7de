-- ===== src/Streams/End.antt =====
-- src/a/node_server.c: how SOCKS streams end, by the client, by the node or with the node.
use Prim.Native.String.{String}
use ntap_a.Base.{
  ℕ, ◌%◌, List, [], ◌∷◌, ◌++◌, Bool, true, false, ◌&&◌, ◌||◌, none, some, ◌==◌, ◌!=◌, if◌then◌else◌,
  get_or, map,
}
use ntap_a.Base.Words.{Bytes, byte_at}
use ntap_a.Wire.Socks.{
  reason_client_closed, reason_target_connect_failed, reason_resource_limited, reason_idle_timeout,
}
use ntap_a.Hub.{find_index}
use ntap_a.Streams.{
  Stream, Registry, Effect, shutdown, shutdown_send, stream_end, no_stream, invalid_socket, has_id,
  served_by, put,
}

unfoldable pub socks_close_reason_name : ℕ → String
socks_close_reason_name reason_code =
    if reason_code == reason_target_connect_failed
    then "target_connect_failed"
    else if reason_code == reason_resource_limited
    then "resource_limited"
    else if reason_code == reason_idle_timeout
    then "idle_timeout"
    else if reason_code == reason_client_closed
    then "client_closed"
    else "remote_closed"

-- `socks_stream_end_db`
unfoldable pub socks_stream_end_db : Bytes → ℕ → String → List Effect
socks_stream_end_db db_file db_stream_id reason =
    if db_stream_id == 0 || byte_at db_file 0 == 0
    then []
    else stream_end db_file db_stream_id reason ∷ []

unfoldable pub socks_stream_unregister : ℕ → Bool → String → Registry → List Effect × Registry
socks_stream_unregister stream_id close_client reason reg =
    if stream_id == 0 then ([], reg) else (elim (find_index (has_id stream_id) reg.streams) [
      | none ↦ ([], reg)
      | some i ↦
          let s = get_or reg.streams i no_stream in
          (
            (if close_client && s.client_fd != invalid_socket
                  then shutdown s.client_fd ∷ []
                  else [])
                ++ socks_stream_end_db s.db_file s.db_stream_id reason,
            put reg i (record s { active = false }),
          )
    ])

-- The stream where both sides have finished is given up, and its row ended.
abbrev pub finish : Registry → ℕ → Stream → Bool → String → List Effect × Registry
finish reg i s complete reason =
    if complete
    then (
      socks_stream_end_db s.db_file s.db_stream_id reason,
      put reg i (record s { active = false }),
    )
    else ([], put reg i s)

unfoldable pub socks_stream_mark_client_fin : ℕ → String → Registry → List Effect × Registry
socks_stream_mark_client_fin stream_id reason reg =
    if stream_id == 0 then ([], reg) else (elim (find_index (has_id stream_id) reg.streams) [
      | none ↦ ([], reg)
      | some i ↦
          let s = get_or reg.streams i no_stream in
          finish reg i (record s { client_fin = true }) s.node_fin reason
    ])

-- The flag is the lowest bit of `flags`.
unfoldable pub socks_stream_handle_node_close : ℕ → ℕ → ℕ → ℕ → Registry → List Effect × Registry
socks_stream_handle_node_close stream_id node_fd reason_code flags reg =
    let reason = socks_close_reason_name reason_code in
    if flags % 2 == 0
    then socks_stream_unregister stream_id true reason reg
    else if stream_id == 0 || node_fd == invalid_socket
    then ([], reg)
    else (elim (find_index (served_by stream_id node_fd) reg.streams) [
      | none ↦ ([], reg)
      | some i ↦
          let s = get_or reg.streams i no_stream in
          let (effects, reg') = finish reg i (record s { node_fin = true }) s.client_fin reason in
          (
            (if s.client_fd != invalid_socket then shutdown_send s.client_fd ∷ [] else [])
                ++ effects,
            reg',
          )
    ])

abbrev pub is_on_node : ℕ → Stream → Bool
is_on_node node_fd s = s.active && s.node_fd == node_fd

-- The second loop of `socks_stream_close_node`, over the streams that the first one has given up.
unfoldable pub close_effects : ℕ → List Stream → List Effect
close_effects node_fd [] = []
close_effects node_fd (s ∷ ss) =
    if is_on_node node_fd s
    then shutdown s.client_fd
      ∷ (socks_stream_end_db s.db_file s.db_stream_id "node_closed" ++ close_effects node_fd ss)
    else close_effects node_fd ss

unfoldable pub socks_stream_close_node : ℕ → Registry → List Effect × Registry
socks_stream_close_node node_fd reg = if node_fd == invalid_socket then ([], reg) else (
  close_effects node_fd reg.streams,
  record reg {
    streams =
        map (λ s. if is_on_node node_fd s then record s { active = false } else s) reg.streams;
  },
)
