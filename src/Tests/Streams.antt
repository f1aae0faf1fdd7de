-- ===== src/Tests/Streams.antt =====
-- The SOCKS streams of src/a/node_server.c.
use ntap_a.Base.{ℕ, zero, suc, get_or, ◌≡◌, refl, [], ◌∷◌, ◌++◌, true, some, arith}
use ntap_a.Hub.{find_index}
use ntap_a.Streams.{
  Stream, Registry, shutdown_send, no_stream, has_id, served_by, put, socks_stream_register,
}
use ntap_a.Streams.End.{
  socks_stream_mark_client_fin, socks_stream_handle_node_close, socks_stream_close_node,
  socks_stream_end_db, socks_close_reason_name,
}
use ntap_a.Streams.Close.{over, socks_stream_fin}
use ntap_a.Streams.Foreign.{IsOnly, IsCutOff, node_close_any_node}
use ntap_a.Streams.Slots.{
  Registers, Closed, count_shutdowns, clients_on, socks_stream_register-Registers,
  socks_stream_close_node-Closed,
}

-- Stream 5 of the node on descriptor 4.
abbrev open_stream : Stream
open_stream = record no_stream {
  active = true;
  stream_id = 5;
  node_pk = 1;
  db_stream_id = 30;
  node_fd = 4;
  client_fd = 10;
  db_file = 100 ∷ 98 ∷ [];
}

abbrev pub reg : Registry
reg = record { streams = no_stream ∷ open_stream ∷ []; next_id = 6 }

has_5 : find_index (has_id 5) reg.streams ≡ some 1
unfolding find_index
has_5 = refl

served_5 : find_index (served_by 5 4) reg.streams ≡ some 1
unfolding find_index
served_5 = refl

socks_stream_fin_example :
    let last = put reg 1 (over open_stream) in
    let (e1, reg1) = socks_stream_mark_client_fin 5 "client_closed" reg in
    let (e2, reg2) = socks_stream_handle_node_close 5 4 2 1 reg1 in
    let (f1, reg3) = socks_stream_handle_node_close 5 4 2 1 reg in
    let (f2, reg4) = socks_stream_mark_client_fin 5 "client_closed" reg3 in
    ((e1 ++ e2)
      ≡ shutdown_send 10 ∷ socks_stream_end_db (100 ∷ 98 ∷ []) 30 (socks_close_reason_name 2))
    × (reg2 ≡ last)
    × ((f1 ++ f2) ≡ shutdown_send 10 ∷ socks_stream_end_db (100 ∷ 98 ∷ []) 30 "client_closed")
    × (reg4 ≡ last)
socks_stream_fin_example =
    socks_stream_fin reg 1 5 4 2 "client_closed" has_5 served_5 (omega arith) (omega arith)
      (omega arith) refl refl

stream_5-IsOnly : IsOnly reg 5 1
stream_5-IsOnly = (has_5, only_at)
  where
    only_at : (j : ℕ) → has_id 5 (get_or reg.streams j no_stream) ≡ true → j ≡ 1
    only_at zero on = ground (arith, on)
    only_at (suc zero) on = refl
    only_at (suc (suc j)) on = ground (arith, on)

node_close_any_node_example : IsCutOff (λ fd bs. true) reg 5 1 9 2 0
node_close_any_node_example =
    node_close_any_node (λ fd bs. true) reg 1 5 9 2 0 stream_5-IsOnly (omega arith) (omega arith)
      (omega arith) refl

socks_stream_register-Registers_example :
    Registers 1 2 reg (socks_stream_register 1 4 11 (100 ∷ 98 ∷ []) 2 reg)
socks_stream_register-Registers_example =
    socks_stream_register-Registers 1 4 11 (100 ∷ 98 ∷ []) 2 reg

socks_stream_close_node-Closed_example :
    let (effects, reg') = socks_stream_close_node 4 reg in
    Closed 4 reg.streams reg'.streams
    × (reg'.next_id ≡ 6)
    × (count_shutdowns 10 effects ≡ clients_on 4 10 reg.streams)
socks_stream_close_node-Closed_example = socks_stream_close_node-Closed 4 10 reg (omega arith)
