-- ===== src/Lib.antt =====
-- NTAP-A, the control and relay server of a virtual Ethernet, and the protocol that it shares with
-- its peers.
--
-- Nodes and TAP clients log in to the server over TCP. Each message has a 16-byte header
-- (src/common/proto.c) and a payload that src/common/wire.c writes and reads, into the growing
-- buffer of src/common/buffer.c where its length is not known at first. A logged-in peer has a
-- session in src/a/node_server.c: two queues that a writer thread empties, control messages before
-- Ethernet frames. A frame that a session sends goes through relay_tap_frame: the server learns
-- which session its source address is on, and hands the frame to the session of the destination
-- address or floods it to the sessions of the network, within limits. Clients of the SOCKS listener
-- have their streams served by a node; the stream table says which node and which client belong
-- together. All messages go through src/common/net.c. The management API (src/a/api_server.c) is
-- HTTP: a request is read, its signature checked against the key of the API, its form fields read,
-- and the database (src/a/db_sqlite.c) asked. A client may reach a node directly with a token
-- (src/common/direct_token.c). Settings are in files that src/common/config.c reads.
--
-- Files and code:
--   Base      lists, options, results, tests of numbers, big-endian words, texts, decimal numbers
--   Proto     src/common/proto.c; Proto/Header, Proto/Limits: its theorems
--   Buffer    src/common/buffer.c; Buffer/Growth: append; Buffer/Writes: chains of appends
--   Wire      src/common/wire.c: the shared parts; Wire/Auth, AuthOk, Config, Frame, Socks: one
--             file for each group of messages, with the theorems in its children
--   Session   src/a/node_server.c: outbound_msg_t, active_session_t, session_queue_*,
--             session_enqueue_*, session_writer_run; Session/Queue: order; Session/Budget: bytes
--   Hub       the tables under g_sessions_mu; Hub/Mac: mac_*_locked; Hub/Flood: flood_allowed_locked;
--             Hub/Relay: relay_tap_frame; Hub/Registry: session_register, session_unregister;
--             Hub/Steps: the states that these reach
--   Streams   socks_stream_*; Streams/End: how a stream ends; Streams/Foreign: what a node can do to
--             the streams of others
--   Node      handle_node: its loop after the login; Node/Own: which queues a message may change;
--             Node/Socks5: socks5_authenticate, socks5_read_connect; Node/Socks5/Connect: which
--             requests are understood
--   Net       src/common/net.c: send_all, recv_all, send_msg, recv_msg; Net/Stream: how the bytes
--             are cut; Net/Message, Net/Refused: which messages arrive
--   Config    src/common/config.c; Config/Table: the entries as a map; Config/Load: a whole file;
--             Config/Server: src/a/config.c; Config/Server/Usable: which settings it gives
--   DirectToken  src/common/direct_token.c; DirectToken/RoundTrip, DirectToken/Sound
--   Api       src/a/api_server.c: Api/Nonce: api_nonce_record; Api/Auth: api_verify_signature;
--             Api/Form, Api/Fields: api_form_*, api_parse_*; Api/Routes, Api/Action, Api/Endpoint:
--             api_handle_json_endpoint; Api/Http: api_read_request; Api/Client: api_handle_client;
--             Api/Client/Rows: a client's requests for a row
--   Tests     the theorems at concrete inputs
--
-- A function of the model has the name of the C function, without the prefix ntap_ or the suffix
-- _locked. A return of -1 is `none` or an error value. A record stands for a struct, a list for a
-- table, in the order of its slots, and an index for a pointer to a slot. Integers are natural
-- numbers; a sum that may wrap has its `% 2 ^ w` written out. What a function does while it holds a
-- mutex is one step from a state to the next; session_unregister, which holds none between its two
-- halves, is two steps. Memory that malloc or realloc may refuse, a message that a socket may not
-- take, SHA-256 and HMAC are parameters, as is the database behind the API and the login of a SOCKS
-- client. A NULL argument is no value of the model unless the text of a definition says so.
--
-- The search for a capacity in ntap_buffer_append is on fuel: 65 doublings, since a capacity of at
-- least 1 passes every size_t after 64 of them. Everything else is structural recursion.
-- Decimal numbers are printed and read with fuel 20, the digits of the largest uint64_t.
--
-- Not modelled: opening and configuring sockets (src/common/net.c), threads, the accept loops, the
-- login dialogue and the loop of a SOCKS client's thread (src/a/node_server.c), the database
-- (src/a/db_sqlite.c), OpenSSL (src/common/hash.c), log, clock, TAP device and start-up.
pub mod Base
pub mod Proto
pub mod Buffer
pub mod Wire
pub mod Session
pub mod Hub
pub mod Streams
pub mod Node
pub mod Net
pub mod Config
pub mod DirectToken
pub mod Api
mod Tests
