-- ===== src/Lib.antt =====
-- The Rust game servers: a login server and a game server, the crates that they share, and a load
-- client. A client connects to the login server (crates/login_server), sends the SHA-256 of its
-- password and receives a one-time token, which Redis holds with the account for a short time. With
-- the token it connects to the game server (crates/game_server), which takes the token out of Redis
-- and then serves the player. Both servers accept connections through crates/net/src/acceptor.rs,
-- exchange length-prefixed protobuf frames (crates/net/src/codec.rs), run one task for each
-- connection, and keep the sessions in a registry (crates/net/src/registry.rs) that allows one
-- session for each user and is shared with an HTTP interface for operators.
--
-- Where the code is modelled:
--   Net.Codec           crates/net/src/codec.rs: decode and encode are decode_frame and encode_frame.
--                       Net.Codec.Drain and Net.Codec.Chunks run the decoder the way FramedRead does.
--   Net.Stats           crates/net/src/stats.rs and session_id.rs, with their counters as state.
--   Net.Consts          crates/net/src/consts.rs; all times are numbers of nanoseconds.
--   Net.Registry        crates/net/src/registry.rs: one function for each method, which holds the mutex
--                       throughout. Net.Registry.Exclusive has sequences of these operations, and
--                       Net.Registry.Spec an abstract registry of two functions;
--                       Net.Registry.Listing has snapshot and the other queries.
--   Net.Acceptor        crates/net/src/acceptor.rs: ConnectionGuard; Net.Acceptor.Loop is run.
--   Net.Outbox          crates/net/src/outbox.rs: send, send_flow; Net.Outbox.Writer is write_loop, and
--                       Net.Outbox.Handle spawn and Writer::close.
--   Net.Server          serve of crates/game_server/src/lib.rs and crates/login_server/src/lib.rs: the
--                       tasks of a server over one registry, as the step relation Step. What it needs
--                       of a session task is the interface Net.Server.Interface.Program, which
--                       GameServer.Serve.Task and LoginServer.Serve.Task fill.
--   Net.Monitor         crates/net/src/monitor.rs.
--   Net.SelectLoop      event_loop of both servers, over a record of handlers.
--   GameServer.Session  crates/game_server/src/session.rs; the children Loop (event loop and run),
--                       Protocol, Spawn, Gate, Turn and Task.
--   GameServer.Token, GameServer.Logout, GameServer.Backend
--                       parse_token_value and record_logout of the same file, and backend.rs.
--   LoginServer.Session, LoginServer.Authenticate, LoginServer.Backend
--                       crates/login_server/src/session.rs and backend.rs.
--   GameServer.Config, LoginServer.Config
--                       config.rs of the two servers: the records and their defaults.
--   LoginServer.Admin   crates/login_server/src/admin: session_key.rs (SessionKey), handlers.rs (Handlers,
--                       Scores) and mod.rs (Router: the routes; Server: a request from the middleware
--                       to its handler; Start: start).
--   Startup             main.rs of the two servers.
--   Db.Password, Db.Broadcast, Db.Pools
--                       crates/db/src/password.rs, broadcast.rs and lib.rs.
--   Handoff             the token between the two backends.
--   Conversation        a client and a session of the login server (Login), and of the game server
--                       (Enter), each reading what the other has sent; Play is both in turn, with the
--                       backends of the two servers.
--   DummyClient         crates/dummy_client/src: client.rs (Counters, Client), seeder.rs (Seeder),
--                       keyboard.rs (Console), main.rs and config.rs (Startup).
--   Proto, Text, Redis  the messages of crates/proto/proto/message.proto, the text functions of the
--                       standard library that the servers use, and the Redis server as a parameter.
--   Base                names of the libraries, lists, tests on numbers and association lists.
--   Examples            concrete parameters, and the theorems at concrete inputs.
--
-- The parts interact as in the code: an accepted connection becomes a task (Net.Server.accept), whose
-- first poll draws a session id, makes a kick token and registers both (begin); each later poll is one
-- pass of the event loop of the session (pass), which may log the session in through the registry and
-- so cancel the kick token of another; the work that it spawns is done in any order (deliver), against
-- the backend that all sessions share, and its result waits in the task's inbox; and a loop that has
-- ended leaves the registry (finish), closes its writer and writes its logout, which it repeats until
-- it succeeds or the shutdown comes (leave). A writer that cannot send ends its session (fail_write).
-- A step is what a task does from one await to the next.
--
-- State is passed explicitly. A handler returns the new state and whether the loop goes on. A task
-- that a session spawns is noted in the state; its result is an inner message of a later
-- pass, at any place among the others (GameServer.Session.perform is the work itself). One pass of the event loop (Poll) names the time, what the other
-- tasks did to the registry before it, and what is ready. For one session what another task does between two
-- passes is any list of registry operations; in Net.Server the other tasks are there themselves.
-- GameServer.Serve.Tokens follows the tokens of one account through the game server and its Redis; the
-- accounts of the tokens that are stored (Ledger) are a hypothesis on the store it starts with.
--
-- Code of other crates is a parameter with its documented behaviour: prost (Prost, and IsEncodable of
-- one message), the cancellation tokens (Cancellation), the bounded channel (Channel), FramedWrite
-- (Sink), Redis (with lifetimes that it takes, positive and below 2^63), the SQL statements (Sql), and SHA-256, PBKDF2 and Base64 (Crypto). Random values (the
-- token, salts, session keys) are arguments. Child tokens are Children, floats Floats, and what axum and
-- serde read out of a request Extractors.
--
-- Bounds and fuel: counters wrap at 2^32 or 2^64, as in a build without overflow checks. Recursion is
-- structural on the list of what arrives, but for three loops on fuel: Net.Codec.Drain.drain decodes at
-- most one message for each byte of the buffer, so one round more than its length is enough; Text.digits divides by ten, so a fuel above the number is
-- enough, and display gives it; DummyClient.Seeder.pieces advances by at least one, so a fuel above the
-- number of accounts is enough, and seed and generate_hashes give it.
--
-- Net.Server counts the session ids that were drawn; its theorems are about fewer than 2^64 of them,
-- when the counter of session_id.rs has not wrapped.
--
-- Not modelled: the merge of configuration sources by figment, logging, the TLS and HTTP protocols, the
-- terminal modes, the semaphore that delays the password hashes, and the rounding of the process
-- figures in the statistics of the HTTP interface. Float values are their bit patterns, and their
-- addition is an argument, or abstract (Floats). Net.Server has no clock: the delays between the logout
-- writes stand in GameServer.Logout, whose rounds GameServer.Serve.Logout steps a task through. That
-- `decode_eof` complains of bytes that are left over at the end of a stream is left out: the session
-- ends all the same.
pub mod Base
pub mod Proto
pub mod Text
pub mod Redis
pub mod Net
pub mod Db
pub mod LoginServer
pub mod GameServer
pub mod Handoff
pub mod Startup
pub mod DummyClient
pub mod Conversation
pub mod Examples
