-- ===== src/Lib.antt =====
-- EnclaveStation: the server of a self-hosted chat, in C++, under backend/src. Clients hold one or
-- more WebSockets to a process; several processes share one PostgreSQL database and, when it is
-- configured, one Redis. A message handler runs in two halves: a job on a thread of the database
-- pool, which reads and writes the database, and a deferred part on the event loop, which sends.
-- Sending goes through topics: a process keeps which of its sockets subscribe to which topic,
-- delivers to those, and publishes the same payload to Redis for the other processes.
--
-- The files:
--
-- Base: lists over the native numbers, decidable keys, association lists, sets and multimaps as
-- lists, and texts as lists of code units. Nothing there is particular to the program.
--
-- Ws: the hub of backend/src/ws/ws_handler.cpp. `Hub` is the state of `WsHandler` (`conns` is
-- `socket_user_data`, the others are `local_users_` and `local_subscriptions_`), with the frames
-- and the publications that it emitted so far in `out`. Ws.Hub has the topic operations,
-- Ws.Sessions the open and close handlers and the disconnections, Ws.Control the commands between
-- processes, Ws.Relay typing, read receipts and wiki relays. A step relation over the operations is
-- Ws.Reach. A socket is a number; the order of an unordered map is the order of a list. The JSON of
-- a control command is a parameter with a law: that it parses back what it dumps.
--
-- Chat: the message handlers. Chat.Store is the part of backend/src/db/database.cpp that they call,
-- with a table as a list of rows (Chat.Store.Rows) and the generated ids and times as a parameter.
-- Chat.Mentions is the scanner for `@name`; its fuel is the length of the text and one more, as
-- each round moves past an `@`. Chat.Post is `handle_send_message`, Chat.Moderate edits, deletions
-- and reactions, Chat.Events what is sent.
--
-- Channels: the routes of backend/src/handlers/channel_handler.cpp that change a channel or its
-- members. Channels.Tables has the queries, Channels.Requests the bodies, replies and WebSocket
-- calls, with `perform` for the deferred half of a handler on the hub of Ws, Channels.Handlers the
-- routes for joining, inviting, removing and roles, Channels.Lifecycle the others, and
-- Channels.Routes the CSRF test and the session in front of them. Channels.Steps is the abstract
-- view: a step relation on the rows of `channel_members` that does not mention the requests.
-- Channels.Rows, Holders, Roles, Admins, Direct and Sockets are about the rows, the
-- number of those with a role, who changes whose role, the last admin, direct
-- channels and the subscriptions.
--
-- Spaces: the routes of backend/src/handlers/space_handler.cpp that remove a member, change a
-- member's role and leave, from the point where the session is known. Spaces.Tables has the
-- queries, Spaces.Requests the replies and WebSocket calls, Spaces.Handlers the routes and
-- `run_space`, which is any one of them. Spaces.Owners, Ranks and Removal are about the last owner,
-- who changes whose role, and what a user who is gone has lost.
--
-- Pools: backend/src/db/connection_pool.cpp (Pools.Connections) and
-- backend/src/db/db_thread_pool.cpp (Pools.Workers), as step relations whose steps are the critical
-- sections under the mutex, so that any interleaving of the threads is a sequence of steps. Whether
-- a connection is open and whether a new one can be made is told to each step. A worker that waits
-- tests the predicate, goes to sleep and is notified in separate steps, as the destructor notifies
-- without the mutex and a wake-up can be lost; so it is not claimed that the destructor returns.
--
-- Uploads: chunked uploads. Uploads.Manager is backend/src/upload_manager.cpp with the queries on
-- `upload_sessions`, over the interface of backend/src/storage/storage_backend.h (Uploads.Storage),
-- and Uploads.LocalFs the local backend, over a file system that is a parameter with the laws that
-- POSIX documents of calls that succeed. Uploads.Bytes is about the bytes of a file after a write,
-- and the modules under Uploads.Manager about the chunks that have arrived.
--
-- Web: what stands before the REST handlers, from backend/src/handlers/handler_utils.h: Web.Cookies
-- the session cookie and the CSRF test, Web.Guards the guards and `validate_session`, Web.Bodies
-- the cap on a request's body. Web.Files is backend/src/handlers/file_access_utils.cpp. A cookie
-- header is scanned with a fuel of its length and one more, as each round moves past a `;`.
--
-- Auth: backend/src/auth/totp.cpp. Auth.Base32 is the encoding of a secret, Auth.Totp the codes,
-- their verification and the URI. HMAC-SHA1 is a parameter; the law that is asked of it is that a
-- digest has twenty bytes. Auth.Base64url, Auth.Cbor and Auth.WebAuthn are
-- backend/src/auth/webauthn.cpp: the encoding, the reader of keys (its fuel is the number of bytes
-- and one more), and the two ceremonies, with JSON, SHA-256 and ECDSA as the parameters of a
-- record.
--
-- Ids: PostgreSQL reads a uuid in several spellings, and stores one. Where a handler compares or
-- sends the text of a path, in removing a member of a channel or a space and in leaving a space, the
-- database's reading of it is `cast`, of the record Generator. Elsewhere an id is taken to be spelt the
-- way that the database spells it. Sending a message has the foreign keys and the refusal of a text
-- that is not UTF-8 (`is_text`, of the same record), after which the job ends with what it has stored.
--
-- Not modelled: the JSON texts of events, the log, exceptions of a lost database, and two jobs that
-- interleave on the database; each job is one step. Also texts that are no ids, the length limits of
-- columns, and the exhaustion of the stack. The other REST handlers, the S3 store, the AI tools,
-- metrics and the web client are outside of these files.
pub mod Base
pub mod Ws
pub mod Chat
pub mod Channels
pub mod Spaces
pub mod Pools
pub mod Uploads
pub mod Web
pub mod Auth
