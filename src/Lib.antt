-- ===== src/Lib.antt =====
-- The call system Lalo: its signaling hub, its session orchestrator, and the services around them
-- (Go, under internal/ and cmd/).
--
-- The signaling service keeps WebSocket connections in a hub (internal/signaling/hub.go), which
-- handles the messages of clients one after another, and keeps each 1:1 call as a record in Redis
-- (internal/signaling/session.go), whose state moves along the machine of
-- internal/signaling/state.go. For group calls the hub calls the orchestrator (internal/session),
-- which keeps a session with its participants in the same Redis, decides on the media path, writes
-- call detail records and publishes events. Both publish to one bus.
--
-- Files and the code that they model:
--   Base, Common            shared helpers; identifiers, call types, end reasons, errors, results
--   Redis                   the database that both services share, and computations over it; its child
--                           Keys has the texts of the keys (internal/models/redis_keys.go)
--   Events                  the payloads of internal/events/types.go that both publish; its children
--                           Subjects (subjects.go) and Bus (bus.go), and Deliveries, which has what
--                           JetStream documents of a consumer
--   CallState               internal/signaling/state.go
--   Session                 internal/session/types.go, with the children Escalation (topology.go),
--                           Permissions (permissions.go), Cdr and History (cdr.go)
--   Orchestrator/Store      internal/session/store.go
--   Orchestrator/Server     the routes of internal/session/server.go
--   Orchestrator/Services   the orchestrator's surroundings: store, bus, history, configuration
--   Orchestrator/Calls      internal/session/orchestrator.go
--   Orchestrator/Rooms      internal/session/group.go
--   Orchestrator/Identity   internal/session/identity_resolver.go
--   Orchestrator/Api        internal/session/handler.go: requests, replies, and in its children the
--                           paths, the handlers and the dispatch; Orchestrator/Plain has which
--                           errors the operations return
--   Signaling/Store         internal/signaling/session.go
--   Signaling/Message       internal/signaling/message.go
--   Signaling/Client        internal/signaling/client.go: one connection, its queue and its pumps
--   Signaling/Handler       internal/signaling/handler.go; Signaling/Server the routes of server.go
--   Signaling/Hub           internal/signaling/hub.go: its state and how it sends; the handlers are
--                           in the children Calls, Ice, Membership, Rooms and Reconnect; Run has
--                           the dispatch of a message and the loop over inputs, and Recover the
--                           recovery after a restart, which the server does not call
--   Text                    texts as lists of bytes, with Go's slices, comparison and strings package
--   Abr                     internal/abr/policy_engine.go: Rules has the evaluation, Engine the state,
--                           Ticks the life of the loop, Defaults the default policy, and
--                           Server the service of cmd/policy/main.go
--   Push                    internal/push: Store has the statements on the table of tokens, Senders
--                           the tests on errors and the retries, Apns and Fcm the requests and
--                           errors, Gateway the delivery, Subscription the handler of events,
--                           Handlers the REST API, Server its routes
--   Livekit                 internal/livekit: Webhook (webhook.go) and Room (room.go)
--   Metrics                 internal/metrics/writer.go; Subscription has its handler of messages, with
--                           decode.go
--   Config                  internal/config/config.go
--   Turn                    internal/turn/health.go; Life has Start, Stop and the ticker
--   Auth                    internal/auth: Tokens (jwt.go, middleware.go), Limits and Parsing (ratelimit.go),
--                           Credentials (turn.go), RoomTokens (livekit.go)
-- The other modules hold lemmas and theorems, each named for what it proves. Examples and its
-- children hold test data and the theorems applied to it.
--
-- How the code is modelled. A method of a store is a function from a Redis to a Redis and a result.
-- A Redis command is atomic and fails, without an effect, where an arbitrary function on the
-- command's number says so; a transaction over watched keys can in addition be lost to another
-- client, again as an arbitrary function says. A record is read back as the type that the reader
-- asks for, also where the other service wrote it under the same key. A handler of the hub is a
-- function on the hub's state; what it sends is appended to an outbox. Whatever starts a timer puts
-- an entry into a table, and its end is an input of its own, which may come at any time; so are the
-- ends of the ring and ICE timeouts of any call. A clock, a fresh identifier and the identity
-- resolver are arguments. The inputs of the hub are handled one after another: commands of two
-- handlers, or of two services, do not interleave except that a watched transaction can be lost.
--
-- The orchestrator's REST API (internal/session/handler.go) calls the same operations for requests
-- whose claims the middleware of internal/auth has checked. The push gateway (internal/push) and the
-- policy engine (internal/abr) are services of their own: the one hears of new calls on the bus and
-- keeps the devices' tokens in Postgres, the other is sent quality samples and pushes decisions to
-- participants. The routes of each server are modelled for paths that Go's ServeMux does not clean. The
-- metrics writer batches the quality events of the bus for ClickHouse. Senders of
-- push notifications, the library for tokens, the decoder of bodies, floating-point arithmetic and
-- what a database refuses are arguments of the definitions that use them. SQL statements are
-- functions on a list of rows; a map of Go is an association list.
--
-- Bounds and fuel. The optimistic loops of the orchestrator's store make three attempts, as the
-- source does, and then return its error; a push is tried again as often as the source says (never
-- for Apple, once for Google). The deliveries of a message are counted down from a number: the
-- consumer's five are enough, as its lemma `at_most_five` says. No other recursion needs fuel. The ICE buffer's 50, the
-- room limit's default 8, the rate limit's 5 and the SDP's 10 and 65536 bytes are the source's.
-- Identifiers are natural numbers in the order of the texts, with 0 for the empty text, except where
-- the code takes texts apart (paths, keys of metrics, identities, tokens of the API). Times are
-- seconds, with 0 for Go's zero time; those of the rate limiter are nanoseconds, those of a quality
-- event milliseconds.
--
-- A connection of a client is modelled by itself, as steps of the hub, of its two goroutines and of
-- the network in any order; in the hub's model a message that is sent counts as sent.
--
-- Not modelled: expiry of Redis keys; JSON encoding; human-readable error texts of
-- the services; the tokens of LiveKit in results; HTTP clients and servers, the SDK of LiveKit, NATS, and the
-- libraries for tokens and WebSockets, which are parameters; the start-up of the services, and the
-- mobile application.
pub mod Base
pub mod Text
pub mod Abr
pub mod Push
pub mod Livekit
pub mod Metrics
pub mod Auth
pub mod Config
pub mod Turn
pub mod Common
pub mod CallState
pub mod Session
pub mod Redis
pub mod Events
pub mod Orchestrator
pub mod Signaling
pub mod Examples
