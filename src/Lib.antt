-- ===== src/Lib.antt =====
-- nostr-swarm: a Nostr relay whose event store is a view that many writers build over Autobase.
--
-- The parts, and the files of the repository that they model:
--
-- - Keys (src/util/keys.ts): the composite keys of the indexes and the ranges of the scans.
-- - Nostr (src/nostr/events.ts, src/nostr/filters.ts, src/nostr/nip-09.ts, src/nostr/nip-42.ts,
--   src/nostr/nip-70.ts): events, filters, deletions, authentication, protected events.
-- - Hyperbee: the ordered key-value store of the package hyperbee, as a record of operations and laws.
--   It is an argument of all that uses it. Hyperbee/Sorted.antt has an instance, a sorted list.
-- - Storage/Indexes.antt (src/storage/indexes.ts): the sub-databases of the view.
-- - Storage/Store.antt (src/storage/store.ts): `apply`, the rules that every peer runs over the same
--   operations, handler by handler, from the view and the state beside it to the next. `applyPut` is
--   `apply_put`, and so on. A put first checks the event, then the tombstone, then makes way among the
--   replaceable versions, then writes the event and its indexes, then notes its emission.
-- - Storage/Client.antt (src/storage/store.ts): the methods that append operations and read the view.
-- - Storage/Bootstrap.antt (src/storage/bootstrap.ts): which base a storage directory belongs to.
-- - Storage/Query.antt (src/storage/query.ts): the answers to filters, from the indexes.
-- - Util/RateLimit.antt (src/util/rate-limit.ts): the token bucket. Util/Invite.antt
--   (src/util/invite.ts): the invite codec. Util/Maps.antt: the maps of the language, as lists.
-- - Ws.antt (src/ws/connection.ts), Ws/Handler.antt and Ws/Server.antt (src/ws/handler.ts,
--   src/ws/server.ts): the connections, the handling of messages, and the relay as a machine whose
--   inputs are sockets that open and close, messages, and events that the store has emitted. It uses
--   the client methods, the queries and the token bucket. Nostr/Json.antt, Nostr/Filter/Validate.antt
--   and Nostr/Event/Structure.antt: the values of messages, and what is asked of filters and events.
-- - Swarm/Admission.antt (src/swarm/admission.ts, src/swarm/protocol.ts): the evaluation of a request
--   for admission as a writer; Swarm/Admission/Service.antt is the channel's
--   two ends. They use the client methods and two token buckets.
-- - Wot/Graph.antt (src/wot/graph.ts), Wot/Policy.antt (src/wot/policy.ts): the graph of trust, built
--   from the view, and the decision which events to take.
-- - Light.antt (src/light/store.ts): the filter of a light client before a put, by the policy, and the
--   pruning to a storage budget.
-- - Shim (src/primal-shim): the adapter to another service. Shim/Lru.antt (src/primal-shim/lru.ts) is
--   its cache, Shim/Upstream.antt and Shim/Upstream/Socket.antt (src/primal-shim/upstream.ts) its client
--   of the relay, Shim/Session.antt (src/primal-shim/session.ts) what it keeps of one of its own
--   clients, Shim/Marks.antt (src/primal-shim/seen.ts, src/primal-shim/dm-read.ts) how far users have
--   read, Shim/Stats.antt (src/primal-shim/stats.ts) the engagement of events, and
--   Shim/Notifications.antt (src/primal-shim/verbs/notifications.ts) what an event means to a user.
-- - Base: texts, numbers, integers and lists that the parts share. Tests: runs on small inputs.
--
-- What is assumed of data. A text is a list of the code units that the language compares. Numbers are
-- exact integers: timestamps are ℤ, kinds and counts are ℕ, and the 32-bit wrap of `>>> 0` is written
-- out. A fraction of a token is a whole number of parts. Events and filters are those after decoding,
-- with fields of the types they declare; for what arrives on a socket the decoding is modelled too,
-- from the value that `JSON.parse` gives. A message is handled as one step, without other steps while a
-- query runs. The code reads the clock in each call that uses it; one reading serves a message or a
-- request for admission, and is an argument.
--
-- Code of packages is a parameter: `verify_event` (nostr-tools), `to_lower_case` (the runtime), SHA-256
-- and HMAC-SHA256 (the runtime), z-base-32 (z32), hyperbee. The host of `apply` is modelled by what is
-- asked of it: writers added and acknowledged, or an interrupt, which ends the run.
--
-- Errors. `verifyEvent` gives a Boolean or throws (`Verdict`). In an operation of a writer `apply` catches
-- that, and nothing has changed, as with a forged event; in an optimistic block it ends `apply`
-- (`crashed`); in a message it becomes a notice. In the WebSocket server it is a function of the object
-- that arrived, whatever its tags are, and the typed event stands for an object whose tags are arrays
-- of texts. There appends to the base can fail too (`append_fails`), which becomes the same
-- notice. Calls of the host, reads of the view, and appends elsewhere are taken not to fail.
--
-- Fuel and bounds. `search_degrees` has fuel: one step for the owner and one for each followed key, as
-- a key enters the queue only when it gets its first degree. All other loops recur on their lists.
-- Numbers in hexadecimal digits take at most 8 steps, since they are below 2 ^ 32.
--
-- Not modelled: opening, closing and replication, sockets and timers, the command line, the
-- configuration, the pages over HTTP, and the rest of the adapter under
-- src/primal-shim.
pub mod Ws
pub mod Base
pub mod Hyperbee
pub mod Keys
pub mod Nostr
pub mod Storage
pub mod Tests
pub mod Util
pub mod Swarm
pub mod Wot
pub mod Light
pub mod Shim
