-- ===== src/Lib.antt =====
-- Verification library of the real-time spatial tracking gateway, a WebSocket server that relays the
-- positions of clients through rooms, limits their rates, keeps their sessions and replicates its state
-- between regions.
--
-- The parts and how they interact. A connection is admitted by the limiter of src/conn-rate-limiter.js
-- and each of its messages by that of src/rate-limiter.js. Clients join and leave rooms, publish to
-- them and catch up after a reconnection through the RoomManager of src/room-manager.js. Their state
-- is sealed and stored by the SessionManager of src/session-manager.js. Regions exchange the
-- replicated data types of src/multi-region.js: room members in an OR-Set, messages in a growable
-- array, sessions in a last-writer-wins map and geofences in a last-writer-wins element set, stamped by
-- hybrid logical and vector clocks; a coordinator in each region sends its operations to the peers and
-- applies theirs. src/event-sourcing.js records what vehicles do as events: commands load an aggregate
-- from its stream, record events and append them, and projections keep read models of the stream.
--
-- The files:
--   Base                shared names and helpers: JavaScript strings as lists of code units (Keys), a
--                       JavaScript Map as an association list in insertion order (Map), a Set of
--                       strings as a list (KeySet), comparison results (Order), lists and tests.
--   SlidingWindow       the window that both limiters implement: check, remove, cleanup; RateLimiter
--                       and ConnRateLimiter are its two uses, createRateLimiter and
--                       createConnRateLimiter.
--   MultiRegion         src/multi-region.js: Hlc (HLC), VectorClock (vcIncrement, vcMerge, vcCompare),
--                       OrSet (ORSet), LwwMap (LWWMap), LwwElementSet (LWWElementSet), Rga (the nodes
--                       of RGASequence, compareMessageIds) with Rga.Traversal (traverse and what reads
--                       it), Merkle (merkleRoot) and Coordinator (MultiRegionCoordinator: the local
--                       operations and replicate) with its children Quorum (quorumReplicate,
--                       geofences, global config, the health of regions) and Incoming
--                       (handlePeerOperation, mergeRemoteState).
--   Rooms               src/room-manager.js: the state of RoomManager; Membership (join, leave,
--                       updateClientId, disconnect, the queries), Delivery (broadcast, _isDuplicate,
--                       _getAckState), Backpressure (_broadcastWithBackpressure,
--                       _drainCoalescedMessages, _startSlowConsumerTimeout) and Replay
--                       (handleReconnect, ack, nack), Statistics (getRoomSeq, getRingBuffer,
--                       getRoomStats, stats).
--   Session             src/session-manager.js: Store (MemoryStore) and Manager (save, load, _open,
--                       debouncedSave, _runSave, flush, delete, close) with its child Shutdown (flushAll,
--                       recordResumption).
--   EventSourcing       src/event-sourcing.js: EventType (baseEventType), Store (InMemoryEventStore) and
--                       Feed (its queries by time), Aggregate (AggregateBase), Classes (the vehicle,
--                       room and fleet aggregates), Repository (AggregateRepository), Payload and
--                       TypedEvents (createEvent and the typed events), Commands (the commands and
--                       their handlers over one store, with what they leave consistent in
--                       Consistency, Outcome, Mirror and Background and what they perform in
--                       Performed), Dispatch (CommandHandler), Projections (ProjectionManager) with
--                       MemorySink (MemoryProjectionSink) and Builtin (the four projections), and Stack
--                       (createEventSourcing).
-- The children of a module hold its proofs, its modules Tests the theorems at concrete inputs.
--
-- An operation that changes state is a function from the old state to the new one, with what it
-- returns beside it. `Date.now()`, a UUID, an initialisation vector and the heap's size are arguments.
-- An argument that the code requires is an option, and none as a result (false, of a method that returns
-- nothing) stands for the TypeError. A timer is kept as the time at which it fires; the timers of the
-- debounced saves, which can be cleared, have an identity too and are apart from the two maps that the
-- manager keeps of them. What a broadcast sends is a list of sockets and texts, and what a coordinator
-- sends a list of peers and operations. A write that waits for the event loop, as a snapshot does, is an
-- item of a list, and its turn an operation of its own. The repositories of event sourcing share one
-- store that is keyed by ids alone; what is shown of them takes the ids of clients and of rooms to be
-- told apart.
--
-- Bounds. Counters and times are natural numbers, which agree with JavaScript's below 2^53; where the
-- code subtracts below 0 it clamps, or the invariant shows that it does not. Every loop of the modelled
-- code runs over a list and is structural recursion, with three exceptions: the turns of the event loop
-- that a broadcast under backpressure takes (Rooms.Backpressure.run_batches runs on fuel, and more turns
-- than the room has members are enough), the levels of a Merkle tree, of which there are fewer than
-- leaves, and the traversal of a growable array, whose loop turns once for each node at most.
--
-- Parameters. JSON, the size of a text and the state of a socket are a record (Rooms.Delivery.Platform)
-- and a function; AES-256-GCM with compression, and base64, are a record (Session.Manager.Cipher) whose
-- documented behaviour is Session.Manager.RoundTrip.IsCipher. What event sourcing reads of locations and
-- fences, with the floating-point distance between two points, are the records
-- EventSourcing.Payload.Geometry and EventSourcing.Projections.Builtin.Reading; UUIDs and the time come
-- from EventSourcing.Payload.Draw. The answers of a coordinator's peers
-- are a function, and so is SHA-256.
--
-- Not modelled: what other operations do between two batches of a broadcast, the ids of messages and with
-- them the broadcast of the coordinator, the canonical JSON that the Merkle tree hashes and the rounds of anti-entropy of
-- src/multi-region.js, src/validator.js and the in-memory storage under src/storage, which are planned;
-- the Postgres store and the SQL sink of src/event-sourcing.js and the Postgres adapter, whose logic is
-- in SQL; src/auth.js, src/server.js and src/index.js, which are calls of libraries, sockets and wiring;
-- src/predictor.js, which is floating-point arithmetic; src/logger.js and src/errors.js, which only
-- report.
pub mod Base
pub mod SlidingWindow
pub mod RateLimiter
pub mod MultiRegion
pub mod Rooms
pub mod ConnRateLimiter
pub mod Session
pub mod EventSourcing
