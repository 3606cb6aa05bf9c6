-- ===== src/Lib.antt =====
-- Callio connects a tenant's customers with the tenant's agents by phone (SIP) and WhatsApp. A call
-- comes in on a channel; an IVR flow may take it first; it then waits in a queue, is offered to agents
-- by the queue's strategy, is answered, handed over and ended. Several workers serve the same calls:
-- what they share are rows in MySQL, changed by guarded statements, and keys in Redis.
--
-- The parts, and the files that model them:
--
-- Channels is src/core/channels/ChannelIngress.js, by which a channel's adapter reports what its provider
-- says of a call. Channels/Lines has the channel's row and the acts of the handlers, Channels/Ended is
-- `_handleCallEnded`, Channels/Progress is `statusChanged` and `outboundAnswered`, Channels/Offered with
-- Offered/Arrival is `inboundCall`, in three stages, since other workers run while it waits. A handler takes
-- the row that it read as an argument beside the database on which its statements run. The other files there
-- hold theorems: Announcing, Apart, Crossing, Ringing, Healing, Over, Offered/Silence and Offered/Meanwhile.
--
-- Ivr/Flow is the flow graph and Ivr/Engine the class of src/core/ivr/IvrEngine.js, method by method:
-- `navigate_to` is `_navigateTo`, `execute_timeout` is `_executeTimeout`. What happens later (a prompt
-- that ends or fails, a timer that fires, a key, a call of `stop`) is an `Event`; the continuation that
-- it runs stands in the lists of pending prompts and timers, so that every interleaving is a list of
-- events. The bus calls the key listener once for each registration. What the engine tells others is its
-- trace. Ivr/Engine/Listening, Resources, Progress, Completion, Silence, Digits and Restart hold its theorems.
-- Ivr/Transfer is src/core/ivr/IvrTransferHandler.js, which hands a call to Routing/Coordinator.
-- Ivr/Coordinator is src/core/ivr/IvrCoordinator.js with IvrTerminationHandler.js: the sessions of a worker,
-- where what follows an `await` is an event of its own, and Coordinator/Once has its theorems.
--
-- Store/Rows has the rows of `calls` and `agents` (migrations/) and the update of one row under a guard.
-- Store/Calls has the statements of src/persistence/CallRepository.js (and `updateCallState` of
-- src/persistence/IvrRepository.js), Store/Agents those of src/persistence/AgentRepository.js, under the
-- methods' names. A statement is atomic, so what several workers do is a list of statements in the order
-- in which the database runs them: Store/Calls/Finality, Store/Calls/Budget, Store/Calls/Offers and
-- Store/Agents/Holding prove what holds of every such list. Times are seconds, and `NOW()` is an argument.
--
-- Lifecycle/Termination is src/core/calls/CallTerminator.js, its effects a list in the order in which it
-- starts them, and Lifecycle/Access is src/core/calls/CallAccess.js. Lifecycle/NetworkLoss is
-- src/core/calls/CustomerNetworkLossPolicy.js on the deadlines of Cluster/Deadlines.
--
-- Cluster/Ownership is src/infra/cluster/CallOwnershipService.js: the Redis keys by which one worker
-- handles a call, with the expiry of a key and both commands of a release as steps of their own. Cluster/Inbox is
-- src/infra/cluster/CallInbox.js for one call: a step of any worker is a step of one state.
-- Cluster/Deadlines is src/infra/cluster/Deadlines.js: a sorted set of Redis and the ticks of all workers, in
-- milliseconds. Redis' order of members with one score is an argument.
--
-- Routing/Members is a row of a queue's members, Routing/OfferHistory is src/core/routing/OfferHistory.js,
-- Routing/Picking and Routing/QueueOrder are src/core/routing/CallAgentAssignmentService.js (PRIORITY and
-- ROUND_ROBIN), Routing/Inbound is src/core/routing/QueueRouter.js with src/core/routing/InboundRouter.js,
-- Routing/AutoOffline is src/core/routing/AutoOfflinePolicy.js with AgentMissedCallTracker.js, and
-- Routing/Waiting is src/core/routing/QueueTimeoutService.js. They claim agents and move calls by the
-- statements of Store, and end calls by Lifecycle/Termination.
--
-- Routing/Coordinator is src/core/routing/AgentAssignmentCoordinator.js: its handlers drain queues, pass
-- offers on, move calls and set shifts by the operations of all of these, one handler at a time. What it
-- emits is a list of events. Coordinator/Offers and Coordinator/Shifts are its children by subject, and
-- Coordinator/Draining has the proofs on draining.
--
-- Http/Idempotency is src/http/v1/idempotency.js with src/persistence/IdempotencyKeyRepository.js, and
-- Outbox/Repository and Outbox/Dispatcher are src/persistence/OutboxRepository.js and
-- src/outbox/OutboxDispatcher.js. Media/Bencode is the coding of messages in
-- src/infra/media/RtpEngineClient.js.
--
-- Loops are structural recursion on lists. Fuel bounds two things: the attempts of `drainQueue`, of which
-- the code makes 3 too, and `bdecode`, where two units for each byte are enough to read any message that
-- `bencode` wrote. Ids are natural numbers and those
-- of rows are not 0; node ids and types are texts.
--
-- Not modelled: the queue lock in Redis, since the guarded statements alone decide, and the expiry of
-- the history's and the streaks' keys; failures of the database and of Redis; log records; columns that
-- no guard reads; media, sockets, the channels' providers, the routes of the HTTP interface and the client
-- libraries, which are input and output. Of the server's own logic the handlers of
-- events are not modelled, since they drive the statements modelled here through sockets and events, nor
-- are the choice of a media topology, the periodic cleanup, the delivery timers of offers and the SQL of tenants and reports.
pub mod Prelude
pub mod Channels
pub mod Ivr
pub mod Store
pub mod Cluster
pub mod Http
pub mod Lifecycle
pub mod Media
pub mod Outbox
pub mod Routing
