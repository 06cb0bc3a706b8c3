-- ===== src/Lib.antt =====
-- KPM-cursor: the parts of a supply-chain system that decide what is recorded, by whom, and who hears
-- of it. Companies' events are
-- signed with wallets that the message bus keeps, gathered in batches and handed to a broadcaster as
-- Merkle roots; scanners and other devices connect to an edge device manager, which keeps their events
-- while they are offline; the server retries its operations under circuit breakers.
--
-- Files, and the code they are about:
-- Base (Base/Tests, Base/Lists, Base/Dict, Base/Text, Base/Integers): Boolean tests, lists measured by
--   native numbers, JavaScript's `Map` as an association list in insertion order, the string methods
--   that the code calls, and `parseInt`.
-- MessageBus/Wallets: the class `CompanyWalletManager` of message_bus/src/company-wallet-manager.ts.
--   `Manager` is its map of wallets and the file on disk; each method is the function of the same name.
--   What Node's crypto module does is the record `Crypto`, with its laws in `IsCrypto`; the clock, fresh
--   random texts and whether the file can be read and written are the record `Env`.
-- MessageBus/Anchoring: the class `EnhancedDualModeHandler` of
--   message_bus/src/enhanced-dual-mode-handler.ts. `Handler` is the wallet manager, the waiting batch
--   and the pending file; an `Input` is a request or a tick of the batch timer.
-- MessageBus/Confirmations: the polls of `BlockchainConfirmationService`,
--   message_bus/src/services/blockchain-confirmation.ts. The database table is the list of its rows, and
--   what the regular expressions find in a line of the submitter's output is a `Reading`.
-- MessageBus/DualMode: the class `DualModeHandler` of message_bus/src/dual-mode-handler.ts, which the
--   enhanced one replaces. A step runs up to the next append, and what follows the append is a step.
-- MessageBus/Auth: the class `AuthService` of message_bus/src/auth/auth-service.ts over the tables of
--   message_bus/src/database/schema.ts. Tokens has sessions, Users registration and login, Keys the API
--   keys; Calls runs sequences of calls, and Writes and Steps say which rows each call writes. bcrypt,
--   JSON Web Tokens and SHA-256 are its record `Crypto`, with their laws in `IsCrypto`.
-- MessageBus/Middleware: the handlers of message_bus/src/auth/auth-middleware.ts, in Access those that
--   decide what a request may do, in KeyRoute the route of auth-routes.ts that creates keys.
-- MessageBus/Sockets: the class `WebSocketService` of message_bus/src/services/websocket-service.ts; the
--   rooms of socket.io are the interface `Rooms`, with its laws in `IsRooms`.
-- Integration/Edi: the class `EdiProcessor` of integration-service/src/connectors/edi-processor.ts.
--   Types has its interfaces, Segments splits envelopes and segments, Documents parses the five kinds of
--   documents, Events is what is sent for them, Acknowledgments is the 997 that is written, Processor
--   is `processEdiDocument`, whose map shares its transactions with the methods that change them.
-- Integration/Epcis: the class `EpcisHandler` of integration-service/src/connectors/epcis-handler.ts for
--   documents that are objects or JSON texts (`JSON.parse` is an argument). Types has its interfaces,
--   Transform makes KMP events and EPCs, Handler validates, enriches and posts; Enriched says key by
--   key what a place is after enrichment.
-- Gateway: the routes of scanner-gateway/src/index.ts over its map of scanners.
-- Edge/Types, Edge/Manager: the interfaces and the state of `EdgeDeviceManager`
--   (integration-service/src/edge/device-manager.ts), with what it sent to sockets and emitted.
-- Edge/Queue, Edge/Offline: the offline queue of one device, and the operations that reach it through
--   the manager. Edge/Updates: over-the-air updates. Edge/Registry, Edge/Monitor: registration,
--   heartbeats, alerts, configuration. Edge/Operations: all of them as one type of operations.
-- Server/Breaker, Server/Retry, Server/Retry/Execution: `CircuitBreaker`, `RetryManager` and
--   `ErrorHandler` of server/services/error-handler.ts.
-- Server/Monitoring: `MonitoringService` of server/services/monitoring.ts. Server/Retention:
--   `DataRetentionService` of server/services/data-retention.ts. Server/Notifications: the two classes of
--   server/websocket.ts.
-- The children of a module hold its theorems, and the modules called Tests run the model on concrete
-- data. Where a service calls another the model does: anchoring signs and verifies with the wallet
-- manager, the retry manager runs its attempts under the breaker of their name, the middleware asks the
-- authentication service, and the sockets read the tokens that it signs.
--
-- Fuel: the Merkle loop gets one round for each hash, and a round shortens a level of two or more; a
-- sync gets one round for each event, and a round takes off up to fifty; a retried operation gets one
-- round for each retry and the first call, which is all that `maxRetries` allows.
--
-- The decimal text of a number gets one round more than the number, and it has fewer digits.
--
-- Not modelled: logging, XML, HTTP and database calls (they appear as their results, except in
-- MessageBus/Auth, where tables are lists of rows and a call is one step), floating-point
-- arithmetic (the share of a rollout and the numbers of EDI documents are parameters, and quotients of
-- the monitoring are compared by multiplying out), and steps of other operations between two
-- `await`s of one, except in the circuit breaker and in MessageBus/DualMode, whose calls may overlap.
-- Joined rows of the database, for which the queries ask no order, are in the order of insertion, and
-- the places of EPCIS events are not shared between events.
-- Of the routes of authentication only the creation of keys is modelled, and of the sockets' emissions
-- all but the broadcast to everybody. The components that have no model are the routes and storage of
-- the server, the client, the other connectors, and the programs in other languages.
pub mod Base
pub mod MessageBus
pub mod Edge
pub mod Integration
pub mod Gateway
pub mod Server
