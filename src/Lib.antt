-- ===== src/Lib.antt =====
-- Verification of the uCentral client of an OpenLAN gateway, which carries JSON-RPC requests of a
-- cloud controller to a local agent over NATS and the results back.
--
-- Parts and files. A frame handler (cmd/ucentral-client/handler.go) validates a frame of the cloud,
-- admits its request at the request manager (pkg/reqmgr) and dispatches it to the agent through the
-- NATS client (pkg/nats); the manager follows the request through its states, keeps the one lock for
-- operations that change the device, answers repeated requests from a cache and hands every final
-- response to the outbound scheduler (pkg/queues), which the cloud connection (pkg/websocket) drains.
-- The agent's results come back through the NATS client and cmd/ucentral-client/main.go.
--   Prelude: Booleans, native numbers, integers, lists, maps as association lists, byte slices, and
--   functions that return a value or an error.
--   Queues.Scheduler: pkg/queues/scheduler.go, `Push`, `Next`, `tryDequeue`.
--   Queues.Ring: pkg/queues/buffer.go. Queues.Coalescer: pkg/queues/coalescer.go.
--   Queues.Buffers: pkg/queues/results.go. Queues.Hysteresis: pkg/queues/hysteresis.go.
--   Contracts.Enums: pkg/contracts/enums.go. Contracts.Rpc: the messages of pkg/contracts/rpc.go;
--   Contracts.Ids: its validation of identifiers and requests; Contracts.Responses: of responses;
--   Contracts.Cloud: the requests of the cloud and their validation; Contracts.Configure: compressed
--   configurations and `EffectiveUUID`; Contracts.Status: result objects.
--   Contracts.Envelopes: pkg/contracts/envelopes.go.
--   Contracts.Json: what the code uses of encoding/json and math/big, a parameter.
--   Reqmgr.Transaction, Reqmgr.Cache, Reqmgr.Store: pkg/reqmgr/transaction.go, cache.go, store.go.
--   Reqmgr.Disk: pkg/reqmgr/disk_store.go, over a directory of files.
--   Reqmgr.Manager: pkg/reqmgr/manager.go; Request has `CanonicalRequestKey` and
--   `CreateTransaction`, Lifecycle the methods that move one transaction, Operations
--   `ReleaseOperationLock` and `RespondAndRetain`, Recovery `Start` and the sweeper.
--   Reqmgr.Manager.Invariant: the invariant of the manager and the interleavings of its sections.
--   Handler.Commands, Handler.Execute, Handler.Frame: cmd/ucentral-client/handler.go, the tables by
--   method, `executeTransaction`, and `HandleFrame` with `pushResponse`.
--   Agent.Commands, Agent.Results: pkg/nats/client.go. Agent.Replies: `processNATSResult` and
--   `handleNATSResult` of cmd/ucentral-client/main.go.
--   Agent.Capabilities: pkg/nats/capabilities.go.
--   Session: pkg/websocket/client.go, the back-off, the reader loop and the writer loop.
--   Config: pkg/config/config.go, and the limits of cmd/ucentral-client/main.go.
--
-- Conventions. A method that holds a mutex throughout is a function from the old state to the new
-- one; a method that gives the mutex up is cut into one function for each section, and an
-- interleaving is a sequence of sections. A function that composes such sections with nobody in
-- between says so: `release_operation_lock`, `respond_and_retain`, `sweep_loop`. Instants and
-- durations are nanoseconds. `none` stands for a panic of a constructor or of an assignment to a
-- nil map. A Go error is a constructor of a type of errors, without its text. Numbers are natural,
-- or integers where the code compares them with zero; the generation of the coalescer wraps at
-- 2^64, other numbers are bounded by the sizes of slices, or are compared with small bounds before
-- they are used. Loops are recursions on lists or on the number of rounds left. The definitions on
-- fuel are `validate_uuid` and `effective_uuid`, which count the calls of `ValidateAndGetUUID` and
-- of `EffectiveUUID` inside one another: for the first two are enough, since a compressed request
-- inside a compressed one is refused, and for the second if the first accepts the request.
-- `EffectiveUUID` of a request that was not validated follows compressed requests inside one
-- another without a bound. What encoding/json, net/url, the operating system, NATS and TLS answer
-- is a parameter or an argument.
--
-- Not modelled: sockets, dialling and the handshake of the cloud connection, logging, the
-- goroutines that start timers and tickers (their calls are steps), a goroutine that feeds the
-- writer and outlives its session, the wiring of the main program, and the binding of the serial
-- number to the certificate. Floats are a parameter of the monitor.
pub mod Prelude
pub mod Queues
pub mod Contracts
pub mod Reqmgr
pub mod Handler
pub mod Agent
pub mod Session
pub mod Config
