-- ===== src/Queues/Buffers.antt =====
-- pkg/queues/results.go: `NATSDispatchBuffer`, a buffered channel, and `CommandResultQueue`, a slice
-- under a mutex.
pub mod Dispatch
pub mod Results
