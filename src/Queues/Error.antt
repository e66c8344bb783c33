-- ===== src/Queues/Error.antt =====
-- The error values of pkg/queues (scheduler.go, results.go).
pub data Error : Type 0 where
  queue_full invalid_priority queue_closed cancelled : Error
