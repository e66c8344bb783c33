-- ===== src/Queues.antt =====
-- pkg/queues: the outbound scheduler, the telemetry ring, the state coalescer, the bounded buffers
-- and the backpressure monitor.
pub mod Error
pub mod Scheduler
pub mod Ring
pub mod Coalescer
pub mod Hysteresis
pub mod Buffers
mod Tests
