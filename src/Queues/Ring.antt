-- ===== src/Queues/Ring.antt =====
-- pkg/queues/buffer.go: `TelemetryRingBuffer`. A method runs under `b.mu`, so it is a function
-- from the old buffer to the new one.
pub mod Refine
use tip_olg_ucentral_client.Prelude.{
  ℕ, ◌+◌, ◌-◌, ◌%◌, Bool, true, false, Option, none, some, List, Bytes, make_copy, get_or, set,
  replicate, leb, ◌==◌, if◌then◌else◌,
}

pub record TelemetryRingBuffer : Type 0 where
  pub buffer : List Bytes
  pub capacity : ℕ
  pub head : ℕ
  pub tail : ℕ
  pub size : ℕ

-- `none` is the panic.
unfoldable pub new_telemetry_ring_buffer : ℕ → Option TelemetryRingBuffer
new_telemetry_ring_buffer capacity =
    if leb capacity 0
    then none
    else some (record {
      buffer = replicate capacity none;
      capacity = capacity;
      head = 0;
      tail = 0;
      size = 0;
    })

-- `Push`; the Boolean tells whether an item was dropped.
unfoldable pub push : Bytes → TelemetryRingBuffer → Bool × TelemetryRingBuffer
push payload b =
    if b.size == b.capacity
    then (
      true,
      record b {
        buffer = set b.buffer b.head (make_copy payload);
        head = (b.head + 1) % b.capacity;
        tail = (b.tail + 1) % b.capacity;
      },
    )
    else (
      false,
      record b {
        buffer = set b.buffer b.tail (make_copy payload);
        tail = (b.tail + 1) % b.capacity;
        size = b.size + 1;
      },
    )

-- `Pop`
unfoldable pub pop : TelemetryRingBuffer → Option Bytes × TelemetryRingBuffer
pop b = if b.size == 0 then (none, b) else (
  some (get_or b.buffer b.head none),
  record b {
    buffer = set b.buffer b.head none;
    head = (b.head + 1) % b.capacity;
    size = b.size - 1;
  },
)
