-- ===== src/Queues/Buffers/Dispatch.antt =====
-- pkg/queues/results.go: `NATSDispatchBuffer`. The channel is the list of the payloads in it, oldest
-- first, and it is never closed.
use tip_olg_ucentral_client.Prelude.{
  ℕ, Bool, true, false, Option, none, some, List, [], ◌∷◌, ◌++◌, Bytes, make_copy, length, leb, ltb,
  ◌==◌, if◌then◌else◌, ◌≡◌, ◌≤◌, arith, length-append, is_some, not, ◌&&◌,
}
use tip_olg_ucentral_client.Queues.Error.{Error, queue_full, cancelled}

pub record NatsDispatchBuffer : Type 0 where
  pub ch : List Bytes
  pub cap : ℕ

-- `none` is the panic.
unfoldable pub new_nats_dispatch_buffer : ℕ → Option NatsDispatchBuffer
new_nats_dispatch_buffer capacity =
    if leb capacity 0 then none else some (record { ch = []; cap = capacity })

-- The non-blocking send.
unfoldable pub try_send : Bytes → NatsDispatchBuffer → NatsDispatchBuffer × Option Error
try_send payload d =
    if ltb (length d.ch) d.cap
    then (record d { ch = d.ch ++ (payload ∷ []) }, none)
    else (d, some queue_full)

-- `Push`; `between` is what other goroutines do to the channel after the first test.
unfoldable pub dispatch_push :
    (NatsDispatchBuffer → NatsDispatchBuffer)
    → Bytes
    → NatsDispatchBuffer
    → NatsDispatchBuffer × Option Error
dispatch_push between payload d =
    if length d.ch == d.cap then (d, some queue_full) else try_send (make_copy payload) (between d)

-- What `Pop` does next.
pub data PopOutcome : Type 0 where
  popped : Bytes → PopOutcome
  gave_up : Error → PopOutcome
  blocked : PopOutcome

abbrev receive : NatsDispatchBuffer → List Bytes → NatsDispatchBuffer × PopOutcome
receive d [] = (d, blocked)
receive d (payload ∷ rest) = (record d { ch = rest }, popped payload)

abbrev is_ready : List Bytes → Bool
is_ready [] = false
is_ready (payload ∷ rest) = true

-- One attempt of `Pop`: where a payload waits and the context is done, Go picks either case, so
-- `prefers_done` stands for the pick.
unfoldable pub dispatch_pop : Bool → Bool → NatsDispatchBuffer → NatsDispatchBuffer × PopOutcome
dispatch_pop is_done prefers_done d =
    if is_done
    then (if is_ready d.ch
        then (if prefers_done then (d, gave_up cancelled) else receive d d.ch)
        else (d, gave_up cancelled))
    else receive d d.ch

-- Whatever other goroutines do between the two tests, as long as they keep the channel within its
-- capacity: `Push` succeeds exactly if there was room both times, it then appends a copy of the
-- payload and otherwise appends nothing, and the channel stays within its capacity.
pub dispatch_push-accepts :
    (between : NatsDispatchBuffer → NatsDispatchBuffer) (payload : Bytes) (d : NatsDispatchBuffer)
    → length d.ch ≤ d.cap
    → length (between d).ch ≤ d.cap
    → (between d).cap ≡ d.cap
    → (not (is_some (dispatch_push between payload d).1)
        ≡ (ltb (length d.ch) d.cap && ltb (length (between d).ch) d.cap))
      × ((dispatch_push between payload d).0.ch ≡ (
          if ltb (length d.ch) d.cap
          then (if ltb (length (between d).ch) d.cap
              then (between d).ch ++ (make_copy payload ∷ [])
              else (between d).ch)
          else d.ch))
      × (length (dispatch_push between payload d).0.ch ≤ d.cap)
unfolding dispatch_push try_send
dispatch_push-accepts between payload d p q r =
    ground (arith, length-append (between d).ch (make_copy payload ∷ []))
