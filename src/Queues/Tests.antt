-- ===== src/Queues/Tests.antt =====
-- The theorems on the ring, the coalescer, the monitor and the bounded buffers of pkg/queues at concrete inputs.
use tip_olg_ucentral_client.Prelude.{
  ℕ, leb, ltb, ◌&&◌, ◌≡◌, refl, true, false, none, some, List, [], ◌∷◌, Bytes, arith,
}
use tip_olg_ucentral_client.Queues.Hysteresis.{Floats, HysteresisMonitor}
use tip_olg_ucentral_client.Queues.Hysteresis.Band.{monitored, monitored-verdict}
use tip_olg_ucentral_client.Queues.Ring.{TelemetryRingBuffer, push, pop}
use tip_olg_ucentral_client.Queues.Ring.Refine.{
  IsRing, waiting, bounded_push, bounded_pop, push-refines, pop-refines,
}
use tip_olg_ucentral_client.Queues.Coalescer.{StateSnapshot, StateCoalescer, peek, commit}
use tip_olg_ucentral_client.Queues.Coalescer.Laws.{update_all, commit-peeked}
use tip_olg_ucentral_client.Queues.Buffers.Dispatch.{NatsDispatchBuffer}
use tip_olg_ucentral_client.Queues.Buffers.Results.{CommandResultQueue, Call, push_call, pop_call}

abbrev one : Bytes
one = some (1 ∷ [])

abbrev two : Bytes
two = some (2 ∷ [])

-- A full ring of two slots, the older payload in the second.
abbrev full_ring : TelemetryRingBuffer
full_ring = record { buffer = two ∷ one ∷ []; capacity = 2; head = 1; tail = 1; size = 2 }

full_ring-IsRing : IsRing full_ring
full_ring-IsRing = record {
  slots = refl;
  head_lt = omega arith;
  size_le = omega arith;
  tail_at = refl;
}

-- A push into the full ring drops the older payload.
drops : ((push none full_ring).0 ≡ true) × (waiting (push none full_ring).1 ≡ two ∷ some [] ∷ [])
unfolding push
drops = (refl, refl)

push-refines_example :
    IsRing (push none full_ring).1
    × ((push none full_ring).0 ≡ (bounded_push 2 none (waiting full_ring)).0)
    × (waiting (push none full_ring).1 ≡ (bounded_push 2 none (waiting full_ring)).1)
push-refines_example = push-refines none full_ring full_ring-IsRing

pop-refines_example :
    IsRing (pop full_ring).1
    × ((pop full_ring).0 ≡ (bounded_pop (waiting full_ring)).0)
    × (waiting (pop full_ring).1 ≡ (bounded_pop (waiting full_ring)).1)
pop-refines_example = pop-refines full_ring full_ring-IsRing

-- A coalescer whose generation is about to wrap around.
abbrev last_generation : StateCoalescer
last_generation = record { latest_state = one; generation = 18446744073709551615; has_state = true }

abbrev snapshot : StateSnapshot
snapshot = record { payload = one; generation = 18446744073709551615 }

peeked : peek last_generation ≡ some snapshot
unfolding peek
peeked = refl

commit-peeked_example :
    ((commit 18446744073709551615 (update_all (two ∷ []) last_generation)).0 ≡ false)
    × (peek (commit 18446744073709551615 (update_all (two ∷ []) last_generation)).1
        ≡ peek (update_all (two ∷ []) last_generation))
commit-peeked_example =
    commit-peeked (two ∷ []) last_generation snapshot (omega arith) (omega arith) peeked

abbrev half_full : NatsDispatchBuffer
half_full = record { ch = one ∷ []; cap = 2 }

-- Another goroutine takes the last place.
abbrev fill : NatsDispatchBuffer → NatsDispatchBuffer
fill d = record { ch = one ∷ one ∷ []; cap = 2 }

abbrev waiting_result : CommandResultQueue
waiting_result = record { items = one ∷ []; capacity = 1 }

abbrev calls : List Call
calls = push_call two ∷ pop_call ∷ push_call two ∷ []

-- Percentages in place of floats.
abbrev percentages : Floats ℕ
percentages = record { le = leb; lt = ltb; is_nan = λ p. false; zero = 0; one = 100 }

abbrev monitor : HysteresisMonitor ℕ
monitor = record { is_throttled = false; upper_percent = 80; lower_percent = 30 }

band : (util : ℕ) → (leb 80 util && leb util 30) ≡ false
band util = ground arith

monitored-verdict_example : (monitored percentages monitor (50 ∷ 90 ∷ 10 ∷ [])).is_throttled ≡ true
monitored-verdict_example = monitored-verdict percentages monitor (50 ∷ 90 ∷ 10 ∷ []) band
