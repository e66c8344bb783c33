-- ===== src/Queues/Scheduler/Tests.antt =====
-- Runs of the scheduler of pkg/queues/scheduler.go, and the theorems at concrete inputs.
use tip_olg_ucentral_client.Prelude.{◌-◌, ◌≤◌, ◌≡◌, refl, some, [], ◌∷◌, arith}
use tip_olg_ucentral_client.Queues.Error.{queue_full}
use tip_olg_ucentral_client.Queues.Scheduler.{
  OutboundMessage, level, PriorityScheduler, new_priority_scheduler, is_full, push_at, push_level,
  push, yield_scan, select_scan, or_select, try_dequeue,
}
use tip_olg_ucentral_client.Queues.Scheduler.Order.{Takes, front_at, chosen, try_dequeue-chosen}
use tip_olg_ucentral_client.Queues.Scheduler.Bounds.{IsBounded}
use tip_olg_ucentral_client.Queues.Scheduler.Fairness.{put, take_next, deliveries, deliveries-le}

abbrev reply : OutboundMessage
reply = record { session_id = "s"; priority = level 0; payload = some (1 ∷ []) }

abbrev event : OutboundMessage
event = record { session_id = "s"; priority = level 3; payload = some (2 ∷ []) }

abbrev busy : PriorityScheduler
busy = record {
  queue0 = reply ∷ reply ∷ [];
  queue1 = [];
  queue2 = [];
  queue3 = event ∷ [];
  capacity = 2;
  emergency_cap = 2;
  consecutive_p0 = 9;
  last_yield = 1;
}

program : Unit {0}
unfolding new_priority_scheduler is_full push_at push_level push yield_scan select_scan or_select
    try_dequeue
program = tt

-- The tenth reply goes out, then the event, though a reply still waits.
yields :
    ((try_dequeue busy).0 ≡ some reply)
    × ((try_dequeue (try_dequeue busy).1).0 ≡ some event)
    × ((try_dequeue (try_dequeue busy).1).1.last_yield ≡ 3)
unfolding program
yields = (refl, refl, refl)

refused : (push busy reply).1 ≡ some queue_full
unfolding program
refused = refl

busy-IsBounded : IsBounded busy
busy-IsBounded = omega arith

try_dequeue-chosen_example :
    ((try_dequeue busy).0 ≡ front_at busy (chosen busy))
    × Takes busy (chosen busy) (try_dequeue busy).1
try_dequeue-chosen_example = try_dequeue-chosen busy

deliveries-le_example : deliveries (put reply ∷ take_next ∷ []) ≤ 10 - 9
unfolding program
deliveries-le_example =
    deliveries-le (put reply ∷ take_next ∷ []) busy
      (record { ranked0 = (refl, (refl, tt)); ranked1 = tt; ranked2 = tt; ranked3 = (refl, tt) })
      refl ((reply, refl, refl), tt)
