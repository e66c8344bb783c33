-- ===== src/Queues/Scheduler/Bounds.antt =====
-- The capacities of pkg/queues/scheduler.go: no call makes a queue longer than its bound.
use tip_olg_ucentral_client.Prelude.{
  ℕ, ◌≤◌, ◌<◌, ◌≡◌, Bool, true, false, none, some, List, [], ◌∷◌, ◌++◌, arith, length,
  length-append, ◌==◌, if◌then◌else◌, is_some, ◌↔◌, tail,
}
use native.Mathlib.Nat.{le_trans}
use tip_olg_ucentral_client.Queues.Error.{invalid_priority}
use tip_olg_ucentral_client.Queues.Scheduler.{
  OutboundMessage, Priority, level, minus, PriorityScheduler, queue, set_queue, push_at, push_level,
  push, try_dequeue,
}
use tip_olg_ucentral_client.Queues.Scheduler.Order.{is_level, chosen, try_dequeue-chosen}

pub record IsBounded (s : PriorityScheduler) : Type 0 where
  pub bound0 : length s.queue0 ≤ s.emergency_cap
  pub bound1 : length s.queue1 ≤ s.capacity
  pub bound2 : length s.queue2 ≤ s.capacity
  pub bound3 : length s.queue3 ≤ s.capacity

-- The bound on the queue of level `p`.
abbrev pub bound : PriorityScheduler → ℕ → ℕ
bound s p = if p == 0 then s.emergency_cap else s.capacity

push_at-IsBounded :
    (s : PriorityScheduler) (p : ℕ) (msg : OutboundMessage)
    → IsBounded s
    → IsBounded (push_at s p msg).0
unfolding push_at
push_at-IsBounded s p msg b = ground (
  arith,
  length-append s.queue0 (msg ∷ []),
  length-append s.queue1 (msg ∷ []),
  length-append s.queue2 (msg ∷ []),
  length-append s.queue3 (msg ∷ []),
)

push_level-IsBounded :
    (s : PriorityScheduler) (p : Priority) (msg : OutboundMessage)
    → IsBounded s
    → IsBounded (push_level s p msg).0
unfolding push_level
push_level-IsBounded s (minus n) msg b = b
push_level-IsBounded s (level p) msg b = ground (arith, push_at-IsBounded s p msg b)

-- `Push` keeps every queue within its capacity, the emergency capacity for priority 0.
pub push-IsBounded :
    (s : PriorityScheduler) (msg : OutboundMessage) → IsBounded s → IsBounded (push s msg).0
unfolding push
push-IsBounded s msg b = push_level-IsBounded s msg.priority msg b

length-tail-le : (b : Bool) (l : List OutboundMessage) → length (if b then tail l else l) ≤ length l
length-tail-le true [] = omega arith
length-tail-le true (m ∷ ms) = omega arith
length-tail-le false l = omega arith

-- `tryDequeue` keeps every queue within its capacity.
pub try_dequeue-IsBounded : (s : PriorityScheduler) → IsBounded s → IsBounded (try_dequeue s).1
try_dequeue-IsBounded s b =
    let t = (try_dequeue-chosen s).1 in
    record {
      bound0 =
          rw (t.taken0, t.same_emergency_cap)
            (le_trans (length-tail-le (is_level (chosen s) 0) s.queue0) b.bound0);
      bound1 =
          rw (t.taken1, t.same_capacity)
            (le_trans (length-tail-le (is_level (chosen s) 1) s.queue1) b.bound1);
      bound2 =
          rw (t.taken2, t.same_capacity)
            (le_trans (length-tail-le (is_level (chosen s) 2) s.queue2) b.bound2);
      bound3 =
          rw (t.taken3, t.same_capacity)
            (le_trans (length-tail-le (is_level (chosen s) 3) s.queue3) b.bound3);
    }

-- `Push` of a message of priority `p` is accepted exactly when `p` is one of the four levels and
-- the queue of that level is below its bound; it then stands at the end of that queue and nothing
-- else changes. A refused message leaves the scheduler as it was.
pub push-accepts :
    (s : PriorityScheduler) (p : ℕ) (msg : OutboundMessage)
    → msg.priority ≡ level p
    → (((push s msg).1 ≡ none) ↔ ((p ≤ 3) × (length (queue s p) < bound s p)))
      × ((push s msg).0
          ≡ (if is_some (push s msg).1 then s else set_queue s p (queue s p ++ (msg ∷ []))))
unfolding push push_level push_at
push-accepts s p msg e = rw e (ground arith)

-- `Push` of a message of negative priority is refused and changes nothing.
pub push_negative :
    (s : PriorityScheduler) (n : ℕ) (msg : OutboundMessage)
    → msg.priority ≡ minus n
    → push s msg ≡ (s, some invalid_priority)
unfolding push push_level
push_negative s n msg e = rw e
