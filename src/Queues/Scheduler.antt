-- ===== src/Queues/Scheduler.antt =====
-- pkg/queues/scheduler.go: `PriorityScheduler`. A method runs under `s.mu`, so it is a function
-- from the old scheduler to the new one. A Go `int` priority is its non-negative value or, for a
-- negative one, `minus`.
pub mod Bounds
pub mod Order
pub mod Fairness
mod Tests
use tip_olg_ucentral_client.Prelude.{
  ℕ, zero, suc, ◌+◌, ◌%◌, String, Bool, true, false, ◌&&◌, ◌||◌, Option, none, some, List, [], ◌∷◌,
  ◌++◌, Bytes, length, ltb, leb, ◌==◌, if◌then◌else◌, is_some,
}
use tip_olg_ucentral_client.Queues.Error.{Error, queue_full, invalid_priority}

pub data Priority : Type 0 where
  level : ℕ → Priority
  minus : ℕ → Priority

pub record OutboundMessage : Type 0 where
  pub session_id : String
  pub priority : Priority
  pub payload : Bytes

pub record PriorityScheduler : Type 0 where
  pub queue0 : List OutboundMessage
  pub queue1 : List OutboundMessage
  pub queue2 : List OutboundMessage
  pub queue3 : List OutboundMessage
  pub capacity : ℕ
  pub emergency_cap : ℕ
  pub consecutive_p0 : ℕ
  pub last_yield : ℕ

-- `none` is the panic.
unfoldable pub new_priority_scheduler : ℕ → ℕ → Option PriorityScheduler
new_priority_scheduler capacity emergency_cap =
    if leb capacity 0 || leb emergency_cap 0
    then none
    else some (record {
      queue0 = [];
      queue1 = [];
      queue2 = [];
      queue3 = [];
      capacity = capacity;
      emergency_cap = emergency_cap;
      consecutive_p0 = 0;
      last_yield = 0;
    })

-- `s.queues[p]` of the array of four queues.
abbrev pub queue : PriorityScheduler → ℕ → List OutboundMessage
queue s p =
    if p == 0 then s.queue0 else if p == 1 then s.queue1 else if p == 2 then s.queue2 else s.queue3

abbrev pub set_queue : PriorityScheduler → ℕ → List OutboundMessage → PriorityScheduler
set_queue s p q =
    if p == 0
    then record s { queue0 = q }
    else if p == 1
    then record s { queue1 = q }
    else if p == 2
    then record s { queue2 = q }
    else record s { queue3 = q }

unfoldable pub is_full : PriorityScheduler → ℕ → Bool
is_full s p =
    if p == 0 then leb s.emergency_cap (length (queue s p)) else leb s.capacity (length (queue s p))

-- `Push` after the range check of the priority.
unfoldable pub push_at : PriorityScheduler → ℕ → OutboundMessage → PriorityScheduler × Option Error
unfolding is_full
push_at s p msg =
    if is_full s p then (s, some queue_full) else (set_queue s p (queue s p ++ (msg ∷ [])), none)

push_level : PriorityScheduler → Priority → OutboundMessage → PriorityScheduler × Option Error
unfolding push_at
push_level s (minus n) msg = (s, some invalid_priority)
push_level s (level p) msg = if ltb 3 p then (s, some invalid_priority) else push_at s p msg

unfoldable pub push : PriorityScheduler → OutboundMessage → PriorityScheduler × Option Error
unfolding push_level
push s msg = push_level s msg.priority msg

-- `pop(&s.queues[p])` behind its caller's test `len(s.queues[p]) > 0`.
abbrev pub pop : List OutboundMessage → Option (OutboundMessage × List OutboundMessage)
pop [] = none
pop (msg ∷ rest) = some (msg, rest)

abbrev pub next_yield : ℕ → ℕ
next_yield p = p % 3 + 1

-- The round-robin loop `for i := 1; i <= 3; i++`, with the rounds left as its first argument.
unfoldable pub yield_scan : ℕ → PriorityScheduler → Option OutboundMessage × PriorityScheduler
yield_scan zero s = (none, s)
yield_scan (suc i) s =
    let p = next_yield s.last_yield in
    let t = record s { last_yield = p } in
    let rest = yield_scan i t in
    elim (pop (queue s p)) [
      | none ↦ rest
      | some (msg, q) ↦ (some msg, record (set_queue t p q) { consecutive_p0 = 0 })
    ]

-- The loop `for p := PriorityHighest; p <= PriorityLow; p++` from priority `p`, with the rounds
-- left as its first argument.
unfoldable pub select_scan : ℕ → ℕ → PriorityScheduler → Option OutboundMessage × PriorityScheduler
select_scan zero p s = (none, s)
select_scan (suc i) p s =
    let rest = select_scan i (p + 1) s in
    elim (pop (queue s p)) [
      | none ↦ rest
      | some (msg, q) ↦ (
        some msg,
        record (set_queue s p q) { consecutive_p0 = if p == 0 then s.consecutive_p0 + 1 else 0 },
      )
    ]

-- The normal selection, reached where the round-robin loop has not returned.
unfoldable pub or_select :
    Option OutboundMessage → PriorityScheduler → Option OutboundMessage × PriorityScheduler
or_select (some msg) s = (some msg, s)
or_select none s = select_scan 4 0 s

unfoldable pub try_dequeue : PriorityScheduler → Option OutboundMessage × PriorityScheduler
try_dequeue s =
    let (found, t) = if leb 10 s.consecutive_p0 then yield_scan 3 s else (none, s) in
    or_select found t

-- What a pass of the loop of `Next` ends in, with `s.mu` held: the context is cancelled, a message
-- is delivered, or the goroutine waits on `s.cond`.
pub data NextOutcome : Type 0 where
  ctx_err waiting : NextOutcome
  delivered : OutboundMessage → NextOutcome

unfoldable pub next_pass : Bool → PriorityScheduler → NextOutcome × PriorityScheduler
next_pass cancelled s =
    let (found, t) = try_dequeue s in
    if cancelled
    then (ctx_err, s)
    else elim found [ some msg ↦ (delivered msg, t) | none ↦ (waiting, t) ]
