-- ===== src/Queues/Ring/Refine.antt =====
-- The telemetry ring of pkg/queues/buffer.go against a plain list of payloads, oldest first.
use tip_olg_ucentral_client.Prelude.{
  ℕ, zero, suc, ◌+◌, ◌-◌, ◌%◌, ◌≤◌, ◌<◌, ◌≡◌, ◌≢◌, refl, ap, ◌∙◌, sym, Bool, true, false, Option,
  none, some, List, [], ◌∷◌, ◌++◌, Bytes, make_copy, length, get_or, set, tail, replicate,
  length-set, length-replicate, get_or-set_self, get_or-set_ne, ◌==◌, if◌then◌else◌, arith,
}
use native.Mathlib.Nat.{mod-add-mod, mod-eq_of_lt, mod-eq-sub-mod, mod-lt}
use native.Mathlib.Decide.{dec_lt}
use tip_olg_ucentral_client.Queues.Ring.{TelemetryRingBuffer, new_telemetry_ring_buffer, push, pop}

-- The capacity is positive, the indices are in range and agree with the size.
pub record IsRing (b : TelemetryRingBuffer) : Type 0 where
  pub slots : length b.buffer ≡ b.capacity
  pub head_lt : b.head < b.capacity
  pub size_le : b.size ≤ b.capacity
  pub tail_at : b.tail ≡ (b.head + b.size) % b.capacity

module _ (buffer : List Bytes) (capacity : ℕ) where
  -- The payloads of the `n` slots from slot `h` on, round the end of the buffer.
  abbrev pub held : ℕ → ℕ → List Bytes
  held h zero = []
  held h (suc n) = get_or buffer h none ∷ held ((h + 1) % capacity) n

abbrev pub waiting : TelemetryRingBuffer → List Bytes
waiting b = held b.buffer b.capacity b.head b.size

one_on : (h n capacity : ℕ) → ((h + 1) % capacity + n) % capacity ≡ (h + suc n) % capacity
one_on h n capacity = mod-add-mod (h + 1) capacity n ∙ ap (λ k. k % capacity) (omega arith)

elsewhere : (h k capacity : ℕ) → h < capacity → suc k < capacity → (h + suc k) % capacity ≢ h
elsewhere h k capacity p q = elim (dec_lt (h + suc k) capacity) [
  | yes r ↦ omega (arith, mod-eq_of_lt r)
  | no r ↦ omega (
    arith,
    mod-eq-sub-mod {n = h + suc k} {m = capacity} (omega arith),
    mod-eq_of_lt {n = h + suc k - capacity} {m = capacity} (omega arith),
  )
]

length-held : (buffer : List Bytes) (capacity h n : ℕ) → length (held buffer capacity h n) ≡ n
length-held buffer capacity h zero = refl
length-held buffer capacity h (suc n) = ap suc (length-held buffer capacity ((h + 1) % capacity) n)

-- The last slot of the range split off.
held-last :
    (buffer : List Bytes) (capacity h n : ℕ)
    → h < capacity
    → held buffer capacity h (suc n)
      ≡ held buffer capacity h n ++ (get_or buffer ((h + n) % capacity) none ∷ [])
held-last buffer capacity h zero p =
    ap (λ i. get_or buffer i none ∷ [])
      (sym (mod-eq_of_lt p) ∙ ap (λ k. k % capacity) (omega arith))
held-last buffer capacity h (suc n) p =
    ap (λ xs. get_or buffer h none ∷ xs)
      (rw⁻¹ (one_on h n capacity)
        (held-last buffer capacity ((h + 1) % capacity) n (mod-lt (h + 1) (omega arith))))

-- A write outside of the range is not seen.
held-set :
    (buffer : List Bytes) (capacity h n k i : ℕ) (v : Bytes)
    → h < capacity
    → n ≤ k
    → k < capacity
    → i ≡ (h + k) % capacity
    → held (set buffer i v) capacity h n ≡ held buffer capacity h n
held-set buffer capacity h zero k i v p q r e = refl
held-set buffer capacity h (suc n) zero i v p q r e = absurd (omega arith)
held-set buffer capacity h (suc n) (suc k) i v p q r e =
    rw (get_or-set_ne buffer i h v none (rw e (elsewhere h k capacity p r))) (
      ap (λ xs. get_or buffer h none ∷ xs)
        (held-set buffer capacity ((h + 1) % capacity) n k i v (mod-lt (h + 1) (omega arith))
          (omega arith) (omega arith) (e ∙ sym (one_on h k capacity))))

-- A write to the slot behind the range extends it.
held-extend :
    (buffer : List Bytes) (capacity h n i : ℕ) (v : Bytes)
    → length buffer ≡ capacity
    → h < capacity
    → n < capacity
    → i ≡ (h + n) % capacity
    → held (set buffer i v) capacity h (suc n) ≡ held buffer capacity h n ++ (v ∷ [])
held-extend buffer capacity h n i v s p q e =
    held-last (set buffer i v) capacity h n p
    ∙ rw
        (
          held-set buffer capacity h n n i v p (omega arith) q e,
          ← e,
          get_or-set_self buffer i v none
              (omega (arith, e, mod-lt (h + n) {m = capacity} (omega arith))),
        )
        refl

-- `n` slots from `h` on, told apart the way the code tests for an empty buffer.
held_of_ne_zero :
    (buffer : List Bytes) (capacity h n : ℕ)
    → n ≢ 0
    → held buffer capacity h n
      ≡ get_or buffer h none ∷ held buffer capacity ((h + 1) % capacity) (n - 1)
held_of_ne_zero buffer capacity h zero p = absurd (p refl)
held_of_ne_zero buffer capacity h (suc n) p = ap (λ k. held buffer capacity h (suc k)) (omega arith)

round_trip : (h capacity : ℕ) → h < capacity → h ≡ ((h + 1) % capacity + (capacity - 1)) % capacity
round_trip h capacity p = grind arith

next_tail : (h n capacity : ℕ) → ((h + n) % capacity + 1) % capacity ≡ (h + (n + 1)) % capacity
next_tail h n capacity = mod-add-mod (h + n) capacity 1 ∙ ap (λ k. k % capacity) (omega arith)

next_both :
    (h n capacity : ℕ) → ((h + n) % capacity + 1) % capacity ≡ ((h + 1) % capacity + n) % capacity
next_both h n capacity =
    next_tail h n capacity ∙ ap (λ k. (h + k) % capacity) (omega arith) ∙ sym (one_on h n capacity)

-- The queue that the ring stands for: at capacity the oldest payload makes room.
abbrev pub bounded_push : ℕ → Bytes → List Bytes → Bool × List Bytes
bounded_push capacity payload xs =
    if length xs == capacity
    then (true, tail xs ++ (make_copy payload ∷ []))
    else (false, xs ++ (make_copy payload ∷ []))

abbrev pub bounded_pop : List Bytes → Option Bytes × List Bytes
bounded_pop [] = (none, [])
bounded_pop (x ∷ xs) = (some x, xs)

-- The payload written over the oldest one becomes the newest.
held-overwrite :
    (buffer : List Bytes) (capacity h : ℕ) (v : Bytes)
    → length buffer ≡ capacity
    → h < capacity
    → held (set buffer h v) capacity ((h + 1) % capacity) capacity
      ≡ tail (held buffer capacity h capacity) ++ (v ∷ [])
held-overwrite buffer capacity h v s p =
    ap (held (set buffer h v) capacity ((h + 1) % capacity)) {y = suc (capacity - 1)} (omega arith)
    ∙ held-extend buffer capacity ((h + 1) % capacity) (capacity - 1) h v s
        (mod-lt (h + 1) (omega arith)) (omega arith) (round_trip h capacity p)
    ∙ ap (λ xs. tail xs ++ (v ∷ []))
        (sym (held_of_ne_zero buffer capacity h capacity (omega arith)))

-- `Push` keeps the ring well formed, and it reports and leaves what the bounded queue of the waiting
-- payloads does: a copy of the payload is appended, and at capacity the oldest payload is dropped.
pub push-refines :
    (payload : Bytes) (b : TelemetryRingBuffer)
    → IsRing b
    → IsRing (push payload b).1
      × ((push payload b).0 ≡ (bounded_push b.capacity payload (waiting b)).0)
      × (waiting (push payload b).1 ≡ (bounded_push b.capacity payload (waiting b)).1)
unfolding push
push-refines payload b v = ground (
  arith,
  length-set b.buffer b.head (make_copy payload),
  length-set b.buffer b.tail (make_copy payload),
  mod-lt (b.head + 1) {m = b.capacity},
  next_tail b.head b.size b.capacity,
  next_both b.head b.size b.capacity,
  length-held b.buffer b.capacity b.head b.size,
  held-overwrite b.buffer b.capacity b.head (make_copy payload),
  held-extend b.buffer b.capacity b.head b.size b.tail (make_copy payload),
)

-- `Pop` keeps the ring well formed, and it returns the oldest waiting payload and leaves the others,
-- or returns nothing and changes nothing if none waits.
pub pop-refines :
    (b : TelemetryRingBuffer)
    → IsRing b
    → IsRing (pop b).1
      × ((pop b).0 ≡ (bounded_pop (waiting b)).0)
      × (waiting (pop b).1 ≡ (bounded_pop (waiting b)).1)
unfolding pop
pop-refines b v = ground (
  arith,
  length-set b.buffer b.head none,
  mod-lt (b.head + 1) {m = b.capacity},
  one_on b.head (b.size - 1) b.capacity,
  held_of_ne_zero b.buffer b.capacity b.head b.size,
  round_trip b.head b.capacity,
  held-set b.buffer b.capacity ((b.head + 1) % b.capacity) (b.size - 1) (b.capacity - 1) b.head
      none,
)

-- A new ring of positive capacity is well formed and holds nothing.
pub new_telemetry_ring_buffer-IsRing :
    (capacity : ℕ)
    → 0 < capacity
    → (b : TelemetryRingBuffer) × (new_telemetry_ring_buffer capacity ≡ some b)
      × IsRing b
      × (waiting b ≡ [])
      × (b.capacity ≡ capacity)
unfolding new_telemetry_ring_buffer
new_telemetry_ring_buffer-IsRing capacity p = (
  record { buffer = replicate capacity none; capacity = capacity; head = 0; tail = 0; size = 0 },
  ground arith,
  record {
    slots = length-replicate capacity none;
    head_lt = p;
    size_le = omega arith;
    tail_at = sym (mod-eq_of_lt p);
  },
  refl,
  refl,
)
