-- ===== src/Queues/Scheduler/Fairness.antt =====
-- The anti-starvation rule of pkg/queues/scheduler.go over any interleaving of `Push` and
-- `tryDequeue` calls.
use tip_olg_ucentral_client.Prelude.{
  ℕ, zero, suc, ◌+◌, ◌-◌, ◌%◌, ◌≤◌, ◌<◌, ◌≡◌, refl, sym, ◌∙◌, ◌≢◌, ◌⊎◌, inl, inr, Bool, true, false,
  ◌||◌, Option, none, some, List, [], ◌∷◌, ◌++◌, arith, tail, if◌then◌else◌, Option-cases,
}
use tip_olg_ucentral_client.Queues.Scheduler.{
  OutboundMessage, Priority, level, minus, PriorityScheduler, queue, push_level, push_at, push,
  try_dequeue,
}
use tip_olg_ucentral_client.Queues.Scheduler.Order.{
  is_waiting, front, front_at, in_turn, chosen, try_dequeue-chosen,
}

abbrev HasLevel : ℕ → OutboundMessage → Type 0
HasLevel p msg = msg.priority ≡ level p

abbrev HaveLevel : ℕ → List OutboundMessage → Type 0
HaveLevel p [] = Unit
HaveLevel p (msg ∷ waiting) = HasLevel p msg × HaveLevel p waiting

-- Every message waits in the queue of its own priority.
pub record IsRanked (s : PriorityScheduler) : Type 0 where
  pub ranked0 : HaveLevel 0 s.queue0
  pub ranked1 : HaveLevel 1 s.queue1
  pub ranked2 : HaveLevel 2 s.queue2
  pub ranked3 : HaveLevel 3 s.queue3

HaveLevel-snoc :
    (p : ℕ) (l : List OutboundMessage) (msg : OutboundMessage)
    → HasLevel p msg
    → HaveLevel p l
    → HaveLevel p (l ++ (msg ∷ []))
HaveLevel-snoc p [] msg h a = (h, tt)
HaveLevel-snoc p (m ∷ l) msg h a = (a.0, HaveLevel-snoc p l msg h a.1)

HaveLevel-tail :
    (p : ℕ) (b : Bool) (l : List OutboundMessage)
    → HaveLevel p l
    → HaveLevel p (if b then tail l else l)
HaveLevel-tail p true [] a = tt
HaveLevel-tail p true (m ∷ l) a = a.1
HaveLevel-tail p false l a = a

pub try_dequeue-IsRanked : (s : PriorityScheduler) → IsRanked s → IsRanked (try_dequeue s).1
try_dequeue-IsRanked s r =
    let t = (try_dequeue-chosen s).1 in
    record {
      ranked0 = rw t.taken0 (HaveLevel-tail 0 _ s.queue0 r.ranked0);
      ranked1 = rw t.taken1 (HaveLevel-tail 1 _ s.queue1 r.ranked1);
      ranked2 = rw t.taken2 (HaveLevel-tail 2 _ s.queue2 r.ranked2);
      ranked3 = rw t.taken3 (HaveLevel-tail 3 _ s.queue3 r.ranked3);
    }

push_at-IsRanked :
    (s : PriorityScheduler) (p : ℕ) (msg : OutboundMessage)
    → p ≤ 3
    → HasLevel p msg
    → IsRanked s
    → IsRanked (push_at s p msg).0
unfolding push_at
push_at-IsRanked s zero msg h e r = ground (arith, HaveLevel-snoc 0 s.queue0 msg e)
push_at-IsRanked s (suc zero) msg h e r = ground (arith, HaveLevel-snoc 1 s.queue1 msg e)
push_at-IsRanked s (suc (suc zero)) msg h e r = ground (arith, HaveLevel-snoc 2 s.queue2 msg e)
push_at-IsRanked s (suc (suc (suc zero))) msg h e r =
    ground (arith, HaveLevel-snoc 3 s.queue3 msg e)
push_at-IsRanked s (suc (suc (suc (suc p)))) msg h e r = absurd (omega arith)

push_level-IsRanked :
    (s : PriorityScheduler) (p : Priority) (msg : OutboundMessage)
    → msg.priority ≡ p
    → IsRanked s
    → IsRanked (push_level s p msg).0
unfolding push_level
push_level-IsRanked s (minus n) msg e r = r
push_level-IsRanked s (level p) msg e r = ground (arith, push_at-IsRanked s p msg)

pub push-IsRanked :
    (s : PriorityScheduler) (msg : OutboundMessage) → IsRanked s → IsRanked (push s msg).0
unfolding push
push-IsRanked s msg r = push_level-IsRanked s msg.priority msg refl r

-- Some message waits at a level below the highest.
abbrev pub lower_waiting : PriorityScheduler → Bool
lower_waiting s = is_waiting s.queue1 || is_waiting s.queue2 || is_waiting s.queue3

-- One of three values in a row of residues.
residue : (n : ℕ) → (n % 3 ≡ 0) ⊎ (n % 3 ≡ 1) ⊎ (n % 3 ≡ 2)
residue n = omega arith

in_turn-lower :
    (s : PriorityScheduler) (l : ℕ)
    → lower_waiting s ≡ true
    → (in_turn 3 (queue s) l ≢ none) × (in_turn 3 (queue s) l ≢ some 0)
in_turn-lower s l h = elim (residue l) [
  | inl e ↦ rw e (ground arith)
  | inr (inl e) ↦ rw e (ground arith)
  | inr (inr e) ↦ rw e (ground arith)
]

-- Behind ten deliveries in a row from level 0, a waiting lower message is preferred.
chosen_yields :
    (s : PriorityScheduler) → lower_waiting s ≡ true → 10 ≤ s.consecutive_p0 → chosen s ≢ some 0
chosen_yields s h c =
    let (found, lower) = in_turn-lower s s.last_yield h in
    ground (arith, Option-cases (in_turn 3 (queue s) s.last_yield), found, lower)

-- The priority of the front of the chosen level is that level.
front-HasLevel :
    (p : ℕ) (l : List OutboundMessage) (msg : OutboundMessage)
    → HaveLevel p l
    → some msg ≡ front l
    → HasLevel p msg
front-HasLevel p [] msg a e = cc
front-HasLevel p (m ∷ l) msg a e = ground arith

front_at-zero :
    (s : PriorityScheduler) (msg : OutboundMessage) (o : Option ℕ)
    → IsRanked s
    → some msg ≡ front_at s o
    → HasLevel 0 msg
    → o ≡ some 0
front_at-zero s msg none r e h = cc
front_at-zero s msg (some zero) r e h = refl
front_at-zero s msg (some (suc zero)) r e h =
    ground (arith, front-HasLevel 1 s.queue1 msg r.ranked1 e)
front_at-zero s msg (some (suc (suc zero))) r e h =
    ground (arith, front-HasLevel 2 s.queue2 msg r.ranked2 e)
front_at-zero s msg (some (suc (suc (suc p)))) r e h =
    ground (arith, front-HasLevel 3 s.queue3 msg r.ranked3 (ground arith))

chosen-zero :
    (s : PriorityScheduler) (msg : OutboundMessage)
    → IsRanked s
    → (try_dequeue s).0 ≡ some msg
    → HasLevel 0 msg
    → chosen s ≡ some 0
chosen-zero s msg r e h = front_at-zero s msg (chosen s) r (sym e ∙ (try_dequeue-chosen s).0) h

under_ten :
    (s : PriorityScheduler) → chosen s ≡ some 0 → lower_waiting s ≡ true → s.consecutive_p0 < 10
under_ten s e h = split (by_ten s.consecutive_p0)
  where
    by_ten : (n : ℕ) → (n < 10) ⊎ (10 ≤ n)
    by_ten n = omega arith

    split : (s.consecutive_p0 < 10) ⊎ (10 ≤ s.consecutive_p0) → s.consecutive_p0 < 10
    split (inl lt) = lt
    split (inr ge) = absurd (chosen_yields s h ge e)

-- The calls of producers and of the writer, in the order in which they take `s.mu`.
pub data Op : Type 0 where
  put : OutboundMessage → Op
  take_next : Op

-- Every `take_next` of the run delivers a message of the highest priority.
abbrev pub AllHighest : List Op → PriorityScheduler → Type 0
AllHighest [] s = Unit
AllHighest (put msg ∷ ops) s = AllHighest ops (push s msg).0
AllHighest (take_next ∷ ops) s =
    ((msg : OutboundMessage) × ((try_dequeue s).0 ≡ some msg) × HasLevel 0 msg)
    × AllHighest ops (try_dequeue s).1

abbrev pub deliveries : List Op → ℕ
deliveries [] = 0
deliveries (put msg ∷ ops) = deliveries ops
deliveries (take_next ∷ ops) = suc (deliveries ops)

snoc-waiting :
    (l : List OutboundMessage) (msg : OutboundMessage) → is_waiting (l ++ (msg ∷ [])) ≡ true
snoc-waiting [] msg = refl
snoc-waiting (m ∷ l) msg = refl

push_level-lower :
    (s : PriorityScheduler) (p : Priority) (msg : OutboundMessage)
    → lower_waiting s ≡ true
    → (lower_waiting (push_level s p msg).0 ≡ true)
      × ((push_level s p msg).0.consecutive_p0 ≡ s.consecutive_p0)
unfolding push_level push_at
push_level-lower s (minus n) msg h = (h, refl)
push_level-lower s (level p) msg h =
    ground (arith, snoc-waiting s.queue1 msg, snoc-waiting s.queue2 msg, snoc-waiting s.queue3 msg)

push-lower :
    (s : PriorityScheduler) (msg : OutboundMessage)
    → lower_waiting s ≡ true
    → (lower_waiting (push s msg).0 ≡ true) × ((push s msg).0.consecutive_p0 ≡ s.consecutive_p0)
unfolding push
push-lower s msg h = push_level-lower s msg.priority msg h

take-lower :
    (s : PriorityScheduler)
    → chosen s ≡ some 0
    → lower_waiting s ≡ true
    → (lower_waiting (try_dequeue s).1 ≡ true)
      × ((try_dequeue s).1.consecutive_p0 ≡ s.consecutive_p0 + 1)
take-lower s e h =
    let t = rw e at (try_dequeue-chosen s).1 in (rw (t.taken1, t.taken2, t.taken3) h, t.counted)

-- While a message of priority 1, 2 or 3 waits, a run of calls that delivers only messages of
-- priority 0 delivers at most ten of them, less those that the scheduler has already counted; so
-- among any eleven deliveries one is of a lower priority. Pushes may come in between.
pub deliveries-le :
    (ops : List Op) (s : PriorityScheduler)
    → IsRanked s
    → lower_waiting s ≡ true
    → AllHighest ops s
    → deliveries ops ≤ 10 - s.consecutive_p0
deliveries-le [] s r h a = omega arith
deliveries-le (put msg ∷ ops) s r h a =
    let (kept, same) = push-lower s msg h in
    omega (arith, deliveries-le ops (push s msg).0 (push-IsRanked s msg r) kept a)
deliveries-le (take_next ∷ ops) s r h a =
    let e = chosen-zero s (a.0).0 r (a.0).1 (a.0).2 in
    let (kept, more) = take-lower s e h in
    let below : s.consecutive_p0 < 10 = under_ten s e h in
    omega (arith, deliveries-le ops (try_dequeue s).1 (try_dequeue-IsRanked s r) kept a.1)
