-- ===== src/Queues/Scheduler/Order.antt =====
-- Which message `tryDequeue` of pkg/queues/scheduler.go delivers, against a direct description.
use tip_olg_ucentral_client.Prelude.{
  ℕ, zero, suc, ◌+◌, ◌≤◌, ◌≡◌, refl, sym, ap, ◌∙◌, Bool-cases, ◌⊎◌, inl, inr, Bool, true, false,
  Option, none, some, List, [], ◌∷◌, arith, tail, leb, ◌==◌, if◌then◌else◌,
}
use tip_olg_ucentral_client.Queues.Scheduler.{
  OutboundMessage, PriorityScheduler, queue, set_queue, next_yield, yield_scan, select_scan,
  or_select, try_dequeue,
}

abbrev pub is_waiting : List OutboundMessage → Bool
is_waiting [] = false
is_waiting (m ∷ ms) = true

List-cases {ℓ} : {A : Type ℓ} (l : List A) → (l ≡ []) ⊎ ((x : A) × (xs : List A) × (l ≡ x ∷ xs))
List-cases [] = inl refl
List-cases (x ∷ xs) = inr (x, xs, refl)

abbrev pub front : List OutboundMessage → Option OutboundMessage
front [] = none
front (m ∷ ms) = some m

-- The first level with a waiting message.
abbrev pub first_waiting : PriorityScheduler → Option ℕ
first_waiting s =
    if is_waiting s.queue0
    then some 0
    else if is_waiting s.queue1
    then some 1
    else if is_waiting s.queue2
    then some 2
    else if is_waiting s.queue3
    then some 3
    else none

-- The first of the next `n` levels of the cycle 1, 2, 3 behind `l` with a waiting message.
abbrev pub in_turn : ℕ → (ℕ → List OutboundMessage) → ℕ → Option ℕ
in_turn zero q l = none
in_turn (suc n) q l =
    if is_waiting (q (next_yield l)) then some (next_yield l) else in_turn n q (next_yield l)

abbrev pub or_first : PriorityScheduler → Option ℕ → Option ℕ
or_first s none = first_waiting s
or_first s (some p) = some p

-- The level that the scheduler serves next.
abbrev pub chosen : PriorityScheduler → Option ℕ
chosen s =
    if leb 10 s.consecutive_p0
    then or_first s (in_turn 3 (queue s) s.last_yield)
    else first_waiting s

abbrev pub front_at : PriorityScheduler → Option ℕ → Option OutboundMessage
front_at s none = none
front_at s (some p) = front (queue s p)

abbrev pub is_level : Option ℕ → ℕ → Bool
is_level none j = false
is_level (some p) j = p == j

-- The length of the run of deliveries from level 0.
abbrev pub count_after : Option ℕ → ℕ → ℕ
count_after none c = c
count_after (some p) c = if p == 0 then c + 1 else 0

-- `t` is `s` with the front of the level `o` taken, if there is one.
pub record Takes (s : PriorityScheduler) (o : Option ℕ) (t : PriorityScheduler) : Type 0 where
  pub taken0 : t.queue0 ≡ (if is_level o 0 then tail s.queue0 else s.queue0)
  pub taken1 : t.queue1 ≡ (if is_level o 1 then tail s.queue1 else s.queue1)
  pub taken2 : t.queue2 ≡ (if is_level o 2 then tail s.queue2 else s.queue2)
  pub taken3 : t.queue3 ≡ (if is_level o 3 then tail s.queue3 else s.queue3)
  pub same_capacity : t.capacity ≡ s.capacity
  pub same_emergency_cap : t.emergency_cap ≡ s.emergency_cap
  pub counted : t.consecutive_p0 ≡ count_after o s.consecutive_p0

select_lem :
    (s : PriorityScheduler)
    → ((select_scan 4 0 s).0 ≡ front_at s (first_waiting s))
      × Takes s (first_waiting s) (select_scan 4 0 s).1
unfolding select_scan
select_lem s = ground arith

-- The state after the front of level `p` is taken by the round-robin loop.
Takes-yield :
    (s : PriorityScheduler) (p : ℕ) (msg : OutboundMessage) (q : List OutboundMessage)
    → 1 ≤ p
    → p ≤ 3
    → queue s p ≡ msg ∷ q
    → Takes s (some p) (record (set_queue (record s { last_yield = p }) p q) { consecutive_p0 = 0 })
Takes-yield s p msg q g h e = ground arith

Takes-last_yield :
    {s t : PriorityScheduler} {o : Option ℕ} (p : ℕ)
    → Takes (record s { last_yield = p }) o t
    → Takes s o t
Takes-last_yield p h = record {
  taken0 = h.taken0;
  taken1 = h.taken1;
  taken2 = h.taken2;
  taken3 = h.taken3;
  same_capacity = h.same_capacity;
  same_emergency_cap = h.same_emergency_cap;
  counted = h.counted;
}

front_at_last_yield :
    (s : PriorityScheduler) (o : Option ℕ) (p : ℕ)
    → front_at (record s { last_yield = p }) o ≡ front_at s o
front_at_last_yield s none p = refl
front_at_last_yield s (some l) p = refl

yield_lem :
    (n : ℕ) (s : PriorityScheduler)
    → ((yield_scan n s).0 ≡ front_at s (in_turn n (queue s) s.last_yield))
      × Takes s (in_turn n (queue s) s.last_yield) (yield_scan n s).1
unfolding yield_scan
yield_lem zero s = ground arith
yield_lem (suc n) s =
    let p = next_yield s.last_yield in
    elim (List-cases (queue s p)) [
      | inl e ↦
          let ih = yield_lem n (record s { last_yield = p }) in
          rw (e, yield_scan)
            (ih.0 ∙ front_at_last_yield s (in_turn n (queue s) p) p, Takes-last_yield p ih.1)
      | inr (msg, q, e) ↦
          rw (e, yield_scan) (sym (ap front e), Takes-yield s p msg q (omega arith) (omega arith) e)
    ]

in_turn-waiting :
    (n : ℕ) (q : ℕ → List OutboundMessage) (l p : ℕ)
    → in_turn n q l ≡ some p
    → is_waiting (q p) ≡ true
in_turn-waiting zero q l p e = cc
in_turn-waiting (suc n) q l p e = elim (Bool-cases (is_waiting (q (next_yield l)))) [
  | inl h ↦ ground (arith, in_turn-waiting n q (next_yield l) p)
  | inr h ↦ ground (arith, in_turn-waiting n q (next_yield l) p)
]

front-waiting : (l : List OutboundMessage) → is_waiting l ≡ true → none ≡ front l → ⊥
front-waiting [] w e = cc
front-waiting (m ∷ ms) w e = cc

abbrev Law : PriorityScheduler → Option ℕ → Option OutboundMessage × PriorityScheduler → Type 0
Law s o r = (r.0 ≡ front_at s o) × Takes s o r.1

or_select_lem :
    (s t : PriorityScheduler) (o : Option ℕ) (found : Option OutboundMessage)
    → ((p : ℕ) → o ≡ some p → is_waiting (queue s p) ≡ true)
    → Law s o (found, t)
    → Law s (or_first s o) (or_select found t)
unfolding or_select
or_select_lem s t none (some m) w h = cc (h.0)
or_select_lem s t none none w h = ground (arith, select_lem t)
or_select_lem s t (some p) none w h = absurd (front-waiting (queue s p) (w p refl) h.0)
or_select_lem s t (some p) (some m) w h = h

-- The message that `tryDequeue` delivers is the front of the chosen level, none exactly when no
-- level is chosen; that level loses its front and every other level stays as it is.
pub try_dequeue-chosen :
    (s : PriorityScheduler)
    → ((try_dequeue s).0 ≡ front_at s (chosen s)) × Takes s (chosen s) (try_dequeue s).1
unfolding try_dequeue or_select select_scan
try_dequeue-chosen s = elim (Bool-cases (leb 10 s.consecutive_p0)) [
  | inl e ↦ rw e (
      or_select_lem s (yield_scan 3 s).1 _ (yield_scan 3 s).0
        (in_turn-waiting 3 (queue s) s.last_yield) (yield_lem 3 s))
  | inr e ↦ rw e (select_lem s)
]
