-- ===== src/Queues/Buffers/Results.antt =====
-- pkg/queues/results.go: `CommandResultQueue`. A method runs under `q.mu`, so it is a function from
-- the old queue to the new one.
use tip_olg_ucentral_client.Prelude.{
  ℕ, ◌≤◌, ◌≡◌, refl, ap, sym, ◌∙◌, Option, none, some, List, [], ◌∷◌, ◌++◌, append_assoc,
  append-nil, Bytes, make_copy, length, length-append, leb, if◌then◌else◌, arith,
}
use tip_olg_ucentral_client.Queues.Error.{Error, queue_full}

pub record CommandResultQueue : Type 0 where
  pub items : List Bytes
  pub capacity : ℕ

-- `none` is the panic.
unfoldable pub new_command_result_queue : ℕ → Option CommandResultQueue
new_command_result_queue capacity =
    if leb capacity 0 then none else some (record { items = []; capacity = capacity })

unfoldable pub result_push : Bytes → CommandResultQueue → CommandResultQueue × Option Error
result_push payload q =
    if leb q.capacity (length q.items)
    then (q, some queue_full)
    else (record q { items = q.items ++ (make_copy payload ∷ []) }, none)

abbrev take_first : CommandResultQueue → List Bytes → CommandResultQueue × Option Bytes
take_first q [] = (q, none)
take_first q (payload ∷ rest) = (record q { items = rest }, some payload)

unfoldable pub result_pop : CommandResultQueue → CommandResultQueue × Option Bytes
result_pop q = take_first q q.items

-- A call of a method.
pub data Call : Type 0 where
  push_call : Bytes → Call
  pop_call : Call

abbrev accepted_by : Bytes → Option Error → List Bytes
accepted_by payload none = make_copy payload ∷ []
accepted_by payload (some e) = []

abbrev taken : Option Bytes → List Bytes
taken none = []
taken (some payload) = payload ∷ []

abbrev pub after : Call → CommandResultQueue → CommandResultQueue
after (push_call payload) q = (result_push payload q).0
after pop_call q = (result_pop q).0

abbrev pub accepted : Call → CommandResultQueue → List Bytes
accepted (push_call payload) q = accepted_by payload (result_push payload q).1
accepted pop_call q = []

abbrev pub delivered : Call → CommandResultQueue → List Bytes
delivered (push_call payload) q = []
delivered pop_call q = taken (result_pop q).1

abbrev pub after_all : List Call → CommandResultQueue → CommandResultQueue
after_all [] q = q
after_all (c ∷ cs) q = after_all cs (after c q)

abbrev pub all_accepted : List Call → CommandResultQueue → List Bytes
all_accepted [] q = []
all_accepted (c ∷ cs) q = accepted c q ++ all_accepted cs (after c q)

abbrev pub all_delivered : List Call → CommandResultQueue → List Bytes
all_delivered [] q = []
all_delivered (c ∷ cs) q = delivered c q ++ all_delivered cs (after c q)

call-fifo :
    (c : Call) (q : CommandResultQueue)
    → q.items ++ accepted c q ≡ delivered c q ++ (after c q).items
unfolding result_push result_pop
call-fifo (push_call payload) q = ground (arith, append-nil q.items)
call-fifo pop_call q = ground (arith, append-nil q.items)

-- Nothing is lost, duplicated or reordered: over any sequence of calls, the payloads that waited
-- followed by the copies of those accepted are those delivered followed by those still waiting.
pub calls-fifo :
    (cs : List Call) (q : CommandResultQueue)
    → q.items ++ all_accepted cs q ≡ all_delivered cs q ++ (after_all cs q).items
calls-fifo [] q = append-nil q.items
calls-fifo (c ∷ cs) q =
    sym (append_assoc q.items (accepted c q) (all_accepted cs (after c q)))
    ∙ ap (λ xs. xs ++ all_accepted cs (after c q)) (call-fifo c q)
    ∙ append_assoc (delivered c q) (after c q).items (all_accepted cs (after c q))
    ∙ ap (λ xs. delivered c q ++ xs) (calls-fifo cs (after c q))
    ∙ sym (
        append_assoc (delivered c q) (all_delivered cs (after c q))
          (after_all cs (after c q)).items)

take_first-length :
    (q : CommandResultQueue) (xs : List Bytes)
    → q.items ≡ xs
    → length xs ≤ q.capacity
    → (length (take_first q xs).0.items ≤ q.capacity) × ((take_first q xs).0.capacity ≡ q.capacity)
take_first-length q [] e h = (rw e h, refl)
take_first-length q (x ∷ xs) e h = (omega arith, refl)

call-IsBounded :
    (c : Call) (q : CommandResultQueue)
    → length q.items ≤ q.capacity
    → (length (after c q).items ≤ q.capacity) × ((after c q).capacity ≡ q.capacity)
unfolding result_push result_pop
call-IsBounded (push_call payload) q h =
    ground (arith, length-append q.items (make_copy payload ∷ []))
call-IsBounded pop_call q h = take_first-length q q.items refl h

-- Over any sequence of calls, a queue within its capacity stays within it.
pub calls-IsBounded :
    (cs : List Call) (q : CommandResultQueue)
    → length q.items ≤ q.capacity
    → (length (after_all cs q).items ≤ q.capacity) × ((after_all cs q).capacity ≡ q.capacity)
calls-IsBounded [] q h = (h, refl)
calls-IsBounded (c ∷ cs) q h =
    let (one, cap) = call-IsBounded c q h in
    let (all, caps) = calls-IsBounded cs (after c q) (omega (arith, one, cap)) in
    (omega (arith, all, cap), caps ∙ cap)
