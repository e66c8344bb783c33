-- ===== src/Reqmgr/Manager/Ending.antt =====
-- The end of a transaction in pkg/reqmgr/manager.go: it happens once, frees what the transaction
-- held, and delivers its response.
use tip_olg_ucentral_client.Prelude.{
  ℕ, String, false, ◌&&◌, Option, none, some, Bytes, len, lookup-remove, str_eq, eq_refl, ltb,
  if◌then◌else◌, is_some, ◌≡◌, refl, sym, ap, ◌∙◌, arith, Bool-cases, Option-cases, inl, inr,
}
use tip_olg_ucentral_client.Contracts.Json.{Json}
use tip_olg_ucentral_client.Queues.Scheduler.{PriorityScheduler, OutboundMessage, level, push}
use tip_olg_ucentral_client.Reqmgr.Cache
use tip_olg_ucentral_client.Reqmgr.Cache.{ttl_for_method}
use tip_olg_ucentral_client.Reqmgr.Transaction.{
  transaction_not_found, TransactionState, completed, validate_transition, is_terminal, Transaction,
}
use tip_olg_ucentral_client.Reqmgr.Manager.{
  Outcome, RequestManager, lock_none, get_tx, get_pending, cache_response, forget, release_if_owner,
  send_response, finalize, end_transaction, terminal_transition,
}
use tip_olg_ucentral_client.Reqmgr.Manager.Lifecycle.{mark, mark_in_flight, complete, fail, timeout}
use tip_olg_ucentral_client.Reqmgr.Manager.Invariant.Finalize.{finalize-Ended}

-- The call ended the transaction `tx`.
abbrev EndedBy : ℕ → String → TransactionState → Bytes → RequestManager → RequestManager → Type 0
EndedBy now id final payload m n =
    (tx : Transaction) × (get_tx m id ≡ some tx)
    × (validate_transition tx.state final ≡ none)
    × (n ≡ finalize now id tx final payload m)

end_transaction-inv :
    (now : ℕ) (id : String) (final : TransactionState) (payload : Bytes) (m n : RequestManager)
    (o : Option Transaction)
    → get_tx m id ≡ o
    → end_transaction now id final payload m o ≡ (n, none)
    → EndedBy now id final payload m n
unfolding end_transaction
end_transaction-inv now id final payload m n none e h = cc
end_transaction-inv now id final payload m n (some tx) e h =
    elim (Option-cases (validate_transition tx.state final)) [
      | inl v ↦
          let f = rw (v, end_transaction) at h in (tx, e, v, ap (λ (r : Outcome). r.0) (sym f))
      | inr (x, v) ↦ let f = rw (v, end_transaction) at h in cc
    ]

-- A call of `terminalTransition` that returns no error found the transaction and ended it.
terminal_transition-inv :
    (now : ℕ) (id : String) (final : TransactionState) (payload : Bytes) (m n : RequestManager)
    → terminal_transition now id final payload m ≡ (n, none)
    → EndedBy now id final payload m n
unfolding terminal_transition
terminal_transition-inv now id final payload m n h = elim (Bool-cases (is_terminal final)) [
  | inl t ↦
      end_transaction-inv now id final payload m n (get_tx m id) refl
        (rw (t, terminal_transition) at h)
  | inr t ↦ let f = rw (t, terminal_transition) at h in cc
]

-- The response for the cloud of a transaction that ends with `payload`.
abbrev pub response_of : Transaction → Bytes → OutboundMessage
response_of tx payload = record {
  session_id = tx.cloud_session_id;
  priority = level 0;
  payload = payload;
}

-- What is delivered to the scheduler at the end of a transaction.
abbrev pub after_response :
    Transaction → Bytes → Option PriorityScheduler → Option PriorityScheduler
after_response tx payload none = none
after_response tx payload (some s) =
    if tx.respond_to_cloud && ltb 0 (len payload)
    then some (push s (response_of tx payload)).0
    else some s

finalize-scheduler :
    (now : ℕ) (id : String) (tx : Transaction) (final : TransactionState) (payload : Bytes)
    (m : RequestManager)
    → (finalize now id tx final payload m).scheduler ≡ after_response tx payload m.scheduler
unfolding finalize forget release_if_owner send_response cache_response
finalize-scheduler now id tx final payload m = ground arith

-- The cache behind the answer of `tx` by `payload`.
abbrev pub after_answer : ℕ → Transaction → Bytes → RequestManager → Cache.TransactionCache
after_answer now tx payload m =
    if tx.respond_to_cloud && is_some payload
    then Cache.set now tx.request_key payload (ttl_for_method m.cache_ttl_config tx.method) m.cache
    else m.cache

-- The request `id` of the transaction `tx` has been answered by `payload`, and is over.
pub record Answered (now : ℕ) (id : String) (tx : Transaction) (payload : Bytes)
    (m n : RequestManager) : Type 0 where
  pub gone : get_tx n id ≡ none
  pub reply_gone : get_pending n id ≡ none
  pub delivered : n.scheduler ≡ after_response tx payload m.scheduler
  pub cached : n.cache ≡ after_answer now tx payload m

finalize-answer :
    (now : ℕ) (id : String) (tx : Transaction) (payload : Bytes) (m : RequestManager)
    → (finalize now id tx completed payload m).cache ≡ after_answer now tx payload m
unfolding finalize forget release_if_owner send_response cache_response
finalize-answer now id tx payload m = ground arith

pub finalize-Answered :
    (now : ℕ) (id : String) (tx : Transaction) (payload : Bytes) (m : RequestManager)
    → Answered now id tx payload m (finalize now id tx completed payload m)
finalize-Answered now id tx payload m =
    let d = finalize-Ended now id tx completed payload m in
    record {
      gone = ground (arith, d.transactions, lookup-remove id id m.transactions, eq_refl id);
      reply_gone = ground (arith, d.replies, lookup-remove id id m.pending_replies, eq_refl id);
      delivered = finalize-scheduler now id tx completed payload m;
      cached = finalize-answer now id tx payload m;
    }

-- The same in a manager that shows the scheduler and the cache of another one.
pub Answered-same :
    (now : ℕ) (id : String) (tx : Transaction) (payload : Bytes) (m k n : RequestManager)
    → m.scheduler ≡ k.scheduler
    → m.cache ≡ k.cache
    → m.cache_ttl_config ≡ k.cache_ttl_config
    → Answered now id tx payload m n
    → Answered now id tx payload k n
Answered-same now id tx payload m k n s c t a = record {
  gone = a.gone;
  reply_gone = a.reply_gone;
  delivered = a.delivered ∙ ap (after_response tx payload) s;
  cached = rw (← t, ← c) a.cached;
}

-- What the end of `tx`, named `id`, with `payload` makes of the manager `m`.
pub record IsGone (id : String) (tx : Transaction) (payload : Bytes) (m n : RequestManager)
    : Type 0 where
  pub was_there : get_tx m id ≡ some tx
  pub gone : get_tx n id ≡ none
  pub reply_gone : get_pending n id ≡ none
  pub others : (j : String) → get_tx n j ≡ (if str_eq id j then none else get_tx m j)
  pub delivered : n.scheduler ≡ after_response tx payload m.scheduler
  pub lock : n.state_lock ≡ (if str_eq m.active_state_tx id then false else m.state_lock)
  pub owner :
      n.active_state_owner
      ≡ (if str_eq m.active_state_tx id then lock_none else m.active_state_owner)

-- A terminal transition that returns no error ends a transaction that was there: it leaves the map
-- with its buffered reply, no other transaction changes, its response is handed to the scheduler
-- once at the highest priority if it is not empty and the cloud awaits one, and the state lock is
-- freed exactly if the transaction owned it.
pub terminal_transition-IsGone :
    (now : ℕ) (id : String) (final : TransactionState) (payload : Bytes) (m n : RequestManager)
    → terminal_transition now id final payload m ≡ (n, none)
    → (tx : Transaction) × IsGone id tx payload m n
terminal_transition-IsGone now id final payload m n h =
    let (tx, there, v, e) = terminal_transition-inv now id final payload m n h in
    let d = finalize-Ended now id tx final payload m in
    (
      tx,
      rw e (record {
        was_there = there;
        gone = ground (arith, d.transactions, lookup-remove id id m.transactions, eq_refl id);
        reply_gone = ground (arith, d.replies, lookup-remove id id m.pending_replies, eq_refl id);
        others = λ j. ground (arith, d.transactions, lookup-remove id j m.transactions);
        delivered = finalize-scheduler now id tx final payload m;
        lock = d.lock;
        owner = d.owner;
      }),
    )

-- Once a transaction has left the map, every call for it returns `ErrTransactionNotFound` and
-- changes nothing: no second response is sent.
pub gone-refuses :
    (json : Json) (now : ℕ) (id : String) (to : TransactionState) (response : Bytes)
    (m : RequestManager)
    → get_tx m id ≡ none
    → (complete now id response m ≡ (m, some transaction_not_found))
      × (fail now id response m ≡ (m, some transaction_not_found))
      × (timeout json now id m ≡ (m, some transaction_not_found))
      × (mark_in_flight now id m ≡ (m, some transaction_not_found))
      × (mark to id m ≡ (m, some transaction_not_found))
unfolding complete fail timeout mark_in_flight mark
gone-refuses json now id to response m e =
    (rw (e, complete), rw (e, fail), rw (e, timeout), rw (e, mark_in_flight), rw (e, mark))
