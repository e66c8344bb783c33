-- ===== src/Handler/Execute/Laws.antt =====
-- What `executeTransaction` of cmd/ucentral-client/handler.go leaves behind in the request manager.
use tip_olg_ucentral_client.Prelude.{
  ℕ, String, Bool, true, false, not, ◌&&◌, Option, none, some, Bytes, eq_refl, if◌then◌else◌,
  is_some, ◌≡◌, refl, ◌∙◌, arith, lookup-insert, lookup-remove,
}
use tip_olg_ucentral_client.Contracts.Json.{Json}
use tip_olg_ucentral_client.Contracts.Rpc.{AppCode, service_unavailable}
use tip_olg_ucentral_client.Reqmgr.Transaction.{
  Transaction, TransactionState, created, preparing_dispatch, pending_publish, in_flight, failed,
  validate_transition,
}
use tip_olg_ucentral_client.Reqmgr.Manager.{
  RequestManager, Outcome, get_tx, get_pending, put_tx, terminal_transition, end_transaction,
}
use tip_olg_ucentral_client.Reqmgr.Manager.Lifecycle.{
  mark, mark_preparing_dispatch, mark_pending_publish, mark_in_flight, fail, abort, abort_now,
  with_response_timer,
}
use tip_olg_ucentral_client.Reqmgr.Manager.Invariant.{IsConsistent}
use tip_olg_ucentral_client.Reqmgr.Manager.Invariant.Finalize.{finalize-Ended}
use tip_olg_ucentral_client.Reqmgr.Manager.Invariant.Methods.{
  mark-IsConsistent, mark_in_flight-IsConsistent, fail-IsConsistent,
}
use tip_olg_ucentral_client.Handler.Execute.{
  NatsCommand, DispatchError, Surroundings, Command, fail_transaction_with_code, nats_command,
  after_dispatch, dispatch, prepare, start, execute_transaction,
}

-- What other goroutines do during a dispatch keeps the manager consistent.
abbrev pub IsSafe : Surroundings → Type 0
IsSafe s = (c : NatsCommand) (m : RequestManager) → IsConsistent m → IsConsistent (s.submit c m).1

fail_transaction_with_code-IsConsistent :
    (json : Json) (now : ℕ) (tx : Transaction) (app : AppCode) (message : String)
    (m : RequestManager)
    → IsConsistent m
    → IsConsistent (fail_transaction_with_code json now tx app message m)
unfolding fail_transaction_with_code
fail_transaction_with_code-IsConsistent json now tx app message m h =
    fail-IsConsistent now tx.rpc_id _ m h

if-IsConsistent :
    {m n : RequestManager} (b : Bool)
    → IsConsistent m
    → IsConsistent n
    → IsConsistent (if b then m else n)
if-IsConsistent true h k = h
if-IsConsistent false h k = k

after_dispatch-IsConsistent :
    (json : Json) (now : ℕ) (tx : Transaction) (r : Option DispatchError × RequestManager)
    → IsConsistent r.1
    → IsConsistent (after_dispatch json now tx r)
unfolding after_dispatch
after_dispatch-IsConsistent json now tx (none, m) h = mark_in_flight-IsConsistent now tx.rpc_id m h
after_dispatch-IsConsistent json now tx (some e, m) h =
    fail_transaction_with_code-IsConsistent json now tx _ _ m h

module _ (json : Json) (now : ℕ) (s : Surroundings) (safe : IsSafe s) (tx : Transaction)
    (c : Command) where
  dispatch-IsConsistent :
      (m : RequestManager) → IsConsistent m → IsConsistent (dispatch json now s tx c m)
  unfolding dispatch
  dispatch-IsConsistent m h =
      if-IsConsistent (not s.has_client)
        (fail_transaction_with_code-IsConsistent json now tx _ _ m h)
        (after_dispatch-IsConsistent json now tx (s.submit (nats_command s tx c) m)
          (safe (nats_command s tx c) m h))

  prepare-IsConsistent : (r : Outcome) → IsConsistent r.0 → IsConsistent (prepare json now s tx c r)
  unfolding prepare
  prepare-IsConsistent (m, none) h = dispatch-IsConsistent m h
  prepare-IsConsistent (m, some e) h = fail_transaction_with_code-IsConsistent json now tx _ _ m h

  start-IsConsistent : (r : Outcome) → IsConsistent r.0 → IsConsistent (start json now s tx c r)
  unfolding start mark_pending_publish
  start-IsConsistent (m, none) h =
      prepare-IsConsistent (mark pending_publish tx.rpc_id m)
        (mark-IsConsistent pending_publish tx.rpc_id m refl h)
  start-IsConsistent (m, some e) h = fail_transaction_with_code-IsConsistent json now tx _ _ m h

  -- Whatever the buffer, the client and the dispatch do, and whatever runs during the dispatch as
  -- long as it keeps the manager consistent, `executeTransaction` keeps it consistent.
  pub execute_transaction-IsConsistent :
      (m : RequestManager) → IsConsistent m → IsConsistent (execute_transaction json now s tx c m)
  unfolding execute_transaction mark_preparing_dispatch
  execute_transaction-IsConsistent m h =
      if-IsConsistent (not s.has_room) (fail_transaction_with_code-IsConsistent json now tx _ _ m h)
        (start-IsConsistent (mark preparing_dispatch tx.rpc_id m)
          (mark-IsConsistent preparing_dispatch tx.rpc_id m refl h))

-- The transaction `id` of the manager is in state `s`, not being handed over, and no reply waits.
abbrev pub IsQuiet : String → Transaction → RequestManager → Type 0
IsQuiet id tx m =
    (get_tx m id ≡ some tx) × (get_pending m id ≡ none) × (tx.handoff_in_progress ≡ false)

mark-moves :
    (to : TransactionState) (id : String) (tx : Transaction) (m : RequestManager)
    → IsQuiet id tx m
    → validate_transition tx.state to ≡ none
    → mark to id m ≡ (put_tx m id (record tx { state = to }), none)
unfolding mark
mark-moves to id tx m (e, p, h) v = ground arith

put_tx-IsQuiet :
    (id : String) (tx new : Transaction) (m : RequestManager)
    → IsQuiet id tx m
    → new.handoff_in_progress ≡ false
    → IsQuiet id new (put_tx m id new)
put_tx-IsQuiet id tx new m (e, p, h) q =
    (ground (arith, lookup-insert id id new m.transactions, eq_refl id), p, q)

fail-removes :
    (now : ℕ) (id : String) (payload : Bytes) (tx : Transaction) (m : RequestManager)
    → IsQuiet id tx m
    → validate_transition tx.state failed ≡ none
    → get_tx (fail now id payload m).0 id ≡ none
unfolding fail abort abort_now terminal_transition end_transaction
fail-removes now id payload tx m (e, p, h) v = ground (
  arith,
  (finalize-Ended now id tx failed payload m).transactions,
  lookup-remove id id m.transactions,
  eq_refl id,
)

fail_transaction_with_code-removes :
    (json : Json) (now : ℕ) (tx cur : Transaction) (app : AppCode) (message : String)
    (m : RequestManager)
    → IsQuiet tx.rpc_id cur m
    → validate_transition cur.state failed ≡ none
    → get_tx (fail_transaction_with_code json now tx app message m) tx.rpc_id ≡ none
unfolding fail_transaction_with_code
fail_transaction_with_code-removes json now tx cur app message m q v =
    fail-removes now tx.rpc_id _ cur m q v

mark_in_flight-starts :
    (now : ℕ) (id : String) (tx : Transaction) (m : RequestManager)
    → IsQuiet id tx m
    → validate_transition tx.state in_flight ≡ none
    → get_tx (mark_in_flight now id m).0 id ≡ some (with_response_timer now tx)
unfolding mark_in_flight
mark_in_flight-starts now id tx m (e, p, h) v =
    ground (arith, lookup-insert id id (with_response_timer now tx) m.transactions, eq_refl id)

-- A dispatch during which nothing happens to the transaction `id`.
abbrev pub LeavesAlone : String → Surroundings → Type 0
LeavesAlone id s =
    (c : NatsCommand) (m : RequestManager)
    → (get_tx (s.submit c m).1 id ≡ get_tx m id)
      × (get_pending (s.submit c m).1 id ≡ get_pending m id)

-- The manager at the call of the NATS client.
abbrev pub published : Transaction → RequestManager → RequestManager
published tx m =
    put_tx (put_tx m tx.rpc_id (record tx { state = preparing_dispatch })) tx.rpc_id
      (record tx { state = pending_publish })

module _ (json : Json) (now : ℕ) (s : Surroundings) (tx : Transaction) (c : Command) where
  after_dispatch-ends :
      (cur : Transaction) (r : Option DispatchError × RequestManager)
      → IsQuiet tx.rpc_id cur r.1
      → cur.state ≡ pending_publish
      → get_tx (after_dispatch json now tx r) tx.rpc_id
        ≡ (if is_some r.0 then none else some (with_response_timer now cur))
  unfolding after_dispatch validate_transition
  after_dispatch-ends cur (none, m) q e = mark_in_flight-starts now tx.rpc_id cur m q (rw e refl)
  after_dispatch-ends cur (some x, m) q e =
      fail_transaction_with_code-removes json now tx cur _ _ m q (rw e refl)

  dispatch-ends :
      (cur : Transaction) (m : RequestManager)
      → LeavesAlone tx.rpc_id s
      → IsQuiet tx.rpc_id cur m
      → cur.state ≡ pending_publish
      → get_tx (dispatch json now s tx c m) tx.rpc_id ≡ (
          if s.has_client && not (is_some (s.submit (nats_command s tx c) m).0)
          then some (with_response_timer now cur)
          else none)
  unfolding dispatch validate_transition
  dispatch-ends cur m alone (g, p, h) e = ground (
    arith,
    fail_transaction_with_code-removes json now tx cur service_unavailable
        "Local NATS service is unavailable" m (g, p, h) (rw e refl),
    after_dispatch-ends cur (s.submit (nats_command s tx c) m)
        ((alone (nats_command s tx c) m).0 ∙ g, (alone (nats_command s tx c) m).1 ∙ p, h) e,
  )

  marked-twice :
      (m : RequestManager)
      → IsQuiet tx.rpc_id tx m
      → tx.state ≡ created
      → start json now s tx c (mark_preparing_dispatch tx.rpc_id m)
        ≡ dispatch json now s tx c (published tx m)
  unfolding start prepare mark_preparing_dispatch mark_pending_publish validate_transition
  marked-twice m (g, p, h) e =
      rw
        (
          mark-moves preparing_dispatch tx.rpc_id tx m (g, p, h) (rw e refl),
          mark-moves pending_publish tx.rpc_id (record tx { state = preparing_dispatch })
              (put_tx m tx.rpc_id (record tx { state = preparing_dispatch }))
              (put_tx-IsQuiet tx.rpc_id tx (record tx { state = preparing_dispatch }) m (g, p, h) h)
              refl,
        )
        refl

  published-IsQuiet :
      (m : RequestManager)
      → IsQuiet tx.rpc_id tx m
      → IsQuiet tx.rpc_id (record tx { state = pending_publish }) (published tx m)
  published-IsQuiet m (g, p, h) =
      put_tx-IsQuiet tx.rpc_id (record tx { state = preparing_dispatch })
        (record tx { state = pending_publish })
        (put_tx m tx.rpc_id (record tx { state = preparing_dispatch }))
        (put_tx-IsQuiet tx.rpc_id tx (record tx { state = preparing_dispatch }) m (g, p, h) h) h

  -- A new transaction that nothing else touches is decided when `executeTransaction` returns: it is
  -- in flight, with its response timer started, exactly if the dispatch buffer has room, the client
  -- is initialized and the dispatch succeeds, and otherwise it has left the map.
  pub execute_transaction-decides :
      (m : RequestManager)
      → LeavesAlone tx.rpc_id s
      → IsQuiet tx.rpc_id tx m
      → tx.state ≡ created
      → get_tx (execute_transaction json now s tx c m) tx.rpc_id ≡ (
          if s.has_room
            && (s.has_client && not (is_some (s.submit (nats_command s tx c) (published tx m)).0))
          then some (with_response_timer now (record tx { state = pending_publish }))
          else none)
  unfolding execute_transaction validate_transition
  execute_transaction-decides m alone q e = ground (
    arith,
    fail_transaction_with_code-removes json now tx tx service_unavailable
        "Local NATS service is unavailable" m q (rw e refl),
    marked-twice m q e,
    dispatch-ends (record tx { state = pending_publish }) (published tx m) alone
        (published-IsQuiet m q) refl,
  )
