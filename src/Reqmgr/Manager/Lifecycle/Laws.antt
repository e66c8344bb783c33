-- ===== src/Reqmgr/Manager/Lifecycle/Laws.antt =====
-- Replies and time in pkg/reqmgr/manager.go: a fast reply is kept until the request is in flight,
-- and it wins over a failure or a timeout that comes later.
use tip_olg_ucentral_client.Prelude.{
  ℕ, String, true, false, Option, none, some, Bytes, ap, lookup-insert, eq_refl, if_of_false, ◌≡◌,
  refl, ◌∙◌, arith,
}
use tip_olg_ucentral_client.Contracts.Json.{Json}
use tip_olg_ucentral_client.Reqmgr.Transaction.{
  Error, already_terminal, TransactionState, pending_publish, in_flight, completed, failed,
  timed_out, validate_transition, is_pre_flight, Transaction,
}
use tip_olg_ucentral_client.Reqmgr.Manager.{
  PendingReply, RequestManager, get_tx, put_tx, get_pending, drop_pending, add_pending,
  terminal_transition, build_timeout_response, Outcome, finalize, end_transaction,
}
use tip_olg_ucentral_client.Reqmgr.Manager.Ending.{Answered, finalize-Answered}
use tip_olg_ucentral_client.Reqmgr.Manager.Lifecycle.{
  mark_in_flight, buffer_reply, complete, abort_now, abort, fail, timeout,
}

-- The manager in which the reply to `id` is buffered.
abbrev pub with_reply : String → Bytes → RequestManager → RequestManager
with_reply id response m = add_pending m id (record { payload = response; state = completed })

-- A reply to a request that is being dispatched is buffered, and nothing else changes.
complete_early :
    (now : ℕ) (id : String) (response : Bytes) (m : RequestManager) (tx : Transaction)
    → get_tx m id ≡ some tx
    → is_pre_flight tx.state ≡ true
    → get_pending m id ≡ none
    → complete now id response m ≡ (with_reply id response m, none)
unfolding complete buffer_reply
complete_early now id response m tx e s p = rw (e, s, complete) (rw (p, buffer_reply))

-- The manager in which the buffered reply of `id` is taken and the request is in flight.
abbrev pub promoted : String → Transaction → RequestManager → RequestManager
promoted id tx m = drop_pending (put_tx m id (record tx { state = in_flight })) id

module _ (later : ℕ) (id : String) (n : RequestManager) (tx : Transaction) (reply : PendingReply)
    (e : get_tx n id ≡ some tx) (p : get_pending n id ≡ some reply)
    (v : validate_transition tx.state in_flight ≡ none) where
  mark_in_flight-flushes :
      mark_in_flight later id n
      ≡ terminal_transition later id reply.state reply.payload (promoted id tx n)
  unfolding mark_in_flight
  mark_in_flight-flushes = rw (e, v, p, mark_in_flight)

  abort_now-flushes :
      (final : TransactionState) (payload : Bytes)
      → abort_now later id final payload tx n ≡ (
        (terminal_transition later id reply.state reply.payload (promoted id tx n)).0,
        some already_terminal,
      )
  unfolding abort_now
  abort_now-flushes final payload = rw (p, v, abort_now)

  abort-flushes :
      (final : TransactionState) (payload : Bytes)
      → tx.handoff_in_progress ≡ false
      → abort later id final payload tx n ≡ (
        (terminal_transition later id reply.state reply.payload (promoted id tx n)).0,
        some already_terminal,
      )
  unfolding abort
  abort-flushes final payload f =
      if_of_false tx.handoff_in_progress _ _ f ∙ abort_now-flushes final payload

pending_publish-in_flight : validate_transition pending_publish in_flight ≡ none
unfolding validate_transition
pending_publish-in_flight = refl

fail-found :
    (now : ℕ) (id : String) (failure : Bytes) (m : RequestManager) (tx : Transaction)
    → get_tx m id ≡ some tx
    → fail now id failure m ≡ abort now id failed failure tx m
unfolding fail
fail-found now id failure m tx e = rw (e, fail)

timeout-found :
    (json : Json) (now : ℕ) (id : String) (m : RequestManager) (tx : Transaction)
    → get_tx m id ≡ some tx
    → timeout json now id m ≡ abort now id timed_out (build_timeout_response json tx) tx m
unfolding timeout
timeout-found json now id m tx e = rw (e, timeout)

-- The buffered reply ends the promoted transaction.
promoted-ends :
    (later : ℕ) (id : String) (response : Bytes) (m : RequestManager) (tx : Transaction)
    → terminal_transition later id completed response (promoted id tx m) ≡ (
      finalize later id (record tx { state = in_flight }) completed response (promoted id tx m),
      none,
    )
unfolding terminal_transition end_transaction validate_transition
promoted-ends later id response m tx =
    ground (arith, lookup-insert id id (record tx { state = in_flight }) m.transactions, eq_refl id)

-- What the call has returned, and that it has answered the request.
abbrev pub AnsweredWith :
    Option Error → ℕ → String → Transaction → Bytes → RequestManager → Outcome → Type 0
AnsweredWith e later id tx response m (n, out) = (out ≡ e) × Answered later id tx response m n

promoted-Answered :
    (later : ℕ) (id : String) (response reply : Bytes) (m : RequestManager) (tx : Transaction)
    → Answered later id tx response m
        (terminal_transition later id completed response (promoted id tx (with_reply id reply m))).0
promoted-Answered later id response reply m tx =
    let n = with_reply id reply m in
    let a =
      finalize-Answered later id (record tx { state = in_flight }) response (promoted id tx n) in
    rw (promoted-ends later id response n tx) (record {
      gone = a.gone;
      reply_gone = a.reply_gone;
      delivered = a.delivered;
      cached = a.cached;
    })

-- A reply that comes while the request waits to be published is not lost: `MarkInFlight` then
-- succeeds and answers the request with exactly that reply, and a `Fail` or a `Timeout` that comes
-- first also answers it with that reply, and reports that the request had ended. Answered means that
-- the request has left the map, and that the reply is handed to the scheduler and cached as the end of
-- a completed request does.
pub fast_reply-wins :
    (json : Json) (now later : ℕ) (id : String) (response failure : Bytes) (m : RequestManager)
    (tx : Transaction)
    → get_tx m id ≡ some tx
    → tx.state ≡ pending_publish
    → tx.handoff_in_progress ≡ false
    → get_pending m id ≡ none
    → let n = (complete now id response m).0 in
      AnsweredWith none later id tx response m (mark_in_flight later id n)
      × AnsweredWith (some already_terminal) later id tx response m (fail later id failure n)
      × AnsweredWith (some already_terminal) later id tx response m (timeout json later id n)
fast_reply-wins json now later id response failure m tx e s f p =
    rw
      (
        complete_early now id response m tx e (rw s refl) p,
        mark_in_flight-flushes later id n tx reply e q v,
        fail-found later id failure n tx e,
        timeout-found json later id n tx e,
        abort-flushes later id n tx reply e q v failed failure f,
        abort-flushes later id n tx reply e q v timed_out (build_timeout_response json tx) f,
      )
      (
        (ap (λ (r : Outcome). r.1) (promoted-ends later id response n tx), answered),
        (refl, answered),
        (refl, answered),
      )
  where
    reply : PendingReply
    reply = record { payload = response; state = completed }

    n : RequestManager
    n = with_reply id response m

    q : get_pending n id ≡ some reply
    q = ground (arith, lookup-insert id id reply m.pending_replies, eq_refl id)

    v : validate_transition tx.state in_flight ≡ none
    v = rw s pending_publish-in_flight

    answered :
        Answered later id tx response m
          (terminal_transition later id completed response (promoted id tx n)).0
    answered = promoted-Answered later id response response m tx
