-- ===== src/Reqmgr/Manager/Operations/Settled.antt =====
-- What the end of a request, and `RespondAndRetain` of pkg/reqmgr/manager.go, leave of a transaction
-- that awaits its result.
use tip_olg_ucentral_client.Prelude.{
  either, ℕ, String, true, false, not, Option, none, some, Bytes, lookup-insert, lookup-remove,
  str_eq, eq_refl, leb, if_of_true, ◌≡◌, refl, ap, ◌∙◌, ◌⊎◌, inl, inr, arith, Option-cases,
}
use tip_olg_ucentral_client.Contracts.Json.{Json}
use tip_olg_ucentral_client.Reqmgr.Transaction.{
  Error, not_upgrade, invalid_state_transition, not_lock_owner, TransactionState, in_flight,
  running, completed, failed, timed_out, validate_transition, is_terminal, Transaction,
}
use tip_olg_ucentral_client.Reqmgr.Manager.{
  lock_transfer_pending, RequestManager, Outcome, get_tx, get_pending, put_tx, end_transaction,
  terminal_transition, build_timeout_response,
}
use tip_olg_ucentral_client.Reqmgr.Manager.Invariant.Finalize.{finalize-Ended}
use tip_olg_ucentral_client.Reqmgr.Manager.Lifecycle.{complete, fail, abort, abort_now}
use tip_olg_ucentral_client.Reqmgr.Manager.Operations.{
  is_handoff, is_retainable, Begun, refused, begun, handing_off, retain_begin, update_tx,
  handoff_undone, retain_failed, returned, lock_transferred, retain_saved, respond_and_retain,
}
use tip_olg_ucentral_client.Reqmgr.Manager.Operations.Laws.{undone-found}

-- The transaction `id` waits for its result, and no reply is buffered for it.
pub record Awaits (id : String) (m : RequestManager) : Type 0 where
  pub tx : Transaction
  pub there : get_tx m id ≡ some tx
  pub flying : tx.state ≡ in_flight
  pub calm : tx.handoff_in_progress ≡ false
  pub unanswered : get_pending m id ≡ none

abbrev pub IsGone : String → RequestManager → Type 0
IsGone id m = get_tx m id ≡ none

terminal-IsGone :
    (now : ℕ) (id : String) (final : TransactionState) (payload : Bytes) (m : RequestManager)
    (tx : Transaction)
    → get_tx m id ≡ some tx
    → tx.state ≡ in_flight
    → is_terminal final ≡ true
    → validate_transition in_flight final ≡ none
    → IsGone id (terminal_transition now id final payload m).0
unfolding terminal_transition end_transaction
terminal-IsGone now id final payload m tx e s t v =
    let ended = finalize-Ended now id tx final payload m in
    let w : validate_transition tx.state final ≡ none = rw (s) v in
    rw (t, e, w, terminal_transition, end_transaction)
      (ground (arith, ended.transactions, lookup-remove id id m.transactions, eq_refl id))

pub fail-IsGone :
    (now : ℕ) (id : String) (response : Bytes) (m : RequestManager)
    → Awaits id m ⊎ IsGone id m
    → IsGone id (fail now id response m).0
unfolding fail abort abort_now validate_transition
fail-IsGone now id response m (inl a) =
    rw (a.there, a.calm, a.unanswered, fail, abort, abort_now)
      (terminal-IsGone now id failed response m a.tx a.there a.flying refl refl)
fail-IsGone now id response m (inr g) = rw (g, fail) g

pub complete-IsGone :
    (now : ℕ) (id : String) (response : Bytes) (m : RequestManager)
    → Awaits id m
    → IsGone id (complete now id response m).0
unfolding complete validate_transition
complete-IsGone now id response m a =
    rw (a.there, a.flying, a.calm, complete)
      (terminal-IsGone now id completed response m a.tx a.there a.flying refl refl)

-- What `RespondAndRetain` leaves of a transaction that awaited its result: nothing, or the same with an
-- error other than the one of a second handoff.
unfoldable pub Settled : String → RequestManager × String × Option Error → Type 0
Settled id (m, op, e) =
    IsGone id m ⊎ (Awaits id m × ((x : Error) × (e ≡ some x) × (is_handoff x ≡ false)))

put-found :
    (id : String) (tx : Transaction) (m : RequestManager) → get_tx (put_tx m id tx) id ≡ some tx
put-found id tx m =
    lookup-insert id id tx m.transactions ∙ if_of_true (str_eq id id) _ _ (eq_refl id)

-- The first section refuses and changes nothing, or it starts the handoff.
abbrev Begins : String → RequestManager → Transaction → RequestManager × Begun → Type 0
Begins id m tx r =
    ((x : Error) × (r ≡ (m, refused x)) × (is_handoff x ≡ false))
    ⊎ ((n : RequestManager) × (r ≡ (n, begun (handing_off tx)))
        × (get_tx n id ≡ some (handing_off tx))
        × (get_pending n id ≡ none))

retain_begin-Begins :
    (id : String) (m : RequestManager) (a : Awaits id m) → Begins id m a.tx (retain_begin id m)
unfolding retain_begin
retain_begin-Begins id m a =
    rw (a.there, retain_begin, a.calm)
      (either (Begins id m a.tx) (not (str_eq a.tx.method "upgrade")) _ _
        (inl (not_upgrade, refl, refl))
        (either (Begins id m a.tx) (not (is_retainable a.tx.state)) _ _
          (inl (invalid_state_transition, refl, refl))
          (either (Begins id m a.tx) (not (str_eq m.active_state_tx id)) _ _
            (inl (not_lock_owner, refl, refl))
            (inr (
              record (put_tx m id (handing_off a.tx)) {
                active_state_owner = lock_transfer_pending;
              },
              refl,
              put-found id (handing_off a.tx) m,
              a.unanswered,
            )))))

retain_failed-Settled :
    (json : Json) (now : ℕ) (id : String) (tx : Transaction) (m : RequestManager)
    → get_tx m id ≡ some (handing_off tx)
    → tx.state ≡ in_flight
    → get_pending m id ≡ none
    → let r = retain_failed json now id (handing_off tx) m in Settled id (r.0, "", r.1)
unfolding retain_failed Settled validate_transition
retain_failed-Settled json now id tx m e s p =
    rw (p, e, retain_failed)
      (either (λ (r : Outcome). Settled id (r.0, "", r.1)) (leb tx.response_deadline now) _ _
        (inl (
          terminal-IsGone now id timed_out (build_timeout_response json (handing_off tx)) _ _ undone
            s refl refl))
        (inr (rw (undone, update_tx) (still, (_, refl, refl)))))
  where
    undone :
        get_tx (handoff_undone id (handing_off tx) m) id
        ≡ some (record (handing_off tx) { handoff_in_progress = false })
    undone = undone-found id (handing_off tx) m e

    restored : Transaction
    restored = record (handing_off tx) {
      handoff_in_progress = false;
      response_timer = running tx.response_deadline;
    }

    still : Awaits id (put_tx (handoff_undone id (handing_off tx) m) id restored)
    still = record {
      tx = restored;
      there = put-found id restored (handoff_undone id (handing_off tx) m);
      flying = s;
      calm = refl;
      unanswered = rw (e, update_tx) p;
    }

retain_saved-IsGone :
    (now : ℕ) (id op : String) (response : Bytes) (tx : Transaction) (m : RequestManager)
    → get_tx m id ≡ some (handing_off tx)
    → tx.state ≡ in_flight
    → get_pending m id ≡ none
    → (o : String) × (x : Option Error) × ((retain_saved now id op response m).1 ≡ returned o x)
      × IsGone id (retain_saved now id op response m).0
unfolding retain_saved validate_transition
retain_saved-IsGone now id op response tx m e s p =
    rw (p, retain_saved)
      (
        _,
        _,
        refl,
        terminal-IsGone now id completed response (lock_transferred id op m) (handing_off tx)
            (either (λ n. get_tx n id ≡ some (handing_off tx)) (str_eq m.active_state_tx id) _ _ e
              e)
            s refl refl,
      )

pub respond_and_retain-Settled :
    (json : Json) (now : ℕ) (id op : String) (response : Bytes) (saved : Option Error)
    (m : RequestManager)
    → Awaits id m
    → Settled id (respond_and_retain json now id op response saved m)
unfolding respond_and_retain Settled
respond_and_retain-Settled json now id op response saved m a = elim (retain_begin-Begins id m a) [
  | inl (x, e, n) ↦
      rw (e, ap (λ (r : RequestManager × Begun). r.0) e, respond_and_retain) (inr (a, (x, refl, n)))
  | inr (n, e, there, p) ↦ elim (Option-cases saved) [
    | inr (x, f) ↦
        rw (e, f, ap (λ (r : RequestManager × Begun). r.0) e, respond_and_retain)
          (retain_failed-Settled json now id a.tx n there a.flying p)
    | inl f ↦
        let (o, x, out, gone) = retain_saved-IsGone now id op response a.tx n there a.flying p in
        let begun_from = ap (λ (r : RequestManager × Begun). r.0) e in
        rw (e, f, begun_from, out, begun_from, respond_and_retain) (inl gone)
  ]
]
