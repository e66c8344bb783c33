-- ===== src/Reqmgr/Transaction/Steps.antt =====
-- The transition table of pkg/reqmgr/transaction.go as a relation, and what it implies of a life.
use tip_olg_ucentral_client.Prelude.{
  ℕ, zero, suc, ◌+◌, ◌≤◌, ◌<◌, ◌≡◌, refl, ap, ◌≢◌, ◌↔◌, true, none, some, arith,
}
use tip_olg_ucentral_client.Reqmgr.Transaction.{
  TransactionState, created, preparing_dispatch, pending_publish, in_flight, completed, failed,
  timed_out, already_terminal, validate_transition, is_terminal,
}

-- The rows of the table of allowed next states above `TransactionState` in transaction.go. The table of
-- SPEC.md lacks `fast_reply`.
infix 4 ◌⟶◌
pub data ◌⟶◌ : TransactionState → TransactionState → Type 0 where
  prepare : created ⟶ preparing_dispatch
  reject_created : created ⟶ failed
  queue : preparing_dispatch ⟶ pending_publish
  reject_preparing : preparing_dispatch ⟶ failed
  publish : pending_publish ⟶ in_flight
  reject_pending : pending_publish ⟶ failed
  fast_reply : pending_publish ⟶ completed
  reply : in_flight ⟶ completed
  reject_in_flight : in_flight ⟶ failed
  expire : in_flight ⟶ timed_out

allowed-step : (a b : TransactionState) → validate_transition a b ≡ none → a ⟶ b
unfolding validate_transition
allowed-step created preparing_dispatch e = prepare
allowed-step created failed e = reject_created
allowed-step preparing_dispatch pending_publish e = queue
allowed-step preparing_dispatch failed e = reject_preparing
allowed-step pending_publish in_flight e = publish
allowed-step pending_publish failed e = reject_pending
allowed-step pending_publish completed e = fast_reply
allowed-step in_flight completed e = reply
allowed-step in_flight failed e = reject_in_flight
allowed-step in_flight timed_out e = expire
allowed-step _ _ e = cc

step-allowed : {a b : TransactionState} → a ⟶ b → validate_transition a b ≡ none
unfolding validate_transition
step-allowed prepare = refl
step-allowed reject_created = refl
step-allowed queue = refl
step-allowed reject_preparing = refl
step-allowed publish = refl
step-allowed reject_pending = refl
step-allowed fast_reply = refl
step-allowed reply = refl
step-allowed reject_in_flight = refl
step-allowed expire = refl

refused-terminal :
    (a b : TransactionState)
    → (validate_transition a b ≡ some already_terminal) ↔ (is_terminal a ≡ true)
unfolding validate_transition
refused-terminal a b = ground arith

-- `validateTransition` accepts exactly the rows of the table in the comment of transaction.go, that is,
-- the rows of the table of SPEC.md and the transition from `TxPendingPublish` to `TxCompleted`, and it
-- refuses with `ErrAlreadyTerminal` exactly from a terminal state.
pub validate_transition-table :
    (a b : TransactionState)
    → ((validate_transition a b ≡ none) ↔ (a ⟶ b))
      × ((validate_transition a b ≡ some already_terminal) ↔ (is_terminal a ≡ true))
validate_transition-table a b = ((allowed-step a b, step-allowed), refused-terminal a b)

-- How far a state is from the beginning of a life.
abbrev pub rank : TransactionState → ℕ
rank created = 0
rank preparing_dispatch = 1
rank pending_publish = 2
rank in_flight = 3
rank _ = 4

rank-lt : {a b : TransactionState} → a ⟶ b → rank a < rank b
rank-lt prepare = omega arith
rank-lt reject_created = omega arith
rank-lt queue = omega arith
rank-lt reject_preparing = omega arith
rank-lt publish = omega arith
rank-lt reject_pending = omega arith
rank-lt fast_reply = omega arith
rank-lt reply = omega arith
rank-lt reject_in_flight = omega arith
rank-lt expire = omega arith

-- A life of `n` accepted transitions.
pub data Life (a : TransactionState) : ℕ → TransactionState → Type 0 where
  start : Life a zero a
  then :
      {n : ℕ} {b c : TransactionState}
      → Life a n b
      → validate_transition b c ≡ none
      → Life a (suc n) c

Life-rank : {a b : TransactionState} {n : ℕ} → Life a n b → rank a + n ≤ rank b
Life-rank start = omega arith
Life-rank (then {b = b} {c = c} l e) = omega (arith, Life-rank l, rank-lt (allowed-step b c e))

rank-le-four : (a : TransactionState) → rank a ≤ 4
rank-le-four a = ground arith

-- No sequence of accepted transitions is longer than four, and none returns to a state it has left.
pub Life-le-four : {a b : TransactionState} {n : ℕ} → Life a (suc n) b → (suc n ≤ 4) × (a ≢ b)
Life-le-four {a} {b} {n} l =
    (omega (arith, Life-rank l, rank-le-four b), λ e. omega (arith, Life-rank l, ap rank e))
