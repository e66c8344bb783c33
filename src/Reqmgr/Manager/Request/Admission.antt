-- ===== src/Reqmgr/Manager/Request/Admission.antt =====
-- What `CreateTransaction` of pkg/reqmgr/manager.go refuses, and what it grants.
use text.Mathlib.TextLemmas.{append_cancel_left}
use tip_olg_ucentral_client.Prelude.{
  ◌+++◌, ℕ, ◌≤◌, ◌<◌, String, true, false, not, ◌&&◌, none, some, Bytes, contents, len, length,
  lookup, lookup-insert, str_eq, eq_refl, ltb, if◌then◌else◌, if_of_false, ◌≡◌, ◌↔◌, refl, sym, ap,
  ◌∙◌, arith, Bool-cases, inl, inr,
}
use tip_olg_ucentral_client.Contracts.Json.{Json, JsonId}
use tip_olg_ucentral_client.Reqmgr.Cache
use tip_olg_ucentral_client.Reqmgr.Transaction.{Error, created, Transaction}
use tip_olg_ucentral_client.Reqmgr.Manager.{RequestManager, get_tx}
use tip_olg_ucentral_client.Reqmgr.Manager.Request.{
  Result, ok, err, number_key, key_of_id, is_notification, canonical_request_key, NewRequest,
  new_transaction, lock_and_register, admit, with_key, create_transaction,
}

key_of_number :
    (json : Json) (session : String) (a : Bytes) (v : String)
    → len a ≤ 256
    → is_notification a ≡ false
    → json.decode_id (contents a) ≡ JsonId.number v
    → canonical_request_key json session a ≡ number_key session (json.rat_string v)
unfolding canonical_request_key
key_of_number json session a v la na da =
    if_of_false (ltb 256 (len a)) _ _ (ground arith)
    ∙ if_of_false (is_notification a) _ _ na
    ∙ rw (da, key_of_id)

number_key-inj :
    (session x y : String) → number_key session (some x) ≡ number_key session (some y) → x ≡ y
unfolding number_key
number_key-inj session x y h =
    let e : session +++ (":n:" +++ x) ≡ session +++ (":n:" +++ y) = cc in
    append_cancel_left ":n:" x y (append_cancel_left session (":n:" +++ x) (":n:" +++ y) e)

-- Two identifiers that are JSON numbers have the same request key in a session if and only if the
-- numbers have the same value, however they are written; `x` and `y` are the values as reduced
-- fractions. The identifiers are not longer than 256 bytes and are no notifications.
pub canonical_request_key-number :
    (json : Json) (session : String) (a b : Bytes) (v w x y : String)
    → len a ≤ 256
    → len b ≤ 256
    → is_notification a ≡ false
    → is_notification b ≡ false
    → json.decode_id (contents a) ≡ JsonId.number v
    → json.decode_id (contents b) ≡ JsonId.number w
    → json.rat_string v ≡ some x
    → json.rat_string w ≡ some y
    → (canonical_request_key json session a ≡ canonical_request_key json session b) ↔ (x ≡ y)
canonical_request_key-number json session a b v w x y la lb na nb da db p q =
    let e = key_of_number json session a v la na da ∙ ap (number_key session) p in
    let f = key_of_number json session b w lb nb db ∙ ap (number_key session) q in
    (
      λ same. number_key-inj session x y (sym e ∙ (same ∙ f)),
      λ same. e ∙ (ap (λ z. number_key session (some z)) same ∙ sym f),
    )

-- What holds of a request with the key `key` that was accepted.
pub record Accepted (now : ℕ) (rpc_id key : String) (r : NewRequest) (m n : RequestManager)
    (tx : Transaction) : Type 0 where
  pub uncached : Cache.get now key m.cache ≡ none
  pub not_active : lookup key m.active_cloud_requests ≡ none
  pub room : length m.transactions < m.max_concurrent_requests
  pub entered : get_tx n rpc_id ≡ some tx
  pub first_state : tx.state ≡ created
  pub is_new : tx ≡ new_transaction now rpc_id key r m
  pub others : (j : String) → get_tx n j ≡ (if str_eq rpc_id j then some tx else get_tx m j)
  pub lock : n.state_lock ≡ (if r.is_state_changing then true else m.state_lock)
  pub owner : n.active_state_tx ≡ (if r.is_state_changing then rpc_id else m.active_state_tx)
  pub was_free : (if r.is_state_changing then m.state_lock else false) ≡ false

admit-Accepted :
    (now : ℕ) (rpc_id key : String) (r : NewRequest) (m n : RequestManager) (tx : Transaction)
    → admit now rpc_id key r m ≡ (n, ok tx)
    → Accepted now rpc_id key r m n tx
unfolding admit lock_and_register new_transaction
admit-Accepted now rpc_id key r m n tx h =
    let new = new_transaction now rpc_id key r m in
    record {
      uncached = ground arith;
      not_active = ground arith;
      room = ground arith;
      entered = ground (arith, lookup-insert rpc_id rpc_id new m.transactions, eq_refl rpc_id);
      first_state = ground arith;
      is_new = ground arith;
      others = λ j. ground (arith, lookup-insert rpc_id j new m.transactions);
      lock = ground arith;
      owner = ground arith;
      was_free = ground arith;
    }

admit-refused :
    (now : ℕ) (rpc_id key : String) (r : NewRequest) (m n : RequestManager) (e : Error)
    → admit now rpc_id key r m ≡ (n, err e)
    → n ≡ m
unfolding admit lock_and_register
admit-refused now rpc_id key r m n e h = ground arith

with_key-inv :
    (now : ℕ) (rpc_id : String) (r : NewRequest) (m n : RequestManager) (k : Result String)
    (tx : Transaction)
    → with_key now rpc_id r m k ≡ (n, ok tx)
    → (key : String) × (k ≡ ok key) × Accepted now rpc_id key r m n tx
with_key-inv now rpc_id r m n (err e) tx h = cc
with_key-inv now rpc_id r m n (ok key) tx h = (key, refl, admit-Accepted now rpc_id key r m n tx h)

with_key-refused :
    (now : ℕ) (rpc_id : String) (r : NewRequest) (m n : RequestManager) (k : Result String)
    (e : Error)
    → with_key now rpc_id r m k ≡ (n, err e)
    → n ≡ m
with_key-refused now rpc_id r m n (err x) e h = cc
with_key-refused now rpc_id r m n (ok key) e h = admit-refused now rpc_id key r m n e h

-- A request that `CreateTransaction` refuses, for whatever reason, leaves the manager as it was.
pub create_transaction-refused :
    (json : Json) (now : ℕ) (rpc_id : String) (r : NewRequest) (m n : RequestManager) (e : Error)
    → create_transaction json now rpc_id r m ≡ (n, err e)
    → n ≡ m
unfolding create_transaction
create_transaction-refused json now rpc_id r m n e h =
    elim (Bool-cases (is_notification r.cloud_rpc_id && r.respond_to_cloud)) [
      | inl a ↦ let f = rw (a, create_transaction) at h in cc
      | inr a ↦ elim (Bool-cases (str_eq r.method "upgrade" && not r.is_state_changing)) [
        | inl b ↦ let f = rw (a, b, create_transaction) at h in cc
        | inr b ↦ with_key-refused now rpc_id r m n _ e (rw (a, b, create_transaction) at h)
      ]
    ]

-- A request is accepted only if its response is not cached, no request with its key is active, there
-- is room, and, for one that changes the state, the state lock is free. The manager then has exactly
-- one more transaction, in the first state, and a state-changing one owns the lock.
pub create_transaction-Accepted :
    (json : Json) (now : ℕ) (rpc_id : String) (r : NewRequest) (m n : RequestManager)
    (tx : Transaction)
    → create_transaction json now rpc_id r m ≡ (n, ok tx)
    → (key : String) × (canonical_request_key json r.session_id r.cloud_rpc_id ≡ ok key)
      × Accepted now rpc_id key r m n tx
unfolding create_transaction
create_transaction-Accepted json now rpc_id r m n tx h =
    elim (Bool-cases (is_notification r.cloud_rpc_id && r.respond_to_cloud)) [
      | inl a ↦ let f = rw (a, create_transaction) at h in cc
      | inr a ↦ elim (Bool-cases (str_eq r.method "upgrade" && not r.is_state_changing)) [
        | inl b ↦ let f = rw (a, b, create_transaction) at h in cc
        | inr b ↦ with_key-inv now rpc_id r m n _ tx (rw (a, b, create_transaction) at h)
      ]
    ]
