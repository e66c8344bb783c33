-- ===== src/Reqmgr/Manager/Invariant/Creation.antt =====
-- `CreateTransaction` of pkg/reqmgr/manager.go keeps the manager consistent, given a fresh UUID.
use tip_olg_ucentral_client.Prelude.{Checked, pass, fault, subst}
use tip_olg_ucentral_client.Prelude.{
  ℕ, suc, ◌≤◌, String, Bool, true, false, not, ◌&&◌, ◌||◌, Option, none, some, List, length,
  length-insert, lookup, insert, lookup-insert, str_eq, eq_iff, eq_refl, len, ltb, leb,
  if◌then◌else◌, is_some, ◌≡◌, refl, arith, Bool-cases, Option-cases, inl, inr,
}
use tip_olg_ucentral_client.Contracts.Json.{Json}
use tip_olg_ucentral_client.Queues.Scheduler.{PriorityScheduler}
use tip_olg_ucentral_client.Reqmgr.Cache.{CacheTtlConfig, TransactionCache}
use tip_olg_ucentral_client.Reqmgr.Cache
use tip_olg_ucentral_client.Reqmgr.Transaction.{Transaction, is_terminal, state_lock_busy}
use tip_olg_ucentral_client.Reqmgr.Manager.{
  PendingReply, lock_owned_by_rpc, RequestManager, get_tx, initial_manager, ConstructorError,
  new_request_manager,
}
use tip_olg_ucentral_client.Reqmgr.Manager.Request.{
  Result, ok, err, is_notification, canonical_request_key, NewRequest, new_transaction, take_lock,
  register, lock_and_register, admit, with_key, create_transaction,
}
use tip_olg_ucentral_client.Reqmgr.Manager.Invariant.{
  LockAgrees, MapsAgree, IsLockOk, AreMapsOk, IsConsistent,
}
use tip_olg_ucentral_client.Reqmgr.Manager.Invariant.Lock.{insert-LockAgrees}

-- The requests with a new transaction.
abbrev entered : String → Transaction → List (String × String) → List (String × String)
entered id tx requests =
    if str_eq tx.request_key "" then requests else insert tx.request_key id requests

lookup-entered :
    (id : String) (tx : Transaction) (requests : List (String × String)) (key : String)
    → str_eq key "" ≡ false
    → lookup key (entered id tx requests)
      ≡ (if str_eq tx.request_key key then some id else lookup key requests)
lookup-entered id tx requests key s = ground (
  arith,
  lookup-insert tx.request_key key id requests,
  eq_iff tx.request_key "",
  eq_iff tx.request_key key,
)

keyless_enter :
    (id : String) (tx : Transaction) (requests : List (String × String)) (key j : String)
    → lookup "" requests ≡ none
    → str_eq key "" ≡ true
    → lookup key (entered id tx requests) ≡ some j
    → ⊥
keyless_enter id tx requests key j k b f = ground (
  arith,
  lookup-insert tx.request_key key id requests,
  eq_iff key "",
  eq_iff tx.request_key key,
  eq_iff tx.request_key "",
)

module _ {txs : List (String × Transaction)} {requests : List (String × String)}
    {replies : List (String × PendingReply)} {max : ℕ} where
  request_alive_enter :
      (id : String) (tx : Transaction)
      → str_eq id "" ≡ false
      → lookup id txs ≡ none
      → lookup tx.request_key requests ≡ none
      → MapsAgree txs requests replies max
      → (key j : String) → lookup key (entered id tx requests) ≡ some j
      → (t : Transaction) × (lookup j (insert id tx txs) ≡ some t) × (t.request_key ≡ key)
  request_alive_enter id tx s fresh new h key j f = elim (Bool-cases (str_eq key "")) [
    | inl b ↦ absurd (keyless_enter id tx requests key j h.keyless b f)
    | inr b ↦ elim (Bool-cases (str_eq tx.request_key key)) [
      | inl c ↦ (
        tx,
        ground (arith, lookup-insert id j tx txs, lookup-entered id tx requests key b, eq_iff id j),
        ground (arith, eq_iff tx.request_key key),
      )
      | inr c ↦
          let (t, found, same) =
            h.request_alive key j (ground (arith, lookup-entered id tx requests key b)) in
          (t, ground (arith, lookup-insert id j tx txs, eq_iff id j), same)
    ]
  ]

  request_active_enter :
      (id : String) (tx : Transaction)
      → str_eq id "" ≡ false
      → lookup id txs ≡ none
      → lookup tx.request_key requests ≡ none
      → MapsAgree txs requests replies max
      → (j : String) (t : Transaction) → lookup j (insert id tx txs) ≡ some t
      → str_eq t.request_key "" ≡ false
      → lookup t.request_key (entered id tx requests) ≡ some j
  request_active_enter id tx s fresh new h j t f g = ground (
    arith,
    lookup-insert id j tx txs,
    lookup-entered id tx requests t.request_key g,
    h.request_active j t,
    eq_iff id j,
    eq_iff tx.request_key t.request_key,
  )

-- A live transaction of a new name enters the maps, under its key if it has one.
enter-MapsAgree :
    {txs : List (String × Transaction)} {requests : List (String × String)}
    {replies : List (String × PendingReply)} {max : ℕ} (id : String) (tx : Transaction)
    → str_eq id "" ≡ false
    → lookup id txs ≡ none
    → lookup tx.request_key requests ≡ none
    → suc (length txs) ≤ max
    → is_terminal tx.state ≡ false
    → MapsAgree txs requests replies max
    → MapsAgree
        (insert id tx txs)
        (if str_eq tx.request_key "" then requests else insert tx.request_key id requests)
        replies
        max
enter-MapsAgree {txs} {requests} id tx s fresh new room t h = record {
  bounded = ground (arith, length-insert id tx txs);
  unnamed = ground (arith, lookup-insert id "" tx txs, h.unnamed);
  live = λ j u f. ground (arith, lookup-insert id j tx txs, h.live j u);
  replied = λ j f. ground (arith, lookup-insert id j tx txs, h.replied j);
  keyless = ground (arith, lookup-insert tx.request_key "" id requests, h.keyless);
  request_alive = request_alive_enter id tx s fresh new h;
  request_active = request_active_enter id tx s fresh new h;
}

-- A notification has the empty key.
abbrev pub KeyFits : NewRequest → String → Type 0
KeyFits r key = is_notification r.cloud_rpc_id ≡ true → str_eq key "" ≡ true

entered-eq :
    (rpc_id key : String) (r : NewRequest) (requests : List (String × String))
    → KeyFits r key
    → (if not (is_notification r.cloud_rpc_id) && not (str_eq key "")
        then insert key rpc_id requests
        else requests)
      ≡ (if str_eq key "" then requests else insert key rpc_id requests)
entered-eq rpc_id key r requests f = elim (Bool-cases (is_notification r.cloud_rpc_id)) [
  | inl b ↦ rw (b, f b)
  | inr b ↦ ground arith
]

-- The maps behind `register`.
registered-AreMapsOk :
    (now : ℕ) (rpc_id key : String) (r : NewRequest) (m : RequestManager)
    → str_eq rpc_id "" ≡ false
    → get_tx m rpc_id ≡ none
    → lookup key m.active_cloud_requests ≡ none
    → suc (length m.transactions) ≤ m.max_concurrent_requests
    → KeyFits r key
    → AreMapsOk m
    → AreMapsOk (register now rpc_id key r m).0
unfolding new_transaction
registered-AreMapsOk now rpc_id key r m s fresh new room f h =
    rw (entered-eq rpc_id key r m.active_cloud_requests f)
      (enter-MapsAgree rpc_id (new_transaction now rpc_id key r m) s fresh new room refl h)

-- The lock of a request that is about to be registered.
taken-IsLockOk :
    (rpc_id : String) (tx : Transaction) (m : RequestManager)
    → str_eq rpc_id "" ≡ false
    → IsLockOk m
    → LockAgrees true rpc_id lock_owned_by_rpc m.fault (insert rpc_id tx m.transactions)
taken-IsLockOk rpc_id tx m s h = record {
  held = refl;
  named = s;
  no_fault = h.no_fault;
  owner_alive = λ o. ground (arith, lookup-insert rpc_id rpc_id tx m.transactions, eq_refl rpc_id);
}

if-IsConsistent :
    (b : Bool) (x y : RequestManager × Result Transaction)
    → IsConsistent x.0
    → (b ≡ false → IsConsistent y.0)
    → IsConsistent (if b then x else y).0
if-IsConsistent true x y h k = h
if-IsConsistent false x y h k = k refl

lock_and_register-IsConsistent :
    (now : ℕ) (rpc_id key : String) (r : NewRequest) (m : RequestManager)
    → str_eq rpc_id "" ≡ false
    → AreMapsOk (register now rpc_id key r m).0
    → IsConsistent m
    → IsConsistent (lock_and_register now rpc_id key r m).0
unfolding lock_and_register new_transaction
lock_and_register-IsConsistent now rpc_id key r m s maps h =
    if-IsConsistent m.state_lock (m, err state_lock_busy)
      (register now rpc_id key r (take_lock rpc_id m)) h
      (λ _. record { lock_ok = taken-IsLockOk rpc_id _ m s h.lock_ok; maps_ok = maps })

-- `m` accepts `rpc_id` as a new name.
abbrev pub IsFresh : RequestManager → String → Type 0
IsFresh m rpc_id = (str_eq rpc_id "" ≡ false) × (get_tx m rpc_id ≡ none)

pub admit-IsConsistent :
    (now : ℕ) (rpc_id key : String) (r : NewRequest) (m : RequestManager)
    → IsFresh m rpc_id
    → KeyFits r key
    → IsConsistent m
    → IsConsistent (admit now rpc_id key r m).0
unfolding admit
admit-IsConsistent now rpc_id key r m fresh f h = elim (Option-cases (Cache.get now key m.cache)) [
  | inr (payload, a) ↦ rw (a, admit) h
  | inl a ↦
      rw (a, admit)
        (if-IsConsistent (is_some (lookup key m.active_cloud_requests)) _ _ h λ b.
          if-IsConsistent (leb m.max_concurrent_requests (length m.transactions)) _ _ h λ c.
            let maps =
              registered-AreMapsOk now rpc_id key r m fresh.0 fresh.1 (ground arith) (ground arith)
                f h.maps_ok in
            if-IsConsistent r.is_state_changing _ _
              (if-IsConsistent (not r.respond_to_cloud || is_notification r.cloud_rpc_id) _ _ h
                λ _. lock_and_register-IsConsistent now rpc_id key r m fresh.0 maps h)
              λ _. record { lock_ok = insert-LockAgrees rpc_id _ h.lock_ok; maps_ok = maps })
]

notification-KeyFits :
    (json : Json) (r : NewRequest) (key : String)
    → canonical_request_key json r.session_id r.cloud_rpc_id ≡ ok key
    → KeyFits r key
unfolding canonical_request_key
notification-KeyFits json r key e n = elim (Bool-cases (ltb 256 (len r.cloud_rpc_id))) [
  | inl c ↦ let f = rw (c, canonical_request_key) at e in cc
  | inr c ↦ let f = rw (c, n, canonical_request_key) at e in ground (arith, eq_iff key "")
]

pub create_transaction-IsConsistent :
    (json : Json) (now : ℕ) (rpc_id : String) (r : NewRequest) (m : RequestManager)
    → IsFresh m rpc_id
    → IsConsistent m
    → IsConsistent (create_transaction json now rpc_id r m).0
unfolding create_transaction
create_transaction-IsConsistent json now rpc_id r m fresh h =
    if-IsConsistent (is_notification r.cloud_rpc_id && r.respond_to_cloud) _ _ h (λ _.
      if-IsConsistent (str_eq r.method "upgrade" && not r.is_state_changing) _ _ h
        λ _. (go (canonical_request_key json r.session_id r.cloud_rpc_id) refl))
  where
    go :
        (k : Result String)
        → canonical_request_key json r.session_id r.cloud_rpc_id ≡ k
        → IsConsistent (with_key now rpc_id r m k).0
    go (err e) q = h
    go (ok key) q =
        admit-IsConsistent now rpc_id key r m fresh (notification-KeyFits json r key q) h

-- A new manager is consistent.
pub initial_manager-IsConsistent :
    (dispatch : ℕ) (config : CacheTtlConfig) (cache : TransactionCache)
    (scheduler : Option PriorityScheduler) (max ttl limit : ℕ) (boot_id : String)
    → IsConsistent (initial_manager dispatch config cache scheduler max ttl limit boot_id)
unfolding initial_manager lookup
initial_manager-IsConsistent dispatch config cache scheduler max ttl limit boot_id = record {
  lock_ok = record { held = refl; named = eq_refl ""; no_fault = refl; owner_alive = λ o. cc };
  maps_ok = record {
    bounded = omega arith;
    unnamed = refl;
    live = λ id tx e. cc;
    replied = λ id e. cc;
    keyless = refl;
    request_alive = λ key id e. cc;
    request_active = λ id tx e f. cc;
  };
}

-- `NewRequestManager` yields a consistent manager if it has a cache and a store, and fails otherwise.
new_request_manager-IsConsistent :
    (dispatch : ℕ) (config : CacheTtlConfig) (cache : Option TransactionCache)
    (scheduler : Option PriorityScheduler) (has_store : Bool) (max ttl limit : ℕ) (boot_id : String)
    (m : RequestManager)
    → new_request_manager dispatch config cache scheduler has_store max ttl limit boot_id ≡ pass m
    → (is_some cache ≡ true) × (has_store ≡ true) × IsConsistent m
unfolding new_request_manager
new_request_manager-IsConsistent dispatch config none scheduler has_store max ttl limit boot_id m
      h =
    cc
new_request_manager-IsConsistent dispatch config (some cache) scheduler false max ttl limit boot_id
      m h =
    cc
new_request_manager-IsConsistent dispatch config (some cache) scheduler true max ttl limit boot_id m
      h =
    (
      refl,
      refl,
      subst
          (λ (c : Checked ConstructorError RequestManager). elim c [
            | pass n ↦ IsConsistent n
            | fault e ↦ Unit
          ])
          h (initial_manager-IsConsistent dispatch config cache scheduler max ttl limit boot_id),
    )
