-- ===== src/Reqmgr/Manager/Replay.antt =====
-- A response of pkg/reqmgr/manager.go is replayed from the cache while other requests come and go and
-- the cache is swept.
use tip_olg_ucentral_client.Prelude.{
  ℕ, ◌+◌, ◌<◌, String, true, false, none, some, Bytes, lookup, lookup-insert, str_eq, eq_refl,
  is_some, ◌≡◌, refl, ap, ◌∙◌, arith, Bool-cases, Option-cases, inl, inr,
}
use tip_olg_ucentral_client.Reqmgr.Cache
use tip_olg_ucentral_client.Reqmgr.Cache.{CacheEntry, ttl_for_method, sweep}
use tip_olg_ucentral_client.Reqmgr.Cache.Laws.{lookup-sweep-live}
use tip_olg_ucentral_client.Reqmgr.Transaction.{
  cached_response, TransactionState, in_flight, completed, validate_transition, is_terminal,
  Transaction,
}
use tip_olg_ucentral_client.Reqmgr.Manager.{
  RequestManager, get_tx, cache_response, forget, release_if_owner, send_response, finalize,
  end_transaction, terminal_transition,
}
use tip_olg_ucentral_client.Reqmgr.Manager.Request.{err, NewRequest, admit}
use tip_olg_ucentral_client.Reqmgr.Manager.Lifecycle.{complete}
use tip_olg_ucentral_client.Reqmgr.Manager.Ending.{finalize-Answered}

pub complete_in_flight :
    (now : ℕ) (id : String) (response : Bytes) (m : RequestManager) (tx : Transaction)
    → get_tx m id ≡ some tx
    → tx.state ≡ in_flight
    → tx.handoff_in_progress ≡ false
    → complete now id response m ≡ (finalize now id tx completed response m, none)
unfolding complete terminal_transition end_transaction validate_transition
complete_in_flight now id response m tx e s f = ground arith

-- What may happen to a manager while the response to `key`, which is kept until `limit`, is cached:
-- the cache is swept before `limit`, transactions with other keys end, and anything else that leaves
-- the cache as it is.
pub data Meanwhile (key : String) (limit : ℕ) (m : RequestManager) : RequestManager → Type 0 where
  nothing : Meanwhile key limit m m
  swept :
      {n : RequestManager}
      → Meanwhile key limit m n
      → (at : ℕ) → at < limit
      → Meanwhile key limit m (record n { cache = sweep at n.cache })
  ended :
      {n : RequestManager}
      → Meanwhile key limit m n
      → (now : ℕ) (id : String) (final : TransactionState) (payload : Bytes) (tx : Transaction)
      → get_tx n id ≡ some tx
      → str_eq tx.request_key key ≡ false
      → Meanwhile key limit m (terminal_transition now id final payload n).0
  other :
      {n : RequestManager}
      → Meanwhile key limit m n
      → (k : RequestManager) → k.cache ≡ n.cache
      → Meanwhile key limit m k

cache_response-other :
    (now : ℕ) (key : String) (tx : Transaction) (final : TransactionState) (payload : Bytes)
    (m : RequestManager)
    → str_eq tx.request_key key ≡ false
    → lookup key (cache_response now tx final payload m).cache ≡ lookup key m.cache
unfolding cache_response Cache.set
cache_response-other now key tx completed payload m e = ground (
  arith,
  lookup-insert tx.request_key key
      (record { payload = payload; expires_at = now + ttl_for_method m.cache_ttl_config tx.method })
      m.cache,
)
cache_response-other now key tx _ payload m e = refl

finalize-cached :
    (now : ℕ) (id : String) (tx : Transaction) (final : TransactionState) (payload : Bytes)
    (m : RequestManager)
    → (finalize now id tx final payload m).cache ≡ (cache_response now tx final payload m).cache
unfolding finalize forget release_if_owner send_response
finalize-cached now id tx final payload m = ground arith

ended-other :
    (now : ℕ) (id key : String) (final : TransactionState) (payload : Bytes) (m : RequestManager)
    (tx : Transaction)
    → get_tx m id ≡ some tx
    → str_eq tx.request_key key ≡ false
    → lookup key (terminal_transition now id final payload m).0.cache ≡ lookup key m.cache
unfolding terminal_transition end_transaction
ended-other now id key final payload m tx e d =
    let c =
      ap (lookup key) (finalize-cached now id tx final payload m)
      ∙ cache_response-other now key tx final payload m d in
    elim (Bool-cases (is_terminal final)) [
      | inl t ↦ elim (Option-cases (validate_transition tx.state final)) [
        | inl v ↦ rw (t, e, v, terminal_transition, end_transaction) c
        | inr (x, v) ↦ rw (t, e, v, terminal_transition, end_transaction) refl
      ]
      | inr t ↦ rw (t, terminal_transition) refl
    ]

Meanwhile-keeps :
    {key : String} {limit : ℕ} {m n : RequestManager}
    → Meanwhile key limit m n
    → (entry : CacheEntry) → entry.expires_at ≡ limit
    → lookup key m.cache ≡ some entry
    → lookup key n.cache ≡ some entry
Meanwhile-keeps nothing entry l e = e
Meanwhile-keeps {key = key} (swept {n = n} w at p) entry l e =
    lookup-sweep-live at key entry n.cache (Meanwhile-keeps w entry l e) (rw l p)
Meanwhile-keeps {key = key} (ended {n = n} w now id final payload tx there d) entry l e =
    ended-other now id key final payload n tx there d ∙ Meanwhile-keeps w entry l e
Meanwhile-keeps {key = key} (other w k c) entry l e =
    ap (lookup key) c ∙ Meanwhile-keeps w entry l e

-- A request that was answered is not carried out again: if the response of a transaction in flight
-- is not nil and the cloud awaits it, then until its time in the cache is over every admission of
-- a request with the same key is answered by that response and changes nothing, however often the
-- cache is swept, requests with other keys end and the rest of the manager changes in between.
pub complete-replays :
    (now later : ℕ) (id rpc_id : String) (response : Bytes) (r : NewRequest) (m n : RequestManager)
    (tx : Transaction)
    → get_tx m id ≡ some tx
    → tx.state ≡ in_flight
    → tx.handoff_in_progress ≡ false
    → tx.respond_to_cloud ≡ true
    → is_some response ≡ true
    → later < now + ttl_for_method m.cache_ttl_config tx.method
    → Meanwhile tx.request_key
        (now + ttl_for_method m.cache_ttl_config tx.method)
        (complete now id response m).0
        n
    → admit later rpc_id tx.request_key r n ≡ (n, err (cached_response response))
unfolding admit Cache.get Cache.set
complete-replays now later id rpc_id response r m n tx e s f c p t between =
    rw (Meanwhile-keeps between entry refl cached, admit) (ground arith)
  where
    entry : CacheEntry
    entry = record {
      payload = response;
      expires_at = now + ttl_for_method m.cache_ttl_config tx.method;
    }

    cached : lookup tx.request_key (complete now id response m).0.cache ≡ some entry
    cached =
        rw
          (
            complete_in_flight now id response m tx e s f,
            (finalize-Answered now id tx response m).cached,
            c,
            p,
          )
          (ground (
            arith,
            lookup-insert tx.request_key tx.request_key entry m.cache,
            eq_refl tx.request_key,
          ))
