-- ===== src/Reqmgr/Cache/Laws.antt =====
-- What the response cache of pkg/reqmgr/cache.go answers after a write and after a sweep.
use tip_olg_ucentral_client.Prelude.{
  ℕ, ◌+◌, ◌≤◌, ◌<◌, String, none, some, [], ◌∷◌, Bytes, lookup, lookup-insert, str_eq, eq_iff, leb,
  if◌then◌else◌, ◌≡◌, refl, arith,
}
use tip_olg_ucentral_client.Reqmgr.Cache.{
  CacheEntry, CacheTtlConfig, ttl_for_method, TransactionCache, set, get, sweep,
}

-- The keys of a Go map are distinct.
abbrev pub IsMap : TransactionCache → Type 0
IsMap [] = Unit
IsMap ((key, entry) ∷ items) = (lookup key items ≡ none) × IsMap items

-- A response stored at `now` for `ttl` is the answer for its key before `now + ttl` and none from
-- then on; the answers for the other keys are unchanged.
pub get-set :
    (now later ttl : ℕ) (k j : String) (payload : Bytes) (items : TransactionCache)
    → get later j (set now k payload ttl items) ≡ (
        if str_eq k j
        then (if leb (now + ttl) later then none else some payload)
        else get later j items)
unfolding get set
get-set now later ttl k j payload items =
    ground (arith, lookup-insert k j (record { payload = payload; expires_at = now + ttl }) items)

lookup-sweep-none :
    (now : ℕ) (k : String) (items : TransactionCache)
    → lookup k items ≡ none
    → lookup k (sweep now items) ≡ none
unfolding sweep lookup
lookup-sweep-none now k [] e = refl
lookup-sweep-none now k ((key, entry) ∷ items) e = ground (arith, lookup-sweep-none now k items)

-- A sweep at `now` changes no answer that the cache gives at `now` or later.
pub get-sweep :
    (now later : ℕ) (k : String) (items : TransactionCache)
    → now ≤ later
    → IsMap items
    → get later k (sweep now items) ≡ get later k items
unfolding get sweep lookup
get-sweep now later k [] h m = refl
get-sweep now later k ((key, entry) ∷ items) h m =
    ground (arith, get-sweep now later k items h m.1, lookup-sweep-none now k items, eq_iff key k)

-- A sweep leaves an entry that has not expired.
pub lookup-sweep-live :
    (now : ℕ) (k : String) (entry : CacheEntry) (items : TransactionCache)
    → lookup k items ≡ some entry
    → now < entry.expires_at
    → lookup k (sweep now items) ≡ some entry
unfolding sweep lookup
lookup-sweep-live now k entry [] e p = e
lookup-sweep-live now k entry ((key, first) ∷ items) e p =
    ground (arith, lookup-sweep-live now k entry items)

-- Sweeping keeps the keys distinct.
pub sweep-IsMap : (now : ℕ) (items : TransactionCache) → IsMap items → IsMap (sweep now items)
unfolding sweep
sweep-IsMap now [] m = tt
sweep-IsMap now ((key, entry) ∷ items) m =
    ground (arith, sweep-IsMap now items m.1, lookup-sweep-none now key items m.0)

-- Every response is cached for a positive time.
pub ttl_for_method_pos : (c : CacheTtlConfig) (method : String) → 0 < ttl_for_method c method
unfolding ttl_for_method
ttl_for_method_pos c method = ground arith
