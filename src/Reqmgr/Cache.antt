-- ===== src/Reqmgr/Cache.antt =====
-- pkg/reqmgr/cache.go: the cache of completed responses. Instants and durations are nanoseconds; a
-- duration that is not positive is taken as 0, which every test of the file treats alike.
pub mod Laws
mod Tests
use tip_olg_ucentral_client.Prelude.{
  ℕ, ◌+◌, ◌*◌, String, Bool, true, false, ◌&&◌, Option, none, some, List, [], ◌∷◌, Bytes, lookup,
  insert, ltb, leb, if◌then◌else◌,
}

pub record CacheTtlConfig : Type 0 where
  pub default_ttl : ℕ
  pub method_ttls : List (String × ℕ)

abbrev pub minute : ℕ
minute = 60000000000

-- The part of `TTLForMethod` behind the lookup of the method.
abbrev pub default_or_five_minutes : CacheTtlConfig → ℕ
default_or_five_minutes c = if ltb 0 c.default_ttl then c.default_ttl else 5 * minute

unfoldable pub ttl_for_method : CacheTtlConfig → String → ℕ
ttl_for_method c method = elim (lookup method c.method_ttls) [
  | none ↦ default_or_five_minutes c
  | some ttl ↦ if ltb 0 ttl then ttl else default_or_five_minutes c
]

pub record CacheEntry : Type 0 where
  pub payload : Bytes
  pub expires_at : ℕ

abbrev pub TransactionCache : Type 0
TransactionCache = List (String × CacheEntry)

unfoldable pub set : ℕ → String → Bytes → ℕ → TransactionCache → TransactionCache
set now id payload ttl items =
    insert id (record { payload = payload; expires_at = now + ttl }) items

-- `Get` behind the lookup.
abbrev pub unexpired : ℕ → Option CacheEntry → Option Bytes
unexpired now none = none
unexpired now (some entry) = if leb entry.expires_at now then none else some entry.payload

unfoldable pub get : ℕ → String → TransactionCache → Option Bytes
get now id items = unexpired now (lookup id items)

-- The loop of `sweepCache` over the map.
unfoldable pub sweep : ℕ → TransactionCache → TransactionCache
sweep now [] = []
sweep now ((key, entry) ∷ items) =
    let rest = sweep now items in if leb entry.expires_at now then rest else (key, entry) ∷ rest
