-- ===== src/Reqmgr/Cache/Tests.antt =====
-- The theorems on the response cache of pkg/reqmgr/cache.go at concrete inputs.
use tip_olg_ucentral_client.Prelude.{refl, some, [], ◌∷◌, Bytes, lookup}
use tip_olg_ucentral_client.Reqmgr.Cache.{CacheTtlConfig, TransactionCache}
use tip_olg_ucentral_client.Reqmgr.Cache.Laws.{IsMap}

abbrev reply : Bytes
reply = some (1 ∷ [])

abbrev items : TransactionCache
items =
    ("a", record { payload = reply; expires_at = 5 })
    ∷ ("b", record { payload = reply; expires_at = 50 })
    ∷ []

items-IsMap : IsMap items
unfolding lookup
items-IsMap = (refl, (refl, tt))

abbrev no_methods : CacheTtlConfig
no_methods = record { default_ttl = 0; method_ttls = [] }
