-- ===== src/Reqmgr/Manager/Request.antt =====
-- pkg/reqmgr/manager.go: `CanonicalRequestKey` and `CreateTransaction`.
pub mod Admission
use tip_olg_ucentral_client.Prelude.{
  ℕ, ◌+◌, String, ◌+++◌, Bool, true, false, not, ◌&&◌, ◌||◌, Option, none, some, List, [], ◌∷◌,
  Bytes, contents, len, length, lookup, insert, str_eq, ltb, leb, ◌==◌, if◌then◌else◌, is_some,
}
use tip_olg_ucentral_client.Contracts.Json.{Json, JsonId}
use tip_olg_ucentral_client.Reqmgr.Cache
use tip_olg_ucentral_client.Reqmgr.Transaction.{
  Error, duplicate_request, capacity_exceeded, state_lock_busy, cached_response,
  response_for_notification, upgrade_not_state_changing, state_changing_without_id, id_too_long,
  invalid_id, trailing_content, invalid_number, id_not_scalar, created, nil, Transaction,
}
use tip_olg_ucentral_client.Reqmgr.Manager.{RequestManager, lock_owned_by_rpc, put_tx}

pub data Result {ℓ} (A : Type ℓ) : Type ℓ where
  ok : A → Result A
  err : Error → Result A

-- `string(id) == "null"`
abbrev pub is_null : List ℕ → Bool
is_null (a ∷ b ∷ c ∷ d ∷ []) = a == b'n' && b == b'u' && c == b'l' && d == b'l'
is_null _ = false

-- `len(id) == 0 || string(id) == "null"`
unfoldable pub is_notification : Bytes → Bool
is_notification id = len id == 0 || is_null (contents id)

unfoldable pub number_key : String → Option String → Result String
number_key session none = err invalid_number
number_key session (some r) = ok (session +++ (":n:" +++ r))

unfoldable pub key_of_id : Json → String → JsonId → Result String
unfolding number_key
key_of_id json session JsonId.malformed = err invalid_id
key_of_id json session JsonId.trailing = err trailing_content
key_of_id json session JsonId.other = err id_not_scalar
key_of_id json session (JsonId.text v) = ok (session +++ (":s:" +++ v))
key_of_id json session (JsonId.number v) = number_key session (json.rat_string v)

unfoldable pub canonical_request_key : Json → String → Bytes → Result String
unfolding key_of_id
canonical_request_key json session id =
    if ltb 256 (len id)
    then err id_too_long
    else if is_notification id
    then ok ""
    else key_of_id json session (json.decode_id (contents id))

-- The arguments of `CreateTransaction`.
pub record NewRequest : Type 0 where
  pub session_id : String
  pub cloud_rpc_id : Bytes
  pub respond_to_cloud : Bool
  pub method : String
  pub timeout : ℕ
  pub is_state_changing : Bool

unfoldable pub new_transaction : ℕ → String → String → NewRequest → RequestManager → Transaction
new_transaction now rpc_id key r m = record {
  rpc_id = rpc_id;
  cloud_session_id = r.session_id;
  cloud_rpc_id = r.cloud_rpc_id;
  request_key = key;
  respond_to_cloud = r.respond_to_cloud;
  method = r.method;
  state = created;
  payload = none;
  handoff_in_progress = false;
  created_at = now;
  timeout_duration = r.timeout;
  dispatch_deadline = now + m.dispatch_timeout;
  response_deadline = 0;
  dispatch_timer = nil;
  response_timer = nil;
}

abbrev pub take_lock : String → RequestManager → RequestManager
take_lock rpc_id m = record m {
  state_lock = true;
  active_state_tx = rpc_id;
  active_state_owner = lock_owned_by_rpc;
}

-- The transaction is entered in the maps.
abbrev pub register :
    ℕ → String → String → NewRequest → RequestManager → RequestManager × Result Transaction
register now rpc_id key r m =
    let tx = new_transaction now rpc_id key r m in
    let m' = record m {
      active_cloud_requests =
          if not (is_notification r.cloud_rpc_id) && not (str_eq key "")
          then insert key rpc_id m.active_cloud_requests
          else m.active_cloud_requests;
    } in
    (put_tx m' rpc_id tx, ok tx)

-- The same behind `m.stateLock.TryLock()`.
unfoldable pub lock_and_register :
    ℕ → String → String → NewRequest → RequestManager → RequestManager × Result Transaction
lock_and_register now rpc_id key r m =
    if m.state_lock
    then (m, err state_lock_busy)
    else register now rpc_id key r (take_lock rpc_id m)

-- The part under the lock, from the check of the cache on.
unfoldable pub admit :
    ℕ → String → String → NewRequest → RequestManager → RequestManager × Result Transaction
unfolding new_transaction
admit now rpc_id key r m = elim (Cache.get now key m.cache) [
  | some payload ↦ (m, err (cached_response payload))
  | none ↦
      if is_some (lookup key m.active_cloud_requests)
      then (m, err duplicate_request)
      else if leb m.max_concurrent_requests (length m.transactions)
      then (m, err capacity_exceeded)
      else if r.is_state_changing
      then (if not r.respond_to_cloud || is_notification r.cloud_rpc_id
          then (m, err state_changing_without_id)
          else lock_and_register now rpc_id key r m)
      else register now rpc_id key r m
]

abbrev pub with_key :
    ℕ → String → NewRequest → RequestManager → Result String → RequestManager × Result Transaction
with_key now rpc_id r m (err e) = (m, err e)
with_key now rpc_id r m (ok key) = admit now rpc_id key r m

-- `rpc_id` is the fresh UUID.
unfoldable pub create_transaction :
    Json → ℕ → String → NewRequest → RequestManager → RequestManager × Result Transaction
create_transaction json now rpc_id r m =
    if is_notification r.cloud_rpc_id && r.respond_to_cloud
    then (m, err response_for_notification)
    else if str_eq r.method "upgrade" && not r.is_state_changing
    then (m, err upgrade_not_state_changing)
    else with_key now rpc_id r m (canonical_request_key json r.session_id r.cloud_rpc_id)
