-- ===== src/Reqmgr/Manager/Tests.antt =====
-- Runs of the request manager of pkg/reqmgr/manager.go, and its theorems at concrete inputs.
use tip_olg_ucentral_client.Prelude.{
  ℕ, ◌+◌, ◌<◌, String, true, false, Option, none, some, List, [], ◌∷◌, Bytes, lookup, insert,
  remove, ◌≡◌, ◌↔◌, refl, arith,
}
use tip_olg_ucentral_client.Contracts.Json.{Json, JsonId}
use tip_olg_ucentral_client.Reqmgr.Store.{PersistentOperation}
use tip_olg_ucentral_client.Reqmgr.Cache
use tip_olg_ucentral_client.Reqmgr.Cache.{ttl_for_method}
use tip_olg_ucentral_client.Reqmgr.Transaction.{
  Error, already_terminal, cached_response, response_for_notification, TransactionState,
  pending_publish, in_flight, created, completed, nil, validate_transition, Transaction,
}
use tip_olg_ucentral_client.Reqmgr.Manager.{
  RequestManager, initial_manager, lock_owned_by_rpc, lock_owned_by_operation, lock_none, get_tx,
  finalize, forget, release_if_owner, send_response, cache_response, end_transaction,
  terminal_transition,
}
use tip_olg_ucentral_client.Reqmgr.Manager.Request.{
  ok, err, NewRequest, is_notification, number_key, key_of_id, canonical_request_key,
  new_transaction, lock_and_register, admit, create_transaction,
}
use tip_olg_ucentral_client.Reqmgr.Manager.Request.Admission.{
  canonical_request_key-number, Accepted, create_transaction-Accepted,
}
use tip_olg_ucentral_client.Reqmgr.Manager.Lifecycle.{
  mark, mark_preparing_dispatch, mark_in_flight, complete, fail, timeout,
}
use tip_olg_ucentral_client.Reqmgr.Manager.Lifecycle.Laws.{AnsweredWith, fast_reply-wins}
use tip_olg_ucentral_client.Reqmgr.Manager.Operations.{returned, retain_failed, retain_saved}
use tip_olg_ucentral_client.Reqmgr.Manager.Operations.Laws.{
  retain_failed-not_ended, retain_saved-transfers,
}
use tip_olg_ucentral_client.Reqmgr.Manager.Recovery.{start_loop, sweep_loop, reacquire}
use tip_olg_ucentral_client.Reqmgr.Manager.Recovery.Laws.{
  is_member, sweep_loop-spares, start_loop-first_eligible,
}
use tip_olg_ucentral_client.Reqmgr.Manager.Invariant.{IsConsistent}
use tip_olg_ucentral_client.Reqmgr.Manager.Invariant.Creation.{initial_manager-IsConsistent}
use tip_olg_ucentral_client.Reqmgr.Manager.Invariant.Runs.{
  create, prepare, Reach, here, next, Reach-IsConsistent,
}
use tip_olg_ucentral_client.Reqmgr.Manager.Ending.{Answered, IsGone, terminal_transition-IsGone}
use tip_olg_ucentral_client.Reqmgr.Manager.Replay.{nothing, swept, complete-replays}

-- A decoder that knows two ways to write the number one.
abbrev decode : List ℕ → JsonId
decode (a ∷ []) = JsonId.number "1"
decode _ = JsonId.number "1.0"

abbrev pub test_json : Json
test_json = record { decode_id = decode; rat_string = λ v. some "1"; marshal = λ r. some (7 ∷ []) }

abbrev pub empty : RequestManager
empty = record {
  dispatch_timeout = 5;
  transactions = [];
  active_cloud_requests = [];
  state_lock = false;
  active_state_tx = "";
  active_state_owner = lock_none;
  releasing_operation_id = "";
  cache = [];
  cache_ttl_config = record { default_ttl = 0; method_ttls = [] };
  scheduler = none;
  pending_replies = [];
  max_concurrent_requests = 4;
  sweeper_ttl = 100;
  active_record_limit = 100;
  boot_id = "boot";
  fault = false;
}

abbrev pub request : NewRequest
request = record {
  session_id = "s";
  cloud_rpc_id = some (49 ∷ []);
  respond_to_cloud = true;
  method = "upgrade";
  timeout = 60;
  is_state_changing = true;
}

abbrev pub transaction : TransactionState → Transaction
transaction state = record {
  rpc_id = "tx";
  cloud_session_id = "s";
  cloud_rpc_id = some (49 ∷ []);
  request_key = "s:n:1";
  respond_to_cloud = true;
  method = "upgrade";
  state = state;
  payload = none;
  handoff_in_progress = false;
  created_at = 0;
  timeout_duration = 60;
  dispatch_deadline = 5;
  response_deadline = 0;
  dispatch_timer = nil;
  response_timer = nil;
}

-- The manager while one upgrade is under way.
abbrev pub with_upgrade : TransactionState → RequestManager
with_upgrade state = record empty {
  transactions = ("tx", transaction state) ∷ [];
  active_cloud_requests = ("s:n:1", "tx") ∷ [];
  state_lock = true;
  active_state_tx = "tx";
  active_state_owner = lock_owned_by_rpc;
}

-- The manager while an operation owns the lock.
abbrev with_operation : RequestManager
with_operation = record empty {
  state_lock = true;
  active_state_tx = "op";
  active_state_owner = lock_owned_by_operation;
}

abbrev operation : String → String → PersistentOperation
operation id boot_id = record {
  operation_id = id;
  rpc_id = "tx";
  cloud_rpc_id = none;
  target = "system";
  action = "upgrade";
  stage = "started";
  status = "started";
  active = true;
  boot_id = boot_id;
  created_at = "";
  updated_at = "";
}

abbrev parse_time : String → Option ℕ
parse_time s = some 10

abbrev no_error : String → Option Error
no_error s = none

abbrev reply : Bytes
reply = some (1 ∷ [])

program : Unit {0}
unfolding initial_manager is_notification number_key key_of_id canonical_request_key new_transaction
    lock_and_register admit create_transaction lookup insert remove validate_transition
    end_transaction terminal_transition finalize forget release_if_owner send_response
    cache_response Cache.get Cache.set ttl_for_method mark mark_preparing_dispatch start_loop
    sweep_loop
program = tt

accepted :
    create_transaction test_json 0 "tx" request empty
    ≡ (with_upgrade created, ok (transaction created))
unfolding program
accepted = refl

refused_while_busy :
    create_transaction test_json 0 "t2"
      (record request { cloud_rpc_id = none; respond_to_cloud = true })
      (with_upgrade created)
    ≡ (with_upgrade created, err response_for_notification)
unfolding program
refused_while_busy = refl

ends :
    terminal_transition 9 "tx" completed reply (with_upgrade in_flight)
    ≡ (finalize 9 "tx" (transaction in_flight) completed reply (with_upgrade in_flight), none)
unfolding program
ends = refl

pub upgrade_there :
    (state : TransactionState) → get_tx (with_upgrade state) "tx" ≡ some (transaction state)
unfolding lookup
upgrade_there state = refl

nothing_there : get_tx empty "tx" ≡ none
unfolding lookup
nothing_there = refl

no_reply : (state : TransactionState) → lookup "tx" (with_upgrade state).pending_replies ≡ none
unfolding lookup
no_reply state = refl

run :
    Reach test_json empty
      (mark_preparing_dispatch "tx" (create_transaction test_json 0 "tx" request empty).0).0
unfolding lookup
run = next (next here (create 0 "tx" request (refl, refl))) (prepare "tx")

empty-IsConsistent : IsConsistent empty
unfolding initial_manager
empty-IsConsistent =
    initial_manager-IsConsistent 5 (record { default_ttl = 0; method_ttls = [] }) [] none 4 100 100
      "boot"

Reach-IsConsistent_example :
    IsConsistent
      (mark_preparing_dispatch "tx" (create_transaction test_json 0 "tx" request empty).0).0
Reach-IsConsistent_example = Reach-IsConsistent empty-IsConsistent run

abbrev one_text : String
one_text = "1"

canonical_request_key-number_example :
    (canonical_request_key test_json "s" (some (49 ∷ []))
      ≡ canonical_request_key test_json "s" (some (49 ∷ 46 ∷ 48 ∷ [])))
    ↔ (one_text ≡ one_text)
unfolding is_notification
canonical_request_key-number_example =
    canonical_request_key-number test_json "s" (some (49 ∷ [])) (some (49 ∷ 46 ∷ 48 ∷ [])) "1" "1.0"
      "1" "1" (omega arith) (omega arith) refl refl refl refl refl refl

create_transaction-Accepted_example :
    (key : String) × (canonical_request_key test_json "s" (some (49 ∷ [])) ≡ ok key)
    × Accepted 0 "tx" key request empty (with_upgrade created) (transaction created)
create_transaction-Accepted_example =
    create_transaction-Accepted test_json 0 "tx" request empty (with_upgrade created)
      (transaction created) accepted

terminal_transition-IsGone_example :
    (tx : Transaction) × IsGone "tx" tx reply
      (with_upgrade in_flight)
      (finalize 9 "tx" (transaction in_flight) completed reply (with_upgrade in_flight))
terminal_transition-IsGone_example =
    terminal_transition-IsGone 9 "tx" completed reply (with_upgrade in_flight)
      (finalize 9 "tx" (transaction in_flight) completed reply (with_upgrade in_flight)) ends

short : 20 < 9 + ttl_for_method (with_upgrade in_flight).cache_ttl_config "upgrade"
unfolding program
short = omega arith

-- The manager with the response, after a sweep of the cache.
abbrev swept_manager : RequestManager
swept_manager =
    let n = (complete 9 "tx" reply (with_upgrade in_flight)).0 in
    record n { cache = Cache.sweep 15 n.cache }

before_the_end : 15 < 9 + ttl_for_method (with_upgrade in_flight).cache_ttl_config "upgrade"
unfolding program
before_the_end = omega arith

complete-replays_example :
    admit 20 "t2" "s:n:1" request swept_manager ≡ (swept_manager, err (cached_response reply))
complete-replays_example =
    complete-replays 9 20 "tx" "t2" reply request (with_upgrade in_flight) swept_manager
      (transaction in_flight) (upgrade_there in_flight) refl refl refl refl short
      (swept nothing 15 before_the_end)

fast_reply-wins_example :
    let n = (complete 9 "tx" reply (with_upgrade pending_publish)).0 in
    let tx = transaction pending_publish in
    let m = with_upgrade pending_publish in
    AnsweredWith none 10 "tx" tx reply m (mark_in_flight 10 "tx" n)
    × AnsweredWith (some already_terminal) 10 "tx" tx reply m (fail 10 "tx" none n)
    × AnsweredWith (some already_terminal) 10 "tx" tx reply m (timeout test_json 10 "tx" n)
fast_reply-wins_example =
    fast_reply-wins test_json 9 10 "tx" reply none (with_upgrade pending_publish)
      (transaction pending_publish) (upgrade_there pending_publish) refl refl
      (no_reply pending_publish)

retain_failed-not_ended_example :
    let (n, e) =
      retain_failed test_json 9 "tx" (transaction pending_publish) (with_upgrade pending_publish) in
    (e ≡ some already_terminal)
    × (get_tx n "tx" ≡ some (transaction pending_publish))
    × (n.active_state_tx ≡ "tx")
    × (n.state_lock ≡ true)
retain_failed-not_ended_example =
    retain_failed-not_ended test_json 9 "tx" (transaction pending_publish)
      (transaction pending_publish) (with_upgrade pending_publish) (upgrade_there pending_publish)
      refl refl (no_reply pending_publish)

retain_saved-transfers_example :
    let (n, out) = retain_saved 9 "tx" "op" reply (with_upgrade in_flight) in
    (out ≡ returned "op" none)
    × (n.active_state_tx ≡ "op")
    × (n.active_state_owner ≡ lock_owned_by_operation)
    × (n.state_lock ≡ true)
    × Answered 9 "tx" (transaction in_flight) reply (with_upgrade in_flight) n
retain_saved-transfers_example =
    retain_saved-transfers 9 "tx" "op" reply (with_upgrade in_flight) (transaction in_flight)
      (upgrade_there in_flight) refl refl refl (no_reply in_flight)

sweep_loop-spares_example :
    ((sweep_loop parse_time 50 no_error
        (operation "old" "before" ∷ operation "op" "boot" ∷ [])
        with_operation).0
      ≡ with_operation)
    × (is_member "op"
          (sweep_loop parse_time 50 no_error
            (operation "old" "before" ∷ operation "op" "boot" ∷ [])
            with_operation).1
        ≡ false)
sweep_loop-spares_example =
    sweep_loop-spares parse_time 50 no_error (operation "old" "before" ∷ operation "op" "boot" ∷ [])
      with_operation (refl, (refl, tt))

start_loop-first_eligible_example :
    start_loop parse_time 50 (operation "old" "before" ∷ operation "op" "boot" ∷ []) empty
    ≡ (reacquire (operation "op" "boot") empty, "old" ∷ [])
start_loop-first_eligible_example =
    start_loop-first_eligible parse_time 50 (operation "old" "before" ∷ operation "op" "boot" ∷ [])
      empty refl refl
