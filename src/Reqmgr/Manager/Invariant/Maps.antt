-- ===== src/Reqmgr/Manager/Invariant/Maps.antt =====
-- The maps of pkg/reqmgr/manager.go: each step keeps `MapsAgree`.
use tip_olg_ucentral_client.Prelude.{
  ℕ, String, true, false, none, some, List, length-remove, length-insert, lookup, insert, remove,
  lookup-insert, lookup-remove, str_eq, eq_iff, if◌then◌else◌, is_some, ◌≡◌, arith, Bool-cases, inl,
  inr,
}
use tip_olg_ucentral_client.Reqmgr.Transaction.{Transaction, is_terminal}
use tip_olg_ucentral_client.Reqmgr.Manager.{PendingReply}
use tip_olg_ucentral_client.Reqmgr.Manager.Invariant.{MapsAgree}

-- The requests once the transaction `tx` has ended.
abbrev left : List (String × String) → Transaction → List (String × String)
left requests tx = if str_eq tx.request_key "" then requests else remove tx.request_key requests

lookup-left :
    (requests : List (String × String)) (tx : Transaction) (key : String)
    → lookup "" requests ≡ none
    → lookup key (left requests tx)
      ≡ (if str_eq tx.request_key key then none else lookup key requests)
lookup-left requests tx key e = ground (
  arith,
  lookup-remove tx.request_key key requests,
  eq_iff tx.request_key "",
  eq_iff tx.request_key key,
)

module _ {txs : List (String × Transaction)} {requests : List (String × String)}
    {replies : List (String × PendingReply)} {max : ℕ} where
  -- The transaction is replaced by one that is as alive and has the same key.
  pub put_tx-MapsAgree :
      (id : String) (old tx : Transaction)
      → lookup id txs ≡ some old
      → tx.request_key ≡ old.request_key
      → is_terminal tx.state ≡ false
      → MapsAgree txs requests replies max
      → MapsAgree (insert id tx txs) requests replies max
  put_tx-MapsAgree id old tx e k s h = record {
    bounded = ground (arith, length-insert id tx txs, h.bounded);
    unnamed = ground (arith, lookup-insert id "" tx txs, eq_iff id "", h.unnamed);
    live = λ j t f. ground (arith, lookup-insert id j tx txs, h.live j t);
    replied = λ j f. ground (arith, lookup-insert id j tx txs, h.replied j f);
    keyless = h.keyless;
    request_alive = λ key j f.
        let (t, found, same) = h.request_alive key j f in
        elim (Bool-cases (str_eq id j)) [
          | inl d ↦ (tx, ground (arith, lookup-insert id j tx txs), ground (arith, eq_iff id j))
          | inr d ↦ (t, ground (arith, lookup-insert id j tx txs), same)
        ];
    request_active = λ j t f g. ground (
      arith,
      lookup-insert id j tx txs,
      eq_iff id j,
      h.request_active j t,
      h.request_active j old,
    );
  }

  pub remove_reply-MapsAgree :
      (id : String)
      → MapsAgree txs requests replies max
      → MapsAgree txs requests (remove id replies) max
  remove_reply-MapsAgree id h = record {
    bounded = h.bounded;
    unnamed = h.unnamed;
    live = h.live;
    replied = λ j f. ground (arith, lookup-remove id j replies, h.replied j);
    keyless = h.keyless;
    request_alive = h.request_alive;
    request_active = h.request_active;
  }

  pub add_reply-MapsAgree :
      (id : String) (reply : PendingReply)
      → is_some (lookup id txs) ≡ true
      → MapsAgree txs requests replies max
      → MapsAgree txs requests (insert id reply replies) max
  add_reply-MapsAgree id reply known h = record {
    bounded = h.bounded;
    unnamed = h.unnamed;
    live = h.live;
    replied = λ j f. ground (arith, lookup-insert id j reply replies, h.replied j, eq_iff id j);
    keyless = h.keyless;
    request_alive = h.request_alive;
    request_active = h.request_active;
  }

  request_alive_end :
      (id : String) (tx : Transaction)
      → lookup id txs ≡ some tx
      → MapsAgree txs requests replies max
      → (key j : String) → lookup key (left requests tx) ≡ some j
      → (t : Transaction) × (lookup j (remove id txs) ≡ some t) × (t.request_key ≡ key)
  request_alive_end id tx e h key j f =
      let old : lookup key requests ≡ some j =
        ground (arith, lookup-left requests tx key h.keyless) in
      let (t, found, same) = h.request_alive key j old in
      (
        t,
        ground (
          arith,
          lookup-remove id j txs,
          lookup-left requests tx key h.keyless,
          eq_iff id j,
          eq_iff tx.request_key key,
        ),
        same,
      )

  request_active_end :
      (id : String) (tx : Transaction)
      → lookup id txs ≡ some tx
      → MapsAgree txs requests replies max
      → (j : String) (t : Transaction) → lookup j (remove id txs) ≡ some t
      → str_eq t.request_key "" ≡ false
      → lookup t.request_key (left requests tx) ≡ some j
  request_active_end id tx e h j t f g = ground (
    arith,
    lookup-remove id j txs,
    lookup-left requests tx t.request_key h.keyless,
    h.request_active j t,
    h.request_active id tx,
    eq_iff id j,
    eq_iff tx.request_key t.request_key,
  )

  -- The transaction `tx` named `id` ends: it leaves the three maps.
  pub end-MapsAgree :
      (id : String) (tx : Transaction)
      → lookup id txs ≡ some tx
      → MapsAgree txs requests replies max
      → MapsAgree
          (remove id txs)
          (if str_eq tx.request_key "" then requests else remove tx.request_key requests)
          (remove id replies)
          max
  end-MapsAgree id tx e h = record {
    bounded = ground (arith, length-remove id txs, h.bounded);
    unnamed = ground (arith, lookup-remove id "" txs, h.unnamed);
    live = λ j t f. ground (arith, lookup-remove id j txs, h.live j t);
    replied =
        λ j f. ground (arith, lookup-remove id j replies, lookup-remove id j txs, h.replied j);
    keyless = ground (arith, lookup-remove tx.request_key "" requests, h.keyless);
    request_alive = request_alive_end id tx e h;
    request_active = request_active_end id tx e h;
  }
