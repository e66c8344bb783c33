-- ===== src/Queues/Coalescer/Laws.antt =====
-- Peek, send, commit: what the state loop of the client relies on in pkg/queues/coalescer.go.
use tip_olg_ucentral_client.Prelude.{
  ◌+◌, ◌%◌, ◌^◌, ◌<◌, ◌≡◌, refl, Bool, true, false, none, some, List, [], ◌∷◌, Bytes, make_copy,
  length, if◌then◌else◌, arith,
}
use tip_olg_ucentral_client.Queues.Coalescer.{StateSnapshot, StateCoalescer, update, peek, commit}

abbrev pub update_all : List Bytes → StateCoalescer → StateCoalescer
update_all [] c = c
update_all (u ∷ us) c = update_all us (update u c)

abbrev pub last_or : Bytes → List Bytes → Bytes
last_or u [] = u
last_or u (v ∷ us) = last_or v us

abbrev pub is_empty : List Bytes → Bool
is_empty [] = true
is_empty (u ∷ us) = false

generation-update_all :
    (us : List Bytes) (c : StateCoalescer)
    → c.generation < 2 ^ 64
    → (update_all us c).generation ≡ (c.generation + length us) % 2 ^ 64
unfolding update
generation-update_all [] c p = omega arith
generation-update_all (u ∷ us) c p =
    omega (arith, generation-update_all us (update u c) (omega arith))

peek-update_all :
    (u : Bytes) (us : List Bytes) (c : StateCoalescer)
    → ((update_all us (update u c)).has_state ≡ true)
      × ((update_all us (update u c)).latest_state ≡ make_copy (last_or u us))
unfolding update
peek-update_all u [] c = (refl, refl)
peek-update_all u (v ∷ us) c = peek-update_all v us (update u c)

-- After a peek and fewer than 2^64 updates, a commit of the peeked generation succeeds if and only
-- if there was no update; then nothing waits any more. After an update it changes nothing.
pub commit-peeked :
    (us : List Bytes) (c : StateCoalescer) (snapshot : StateSnapshot)
    → c.generation < 2 ^ 64
    → length us < 2 ^ 64
    → peek c ≡ some snapshot
    → ((commit snapshot.generation (update_all us c)).0 ≡ is_empty us)
      × (peek (commit snapshot.generation (update_all us c)).1
          ≡ (if is_empty us then none else peek (update_all us c)))
unfolding peek commit
commit-peeked [] c snapshot p q e = ground arith
commit-peeked (u ∷ us) c snapshot p q e =
    ground (arith, generation-update_all (u ∷ us) c p, peek-update_all u us c)

-- The last write wins: after updates, a peek returns a copy of the last payload.
pub peek-last :
    (u : Bytes) (us : List Bytes) (c : StateCoalescer)
    → peek (update_all us (update u c))
      ≡ some (record {
        payload = make_copy (last_or u us);
        generation = (update_all us (update u c)).generation;
      })
unfolding peek
peek-last u us c = ground (arith, peek-update_all u us c)
