-- ===== src/Queues/Coalescer.antt =====
-- pkg/queues/coalescer.go: `StateCoalescer`. A method runs under `c.mu`, so it is a function from
-- the old coalescer to the new one. The generation is a `uint64`.
pub mod Laws
use tip_olg_ucentral_client.Prelude.{
  ℕ, ◌+◌, ◌%◌, ◌^◌, Bool, true, false, not, Option, none, some, Bytes, make_copy, ◌==◌,
  if◌then◌else◌,
}

pub record StateSnapshot : Type 0 where
  pub payload : Bytes
  pub generation : ℕ

pub record StateCoalescer : Type 0 where
  pub latest_state : Bytes
  pub generation : ℕ
  pub has_state : Bool

unfoldable pub new_state_coalescer : StateCoalescer
new_state_coalescer = record { latest_state = none; generation = 0; has_state = false }

unfoldable pub update : Bytes → StateCoalescer → StateCoalescer
update payload c = record {
  latest_state = make_copy payload;
  generation = (c.generation + 1) % 2 ^ 64;
  has_state = true;
}

unfoldable pub peek : StateCoalescer → Option StateSnapshot
peek c =
    if not c.has_state
    then none
    else some (record { payload = make_copy c.latest_state; generation = c.generation })

unfoldable pub commit : ℕ → StateCoalescer → Bool × StateCoalescer
commit generation c =
    if not c.has_state
    then (false, c)
    else if not (c.generation == generation)
    then (false, c)
    else (true, record c { latest_state = none; has_state = false })
