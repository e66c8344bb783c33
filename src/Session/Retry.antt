-- ===== src/Session/Retry.antt =====
-- pkg/websocket/client.go: the waiting times of `ReconnectLoop`. `jitter` is the random number, below
-- the current back-off.
use tip_olg_ucentral_client.Prelude.{
  ℕ, ◌+◌, ◌*◌, ◌≤◌, List, [], ◌∷◌, ltb, if◌then◌else◌, arith, either,
}

abbrev pub initial_backoff : ℕ
initial_backoff = 2000000000

abbrev pub max_backoff : ℕ
max_backoff = 60000000000

abbrev at_most_max : ℕ → ℕ
at_most_max t = if ltb max_backoff t then max_backoff else t

-- How long `waitForRetry` waits, and the back-off that it leaves.
unfoldable pub retry_delay : ℕ → ℕ
retry_delay jitter = at_most_max (initial_backoff + jitter)

unfoldable pub next_backoff : ℕ → ℕ
next_backoff backoff = at_most_max (backoff * 2)

-- How one round of the loop ends: it could not connect, or its session has lasted so long.
pub data Round : Type 0 where
  not_connected : ℕ → Round
  session_ended : ℕ → ℕ → Round

-- The seconds of `stable_session_threshold_seconds`, 0 for every number that is not positive.
unfoldable pub stable_threshold : ℕ → ℕ
stable_threshold seconds = if ltb 0 seconds then seconds * 1000000000 else 60000000000

-- The back-off behind a round, and the times it waited, none if the session was stable.
unfoldable pub after_round : ℕ → Round → ℕ → ℕ × List ℕ
after_round threshold (not_connected jitter) backoff =
    (next_backoff backoff, retry_delay jitter ∷ [])
after_round threshold (session_ended duration jitter) backoff =
    if ltb threshold duration
    then (initial_backoff, [])
    else (next_backoff backoff, retry_delay jitter ∷ [])

-- The back-off behind some rounds.
unfoldable pub backoff_after : ℕ → List Round → ℕ → ℕ
backoff_after threshold [] backoff = backoff
backoff_after threshold (r ∷ rs) backoff =
    backoff_after threshold rs (after_round threshold r backoff).0

next_backoff-bounds :
    (b : ℕ)
    → initial_backoff ≤ b
    → (initial_backoff ≤ next_backoff b) × (next_backoff b ≤ max_backoff)
unfolding next_backoff
next_backoff-bounds b h = ground arith

round-bounds :
    (threshold : ℕ) (r : Round) (b : ℕ)
    → (initial_backoff ≤ b) × (b ≤ max_backoff)
    → (initial_backoff ≤ (after_round threshold r b).0)
      × ((after_round threshold r b).0 ≤ max_backoff)
unfolding after_round
round-bounds threshold (not_connected j) b (l, u) = next_backoff-bounds b l
round-bounds threshold (session_ended d j) b (l, u) =
    either (λ (p : ℕ × List ℕ). (initial_backoff ≤ p.0) × (p.0 ≤ max_backoff)) (ltb threshold d) _ _
      (omega arith, omega arith) (next_backoff-bounds b l)

-- The back-off stays between two seconds and a minute however the rounds end, and so does every time
-- that the loop waits.
pub backoff_after-bounds :
    (threshold : ℕ) (rs : List Round) (b jitter : ℕ)
    → initial_backoff ≤ b
    → b ≤ max_backoff
    → ((initial_backoff ≤ backoff_after threshold rs b)
        × (backoff_after threshold rs b ≤ max_backoff))
      × (initial_backoff ≤ retry_delay jitter)
      × (retry_delay jitter ≤ max_backoff)
unfolding backoff_after retry_delay
backoff_after-bounds threshold [] b jitter l u = ((l, u), ground arith, ground arith)
backoff_after-bounds threshold (r ∷ rs) b jitter l u =
    let k = round-bounds threshold r b (l, u) in
    backoff_after-bounds threshold rs (after_round threshold r b).0 jitter k.0 k.1
