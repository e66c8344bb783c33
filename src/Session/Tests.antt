-- ===== src/Session/Tests.antt =====
-- The theorems on pkg/websocket/client.go at concrete sessions.
use tip_olg_ucentral_client.Prelude.{
  ℕ, ◌≤◌, String, true, none, some, List, [], ◌∷◌, leb, if◌then◌else◌, ◌≡◌, refl, arith,
}
use tip_olg_ucentral_client.Queues.Scheduler.{OutboundMessage, level}
use tip_olg_ucentral_client.Session.Retry.{
  initial_backoff, max_backoff, retry_delay, Round, not_connected, session_ended, backoff_after,
  backoff_after-bounds,
}
use tip_olg_ucentral_client.Session.Reader.{
  rejected_keep_connection, Reading, frame, reading, too_many_errors, ReaderConfig, max_frame_size,
  max_errors, reader_loop, reader_loop-failures,
}
use tip_olg_ucentral_client.Session.Writer.{
  written, write_failed, cut_off, lower, everything, write_session, write_session-lower,
}

abbrev rounds : List Round
rounds = not_connected 5 ∷ session_ended 7 3 ∷ not_connected 1 ∷ []

backoff_after-bounds_example :
    ((initial_backoff ≤ backoff_after 100 rounds initial_backoff)
      × (backoff_after 100 rounds initial_backoff ≤ max_backoff))
    × (initial_backoff ≤ retry_delay 9)
    × (retry_delay 9 ≤ max_backoff)
backoff_after-bounds_example =
    backoff_after-bounds 100 rounds initial_backoff 9 (omega arith) (omega arith)

abbrev strict : ReaderConfig
strict = record { max_frame_size_bytes = 10; max_consecutive_frame_errors = 2 }

abbrev failing : Reading
failing = frame 3 rejected_keep_connection true

reader_loop-failures_example :
    reader_loop strict (failing ∷ failing ∷ []) 0
    ≡ (if leb (max_errors strict) 2 then too_many_errors else reading)
unfolding max_errors max_frame_size
reader_loop-failures_example =
    reader_loop-failures strict (failing ∷ failing ∷ []) 0 (omega arith)
      ((omega arith, refl, refl), ((omega arith, refl, refl), tt))

abbrev message : String → ℕ → OutboundMessage
message session p = record { session_id = session; priority = level p; payload = none }

write_session-lower_example :
    lower (
      everything (
        write_session "b" (some (message "a" 2, written)) (
          (message "a" 0, written)
          ∷ (message "b" 1, write_failed)
          ∷ (message "b" 3, cut_off)
          ∷ [])))
    ≡ lower (message "a" 2 ∷ message "a" 0 ∷ message "b" 1 ∷ message "b" 3 ∷ [])
write_session-lower_example =
    write_session-lower "b" (some (message "a" 2, written))
      ((message "a" 0, written) ∷ (message "b" 1, write_failed) ∷ (message "b" 3, cut_off) ∷ [])
