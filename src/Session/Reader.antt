-- ===== src/Session/Reader.antt =====
-- pkg/websocket/client.go: the loop of `startReaderLoop` over what the reads and the handler yield.
use tip_olg_ucentral_client.Prelude.{
  ℕ, suc, ◌+◌, ◌≤◌, ◌<◌, Bool, true, false, List, [], ◌∷◌, length, ltb, leb, if◌then◌else◌,
  if_of_true, if_of_false, ◌≡◌, ◌∙◌, arith, Bool-cases, inl, inr,
}

-- One read: the socket or the text fails, the frame has so many bytes and the handler gives a
-- disposition, with an error or without one; `other` is none of the three dispositions.
pub data Disposition : Type 0 where
  accepted rejected_keep_connection fatal_close_connection other : Disposition

pub data Reading : Type 0 where
  read_failed : Reading
  frame : ℕ → Disposition → Bool → Reading

pub data Ending : Type 0 where
  reading socket_failed too_large closed_by_handler too_many_errors bad_disposition : Ending

-- `MaxFrameSizeBytes` and `MaxConsecutiveFrameErrors`, 0 for every number that is not positive.
pub record ReaderConfig : Type 0 where
  pub max_frame_size_bytes : ℕ
  pub max_consecutive_frame_errors : ℕ

unfoldable pub max_frame_size : ReaderConfig → ℕ
max_frame_size c = if ltb 0 c.max_frame_size_bytes then c.max_frame_size_bytes else 11534336

unfoldable pub max_errors : ReaderConfig → ℕ
max_errors c = if ltb 0 c.max_consecutive_frame_errors then c.max_consecutive_frame_errors else 20

abbrev pub is_fatal : Disposition → Bool
is_fatal fatal_close_connection = true
is_fatal d = false

abbrev pub is_known : Disposition → Bool
is_known other = false
is_known d = true

-- The end of the loop behind the call of the handler, or `reading`, and the count of errors in a row.
unfoldable pub after_frame : ReaderConfig → Disposition → Bool → ℕ → Ending × ℕ
after_frame c d has_error errors =
    if is_fatal d
    then (closed_by_handler, errors)
    else if has_error
    then (if leb (max_errors c) (errors + 1)
        then (too_many_errors, errors + 1)
        else (reading, errors + 1))
    else if is_known d
    then (reading, 0)
    else (bad_disposition, 0)

unfoldable pub after_reading : ReaderConfig → Reading → ℕ → Ending × ℕ
after_reading c read_failed errors = (socket_failed, errors)
after_reading c (frame size d has_error) errors =
    if ltb (max_frame_size c) size then (too_large, errors) else after_frame c d has_error errors

abbrev go_on : Ending → Ending → Ending
go_on reading rest = rest
go_on e rest = e

unfoldable pub reader_loop : ReaderConfig → List Reading → ℕ → Ending
reader_loop c [] errors = reading
reader_loop c (r ∷ rs) errors =
    let (e, n) = after_reading c r errors in go_on e (reader_loop c rs n)

-- A frame with an error that is neither too large nor fatal.
abbrev pub IsFailure : ReaderConfig → Reading → Type 0
IsFailure c read_failed = ⊥
IsFailure c (frame size d has_error) =
    (size ≤ max_frame_size c) × (is_fatal d ≡ false) × (has_error ≡ true)

abbrev pub AllFail : ReaderConfig → List Reading → Type 0
AllFail c [] = Unit
AllFail c (r ∷ rs) = IsFailure c r × AllFail c rs

failure-step :
    (c : ReaderConfig) (r : Reading) (errors : ℕ)
    → IsFailure c r
    → after_reading c r errors ≡ (
        if leb (max_errors c) (errors + 1)
        then (too_many_errors, errors + 1)
        else (reading, errors + 1))
unfolding after_reading after_frame
failure-step c read_failed errors h = absurd h
failure-step c (frame size d e) errors (s, f, t) = ground arith

-- From a count of errors below the bound on, frames that all fail end the session exactly when they
-- bring the count to the bound: one error less, and the connection is kept.
pub reader_loop-failures :
    (c : ReaderConfig) (rs : List Reading) (errors : ℕ)
    → errors < max_errors c
    → AllFail c rs
    → reader_loop c rs errors
      ≡ (if leb (max_errors c) (errors + length rs) then too_many_errors else reading)
unfolding reader_loop
reader_loop-failures c [] errors l h = ground arith
reader_loop-failures c (r ∷ rs) errors l (h, hs) =
    elim (Bool-cases (leb (max_errors c) (errors + 1))) [
      | inl e ↦
          rw
            (
              failure-step c r errors h ∙ if_of_true (leb (max_errors c) (errors + 1)) _ _ e,
              reader_loop,
            )
            (ground arith)
      | inr e ↦
          rw
            (
              failure-step c r errors h ∙ if_of_false (leb (max_errors c) (errors + 1)) _ _ e,
              reader_loop,
            )
            (reader_loop-failures c rs (errors + 1) (ground arith) hs ∙ same (length rs))
    ]
  where
    same :
        (n : ℕ)
        → (if leb (max_errors c) (errors + 1 + n) then too_many_errors else reading)
          ≡ (if leb (max_errors c) (errors + suc n) then too_many_errors else reading)
    same n = ground arith
