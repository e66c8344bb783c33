-- ===== src/Session/Writer.antt =====
-- pkg/websocket/client.go: what `startWriterLoop` and the goroutine that feeds it make of the messages
-- of a session. At most one message is on its way between the two. The goroutine ends with its session;
-- one that outlives it, as nobody waits for it, is not modelled.
use tip_olg_ucentral_client.Prelude.{
  String, Bool, true, false, not, ◌&&◌, Option, none, some, List, [], ◌∷◌, ◌++◌, append_assoc,
  str_eq, ◌==◌, if◌then◌else◌, ◌≡◌, refl, sym, ap, ◌∙◌, arith, Bool-cases, inl, inr,
}
use tip_olg_ucentral_client.Queues.Scheduler.{Priority, level, minus, OutboundMessage}

-- What happens to a message: it is written, its write fails, or the session ends before the writer has
-- it.
pub data Fate : Type 0 where
  written write_failed cut_off : Fate

-- `pendingMsg`, what has gone to the cloud, and what is still in the scheduler.
pub record WriterState : Type 0 where
  pub pending : Option OutboundMessage
  pub sent : List OutboundMessage
  pub waiting : List OutboundMessage

abbrev is_level0 : Priority → Bool
is_level0 (level p) = p == 0
is_level0 (minus n) = false

-- `msg.Priority == queues.PriorityHighest`
abbrev pub is_highest : OutboundMessage → Bool
is_highest msg = is_level0 msg.priority

abbrev pub is_stale : String → OutboundMessage → Bool
is_stale session msg = is_highest msg && not (str_eq msg.session_id session)

-- `if c.pendingMsg == nil { c.pendingMsg = &msg }`
abbrev keep_pending : Option OutboundMessage → OutboundMessage → Option OutboundMessage
keep_pending none msg = some msg
keep_pending (some other) msg = some other

-- A message that was not sent is kept for the next session, unless its priority is the highest; the
-- first argument is `pendingMsg`.
abbrev pub retain : Option OutboundMessage → OutboundMessage → Option OutboundMessage
retain pending msg = if is_highest msg then pending else keep_pending pending msg

abbrev pub messages : List (OutboundMessage × Fate) → List OutboundMessage
messages [] = []
messages ((msg, fate) ∷ rest) = msg ∷ messages rest

-- The session ends with `msg` unsent. The feeding goroutine has set `pendingMsg` to nil at its start.
abbrev stop_at :
    OutboundMessage → List (OutboundMessage × Fate) → List OutboundMessage → WriterState
stop_at msg rest sent = record { pending = retain none msg; sent = sent; waiting = messages rest }

-- The messages that the scheduler hands out, each with its fate; the session ends with the first that
-- is not written, or without any such.
unfoldable pub write_messages :
    String → List (OutboundMessage × Fate) → List OutboundMessage → WriterState
write_messages session [] sent = record { pending = none; sent = sent; waiting = [] }
write_messages session ((msg, cut_off) ∷ rest) sent = stop_at msg rest sent
write_messages session ((msg, written) ∷ rest) sent =
    let discarded = write_messages session rest sent in
    let next = write_messages session rest (sent ++ (msg ∷ [])) in
    if is_stale session msg then discarded else next
write_messages session ((msg, write_failed) ∷ rest) sent =
    let discarded = write_messages session rest sent in
    if is_stale session msg then discarded else stop_at msg rest sent

-- A session, which starts with the message that the one before has kept.
unfoldable pub write_session :
    String → Option (OutboundMessage × Fate) → List (OutboundMessage × Fate) → WriterState
write_session session none queue = write_messages session queue []
write_session session (some (msg, cut_off)) queue = record {
  pending = keep_pending none msg;
  sent = [];
  waiting = messages queue;
}
write_session session (some (msg, written)) queue =
    write_messages session ((msg, written) ∷ queue) []
write_session session (some (msg, write_failed)) queue =
    write_messages session ((msg, write_failed) ∷ queue) []

-- The messages of a priority other than the highest.
abbrev pub lower : List OutboundMessage → List OutboundMessage
lower [] = []
lower (m ∷ ms) = if is_highest m then lower ms else m ∷ lower ms

abbrev pub kept : Option OutboundMessage → List OutboundMessage
kept none = []
kept (some m) = m ∷ []

-- All that a session leaves, in the order in which it goes or will go to the cloud.
abbrev pub everything : WriterState → List OutboundMessage
everything s = s.sent ++ (kept s.pending ++ s.waiting)

lower-append : (xs ys : List OutboundMessage) → lower (xs ++ ys) ≡ lower xs ++ lower ys
lower-append [] ys = refl
lower-append (x ∷ xs) ys = elim (Bool-cases (is_highest x)) [
  | inl e ↦ rw e (lower-append xs ys)
  | inr e ↦ rw e (ap (λ l. x ∷ l) (lower-append xs ys))
]

stopped-lower :
    (msg : OutboundMessage) (rest : List (OutboundMessage × Fate)) (sent : List OutboundMessage)
    → lower (everything (stop_at msg rest sent)) ≡ lower (sent ++ (msg ∷ messages rest))
stopped-lower msg rest sent = elim (Bool-cases (is_highest msg)) [
  | inl e ↦
      rw (e, lower-append sent (messages rest), lower-append sent (msg ∷ messages rest), e) refl
  | inr e ↦ rw e refl
]

stale-lower :
    (session : String) (msg : OutboundMessage) (sent rest : List OutboundMessage)
    → is_stale session msg ≡ true
    → lower (sent ++ rest) ≡ lower (sent ++ (msg ∷ rest))
stale-lower session msg sent rest e =
    let high : is_highest msg ≡ true = ground (arith, e) in
    lower-append sent rest ∙ rw high refl ∙ sym (lower-append sent (msg ∷ rest))

write_messages-lower :
    (session : String) (queue : List (OutboundMessage × Fate)) (sent : List OutboundMessage)
    → lower (everything (write_messages session queue sent)) ≡ lower (sent ++ messages queue)
unfolding write_messages
write_messages-lower session [] sent = refl
write_messages-lower session ((msg, cut_off) ∷ rest) sent = stopped-lower msg rest sent
write_messages-lower session ((msg, written) ∷ rest) sent =
    elim (Bool-cases (is_stale session msg)) [
      | inl e ↦
          rw (e, write_messages)
            (write_messages-lower session rest sent
              ∙ stale-lower session msg sent (messages rest) e)
      | inr e ↦
          rw (e, write_messages)
            (write_messages-lower session rest (sent ++ (msg ∷ []))
              ∙ ap lower (append_assoc sent (msg ∷ []) (messages rest)))
    ]
write_messages-lower session ((msg, write_failed) ∷ rest) sent =
    elim (Bool-cases (is_stale session msg)) [
      | inl e ↦
          rw (e, write_messages)
            (write_messages-lower session rest sent
              ∙ stale-lower session msg sent (messages rest) e)
      | inr e ↦ rw (e, write_messages) (stopped-lower msg rest sent)
    ]

-- The messages of a session: the one kept before, then those of the scheduler.
abbrev pub offered :
    Option (OutboundMessage × Fate) → List (OutboundMessage × Fate) → List OutboundMessage
offered none queue = messages queue
offered (some (msg, fate)) queue = msg ∷ messages queue

-- No message of a priority other than the highest is lost, sent twice or overtaken by another one,
-- wherever writes fail and the session ends: what was sent, what is kept and what still waits are, in
-- this order, the messages that the session was offered.
pub write_session-lower :
    (session : String) (first : Option (OutboundMessage × Fate))
    (queue : List (OutboundMessage × Fate))
    → lower (everything (write_session session first queue)) ≡ lower (offered first queue)
unfolding write_session
write_session-lower session none queue = write_messages-lower session queue []
write_session-lower session (some (msg, cut_off)) queue = refl
write_session-lower session (some (msg, written)) queue =
    write_messages-lower session ((msg, written) ∷ queue) []
write_session-lower session (some (msg, write_failed)) queue =
    write_messages-lower session ((msg, write_failed) ∷ queue) []
