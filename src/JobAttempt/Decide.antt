-- ===== src/JobAttempt/Decide.antt =====
-- `permitsTransition` and `decideAttemptEvent` of job-attempt.ts. Each helper is one block of the
-- function, in its order.
use dotconfig.Base.{
  ℕ, ◌+◌, Bool, true, false, not, ◌||◌, Option, none, some, Text, text_eq, ltb, ◌==◌, if◌then◌else◌,
  max_safe_integer, Result, ok, err, fail_if, ◌>>=◌, ◌>>◌,
}
use dotconfig.JobAttempt.{
  Identity, Body, AttemptEvent, Status, AttemptSnapshot, EventReceipt, absent, recorded, Error,
  malformed, stale_attempt, stale_fence, receipt_conflict, out_of_order, invalid_transition,
  foreign_output, Decision, duplicate, appended,
}
use dotconfig.JobAttempt.Schema.{
  valid_identity, valid_event, valid_snapshot, valid_receipt, same_event,
}

-- The event kinds `"succeeded"`, `"failed"`, `"cancelled"` and `"interrupted"`.
abbrev pub is_terminal : Body → Bool
is_terminal (Body.succeeded o u) = true
is_terminal (Body.failed r u) = true
is_terminal (Body.cancelled r u) = true
is_terminal (Body.interrupted r u) = true
is_terminal _ = false

abbrev pub is_terminal_status : Status → Bool
is_terminal_status Status.succeeded = true
is_terminal_status Status.failed = true
is_terminal_status Status.cancelled = true
is_terminal_status Status.interrupted = true
is_terminal_status _ = false

-- `current.status === incoming.kind`
abbrev pub status_is_kind : Status → Body → Bool
status_is_kind Status.pending Body.pending = true
status_is_kind Status.running Body.running = true
status_is_kind Status.stopping (Body.stopping r) = true
status_is_kind Status.succeeded (Body.succeeded o u) = true
status_is_kind Status.failed (Body.failed r u) = true
status_is_kind Status.cancelled (Body.cancelled r u) = true
status_is_kind Status.interrupted (Body.interrupted r u) = true
status_is_kind _ _ = false

abbrev pub is_pending_kind : Body → Bool
is_pending_kind Body.pending = true
is_pending_kind _ = false

-- The three rows of `permitsTransition` below its guards, by the snapshot's status.
abbrev pub permits_from : Status → Body → Bool
permits_from Status.pending (Body.output o) = false
permits_from Status.pending (Body.succeeded o u) = false
permits_from Status.pending b = true
permits_from Status.running Body.running = false
permits_from Status.running b = true
permits_from _ (Body.output o) = true
permits_from _ (Body.cancelled r u) = true
permits_from _ (Body.failed r u) = true
permits_from _ (Body.interrupted r u) = true
permits_from _ b = false

abbrev pub permits : ℕ → Status → Body → Bool
permits sequence status kind =
    if sequence == 0
    then is_pending_kind kind
    else if is_pending_kind kind || is_terminal_status status
    then false
    else permits_from status kind

unfoldable pub permits_transition : AttemptSnapshot → AttemptEvent → Bool
permits_transition s e = permits s.sequence s.status e.body

-- `status: incoming.kind === "output" ? current.status : incoming.kind`
abbrev pub next_status : Status → Body → Status
next_status s Body.pending = Status.pending
next_status s Body.running = Status.running
next_status s (Body.output o) = s
next_status s (Body.stopping r) = Status.stopping
next_status s (Body.succeeded o u) = Status.succeeded
next_status s (Body.failed r u) = Status.failed
next_status s (Body.cancelled r u) = Status.cancelled
next_status s (Body.interrupted r u) = Status.interrupted

-- The output of the event names another attempt than the event does.
abbrev pub is_foreign : Body → Text → Bool
is_foreign (Body.output o) attempt = not (text_eq o.attempt_id attempt)
is_foreign (Body.succeeded o u) attempt = not (text_eq o.attempt_id attempt)
is_foreign _ attempt = false

-- `!("terminalEventId" in current) || current.terminalEventId !== incoming.eventId`
abbrev pub terminal_differs : Option Text → Text → Bool
terminal_differs none i = true
terminal_differs (some j) i = not (text_eq j i)

abbrev pub output_conflicts : Status → Body → Bool
output_conflicts Status.running (Body.output o) = false
output_conflicts Status.stopping (Body.output o) = false
output_conflicts _ (Body.output o) = true
output_conflicts s b = not (status_is_kind s b)

-- What `prior.kind === "recorded"` still checks of a receipt for the same event.
unfoldable pub receipt_conflicts : AttemptSnapshot → AttemptEvent → Bool
receipt_conflicts s e =
    if is_terminal e.body
    then not (s.sequence == e.sequence)
      || not (status_is_kind s.status e.body)
      || terminal_differs s.terminal_event_id e.event_id
    else if e.sequence == s.sequence
    then output_conflicts s.status e.body
    else false

unfoldable pub next_snapshot : AttemptSnapshot → Identity → AttemptEvent → AttemptSnapshot
next_snapshot s active e = record {
  identity = active;
  status = next_status s.status e.body;
  sequence = e.sequence;
  terminal_event_id = if is_terminal e.body then some e.event_id else none;
}

abbrev pub decode_boundary {ℓ} : {A : Type ℓ} → (A → Bool) → A → Result Error A
decode_boundary valid a = if valid a then ok a else err malformed

unfoldable pub check_ownership : AttemptSnapshot → Identity → AttemptEvent → Result Error (Unit {0})
check_ownership s active e = do
  fail_if
      (not (text_eq s.identity.job_id active.job_id)
        || not (text_eq s.identity.attempt_id active.attempt_id)
        || not (text_eq e.identity.job_id active.job_id)
        || not (text_eq e.identity.attempt_id active.attempt_id))
      stale_attempt
  fail_if
      (not (text_eq s.identity.fence active.fence) || not (text_eq e.identity.fence active.fence))
      stale_fence
  fail_if (is_foreign e.body e.identity.attempt_id) foreign_output

module _ (is_uuid : Text → Bool) where
  unfoldable pub append_event : AttemptSnapshot → Identity → AttemptEvent → Result Error Decision
  append_event s active e = do
    fail_if (s.sequence == max_safe_integer || not (e.sequence == s.sequence + 1)) out_of_order
    fail_if (not (permits_transition s e)) invalid_transition
    next ← decode_boundary (valid_snapshot is_uuid) (next_snapshot s active e)
    ok (appended next e)

  unfoldable pub settle :
      AttemptSnapshot → Identity → EventReceipt → AttemptEvent → Result Error Decision
  settle s active absent e = append_event s active e
  settle s active (recorded prior) e = do
    fail_if (not (same_event prior e) || ltb s.sequence e.sequence) receipt_conflict
    fail_if (receipt_conflicts s e) receipt_conflict
    ok duplicate

  unfoldable pub decide_attempt_event :
      AttemptSnapshot → Identity → EventReceipt → AttemptEvent → Result Error Decision
  decide_attempt_event s owner receipt event = do
    current ← decode_boundary (valid_snapshot is_uuid) s
    active ← decode_boundary (valid_identity is_uuid) owner
    prior ← decode_boundary (valid_receipt is_uuid) receipt
    incoming ← decode_boundary (valid_event is_uuid) event
    check_ownership current active incoming
    settle current active prior incoming
