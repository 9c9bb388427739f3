-- ===== src/JobAttempt/Schema.antt =====
-- The schemas of job-attempt.ts as tests on values of their types, and `sameEvent`.

use dotconfig.Base.{
  ℕ, length, ◌≡◌, ◌↔◌, Bool, true, false, ◌&&◌, ◌||◌, Option, none, some, arith, Text, text_eq,
  text_eq_iff, every, leb, ◌==◌, max_safe_integer,
}
use dotconfig.JobAttempt.{
  Identity, OutputReference, Usage, observed, unknown, StopReason, FailureReason,
  InterruptionReason, Body, AttemptEvent, Status, AttemptSnapshot, EventReceipt, absent, recorded,
}

-- A character of `/^[0-9a-f-]+$/`.
abbrev pub canonical_unit : ℕ → Bool
canonical_unit c = (leb b'0' c && leb c b'9') || (leb b'a' c && leb c b'f') || c == b'-'

abbrev pub non_empty : Text → Bool
non_empty s = leb 1 (length s)

abbrev pub in_counter : ℕ → Bool
in_counter n = leb n max_safe_integer

module _ (is_uuid : Text → Bool) where
  -- `CanonicalUuid`
  unfoldable pub valid_id : Text → Bool
  valid_id s = is_uuid s && (non_empty s && every canonical_unit s)

  unfoldable pub valid_identity : Identity → Bool
  valid_identity i = valid_id i.job_id && valid_id i.attempt_id && valid_id i.fence

  unfoldable pub valid_output : OutputReference → Bool
  valid_output o = valid_id o.attempt_id && valid_id o.output_id

  abbrev pub valid_usage : Usage → Bool
  valid_usage (observed n) = in_counter n
  valid_usage unknown = true

  unfoldable pub valid_body : Body → Bool
  valid_body Body.pending = true
  valid_body Body.running = true
  valid_body (Body.output o) = valid_output o
  valid_body (Body.stopping r) = true
  valid_body (Body.succeeded o u) = valid_output o && valid_usage u
  valid_body (Body.failed r u) = valid_usage u
  valid_body (Body.cancelled r u) = valid_usage u
  valid_body (Body.interrupted r u) = valid_usage u

  unfoldable pub valid_event : AttemptEvent → Bool
  valid_event e =
      valid_identity e.identity
      && valid_id e.event_id
      && leb 1 e.sequence
      && in_counter e.sequence
      && in_counter e.occurred_at
      && valid_body e.body

  abbrev pub valid_terminal : Option Text → Bool
  valid_terminal none = false
  valid_terminal (some i) = valid_id i

  abbrev pub no_terminal : Option Text → Bool
  no_terminal none = true
  no_terminal (some i) = false

  -- The four members of the union `AttemptSnapshot`, by status.
  abbrev pub valid_status : Status → ℕ → Option Text → Bool
  valid_status Status.pending n t = leb n 1 && no_terminal t
  valid_status Status.running n t = leb 2 n && in_counter n && no_terminal t
  valid_status Status.stopping n t = leb 2 n && in_counter n && no_terminal t
  valid_status Status.succeeded n t = leb 3 n && in_counter n && valid_terminal t
  valid_status _ n t = leb 2 n && in_counter n && valid_terminal t

  unfoldable pub valid_snapshot : AttemptSnapshot → Bool
  valid_snapshot s =
      valid_identity s.identity && valid_status s.status s.sequence s.terminal_event_id

  unfoldable pub valid_receipt : EventReceipt → Bool
  valid_receipt absent = true
  valid_receipt (recorded e) = valid_event e

-- `Schema.equivalence(AttemptEvent)`: equality field by field.
abbrev pub same_identity : Identity → Identity → Bool
same_identity i j =
    text_eq i.job_id j.job_id && text_eq i.attempt_id j.attempt_id && text_eq i.fence j.fence

abbrev pub same_output : OutputReference → OutputReference → Bool
same_output o p = text_eq o.attempt_id p.attempt_id && text_eq o.output_id p.output_id

abbrev pub same_usage : Usage → Usage → Bool
same_usage (observed m) (observed n) = m == n
same_usage unknown unknown = true
same_usage _ _ = false

abbrev pub same_stop : StopReason → StopReason → Bool
same_stop StopReason.user StopReason.user = true
same_stop StopReason.session_closed StopReason.session_closed = true
same_stop StopReason.budget StopReason.budget = true
same_stop _ _ = false

abbrev pub same_failure : FailureReason → FailureReason → Bool
same_failure FailureReason.blocked FailureReason.blocked = true
same_failure FailureReason.execution FailureReason.execution = true
same_failure FailureReason.timed_out FailureReason.timed_out = true
same_failure _ _ = false

abbrev pub same_interruption : InterruptionReason → InterruptionReason → Bool
same_interruption InterruptionReason.unconfirmed_exit InterruptionReason.unconfirmed_exit = true
same_interruption InterruptionReason.owner_lost InterruptionReason.owner_lost = true
same_interruption _ _ = false

unfoldable pub same_body : Body → Body → Bool
same_body Body.pending Body.pending = true
same_body Body.running Body.running = true
same_body (Body.output o) (Body.output p) = same_output o p
same_body (Body.stopping r) (Body.stopping q) = same_stop r q
same_body (Body.succeeded o u) (Body.succeeded p v) = same_output o p && same_usage u v
same_body (Body.failed r u) (Body.failed q v) = same_failure r q && same_usage u v
same_body (Body.cancelled r u) (Body.cancelled q v) = same_stop r q && same_usage u v
same_body (Body.interrupted r u) (Body.interrupted q v) = same_interruption r q && same_usage u v
same_body _ _ = false

unfoldable pub same_event : AttemptEvent → AttemptEvent → Bool
same_event e f =
    same_identity e.identity f.identity
    && text_eq e.event_id f.event_id
    && e.sequence == f.sequence
    && e.occurred_at == f.occurred_at
    && same_body e.body f.body

eq_of_same_body : (b c : Body) → same_body b c ≡ true → b ≡ c
unfolding same_body
eq_of_same_body (Body.output o) (Body.output p) h =
    ground (arith, text_eq_iff o.attempt_id p.attempt_id, text_eq_iff o.output_id p.output_id)
eq_of_same_body (Body.succeeded o u) (Body.succeeded p v) h =
    ground (arith, text_eq_iff o.attempt_id p.attempt_id, text_eq_iff o.output_id p.output_id)
eq_of_same_body _ _ h = ground arith

same_body_refl : (b : Body) → same_body b b ≡ true
unfolding same_body
same_body_refl (Body.output o) =
    ground (arith, text_eq_iff o.attempt_id o.attempt_id, text_eq_iff o.output_id o.output_id)
same_body_refl (Body.succeeded o u) =
    ground (arith, text_eq_iff o.attempt_id o.attempt_id, text_eq_iff o.output_id o.output_id)
same_body_refl _ = ground arith

-- `sameEvent` holds of equal events only.
pub same_event_iff : (e f : AttemptEvent) → (same_event e f ≡ true) ↔ (e ≡ f)
unfolding same_event
same_event_iff e f = ground (
  arith,
  text_eq_iff e.identity.job_id f.identity.job_id,
  text_eq_iff e.identity.attempt_id f.identity.attempt_id,
  text_eq_iff e.identity.fence f.identity.fence,
  text_eq_iff e.event_id f.event_id,
  eq_of_same_body e.body f.body,
  same_body_refl e.body,
)
