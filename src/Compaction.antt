-- ===== src/Compaction.antt =====
-- ai/pi/extensions/safe-compaction/state.ts: the checkpoint that comes before a context is compacted.
-- `thresholdBlockedUntilInput` and `suppressAutomaticResume` are `true` or left out: Booleans here.
pub mod Decode
pub mod Recovery
pub mod Fallback
pub mod Progress
pub mod Restore
mod Tests
use dotconfig.Base.{ℕ, Bool, true, false, ◌&&◌, Text, codes, if◌then◌else◌}

pub data CompactionReason : Type 0 where
  manual threshold overflow : CompactionReason

pub data SafeCompactionState : Type 0 where
  idle : (threshold_blocked_until_input : Bool) → SafeCompactionState
  preparing : (reason : CompactionReason) (requested_at : ℕ) → SafeCompactionState
  ready :
      (reason : CompactionReason) (requested_at ready_at : ℕ) (resume_notes : Text)
      → SafeCompactionState
  forced :
      (reason : CompactionReason) (requested_at : ℕ) (resume_notes : Text)
      (suppress_automatic_resume : Bool)
      → SafeCompactionState

abbrev pub idle_safe_compaction_state : SafeCompactionState
idle_safe_compaction_state = idle false

abbrev pub threshold_blocked_safe_compaction_state : SafeCompactionState
threshold_blocked_safe_compaction_state = idle true

pub record BeforeCompactionTransition : Type 0 where
  pub state : SafeCompactionState
  pub cancel : Bool
  pub notify_preparation : Bool

abbrev pub overflow_notes : Text
overflow_notes =
    codes
      "Compaction was forced by context overflow. Reconcile the last assistant message and tool results; any displayed tool call without a successful result remains unfinished and must be reissued with complete arguments."

abbrev pub unacknowledged_notes : Text
unacknowledged_notes =
    codes
      "The bounded preparation turn ended without a readiness acknowledgement. Resume the active goal and todos, and treat every tool call lacking a successful tool result as unfinished."

-- The state that an overflow leaves.
unfoldable pub forced_by_overflow : SafeCompactionState → ℕ → SafeCompactionState
forced_by_overflow (idle blocked) now = forced overflow now overflow_notes blocked
forced_by_overflow (preparing reason requested) now = forced overflow requested overflow_notes false
forced_by_overflow (ready reason requested at notes) now = ready reason requested at notes
forced_by_overflow (forced reason requested notes quiet) now = forced reason requested notes quiet

abbrev pub is_threshold : CompactionReason → Bool
is_threshold threshold = true
is_threshold _ = false

-- The branches for the reasons `manual` and `threshold`.
unfoldable pub requested_transition :
    SafeCompactionState → CompactionReason → ℕ → BeforeCompactionTransition
requested_transition (idle blocked) reason now =
    if is_threshold reason && blocked
    then record { state = idle blocked; cancel = true; notify_preparation = false }
    else record { state = preparing reason now; cancel = true; notify_preparation = true }
requested_transition (preparing old requested) reason now = record {
  state = forced reason requested unacknowledged_notes false;
  cancel = false;
  notify_preparation = false;
}
requested_transition s reason now = record { state = s; cancel = false; notify_preparation = false }

unfoldable pub before_compaction_transition :
    SafeCompactionState → CompactionReason → ℕ → BeforeCompactionTransition
unfolding forced_by_overflow requested_transition
before_compaction_transition s overflow now = record {
  state = forced_by_overflow s now;
  cancel = false;
  notify_preparation = false;
}
before_compaction_transition s manual now = requested_transition s manual now
before_compaction_transition s threshold now = requested_transition s threshold now

pub data CompactionResumeMode : Type 0 where
  host_retry agent_settled manual_complete : CompactionResumeMode

unfoldable pub compaction_resume_mode : CompactionReason → Bool → CompactionResumeMode
compaction_resume_mode reason true = host_retry
compaction_resume_mode manual false = manual_complete
compaction_resume_mode reason false = agent_settled
