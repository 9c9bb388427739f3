-- ===== src/Loop.antt =====
-- ai/pi/extensions/classified-workflows/loop.ts: the recurring loop of a session.
-- The numbers of a `LoopState` are non-negative integers, as its decoder ensures; a message of
-- `LoopCommandError` is a constructor of `LoopError`.
pub mod Command
pub mod Stored
pub mod Schedule
pub mod Bounds
pub mod Duration
mod Tests
use dotconfig.Base.{ℕ, ◌*◌, Bool, ◌&&◌, Option, none, some, Text, leb, ltb, max_safe_integer}

pub data LoopStatus : Type 0 where
  active : LoopStatus
  cleared : (finished_at : ℕ) → LoopStatus

pub record LoopState : Type 0 where
  pub status : LoopStatus
  pub instruction : Text
  pub interval_ms : ℕ
  pub jitter_ms : Option ℕ
  pub started_at : ℕ
  pub next_run_at : ℕ
  pub runs : ℕ
  pub last_run_at : Option ℕ

pub data LoopCommand : Type 0 where
  status clear : LoopCommand
  set : (instruction : Text) (interval_ms : ℕ) (jitter_ms : Option ℕ) → LoopCommand

pub data LoopError : Type 0 where
  unknown_unit interval_too_short interval_too_long jitter_not_smaller : LoopError
  empty_instruction instruction_too_long : LoopError
  invalid_schedule invalid_jitter sampling_failed offset_out_of_bound : LoopError
  unsafe_arithmetic not_advanceable : LoopError

abbrev pub default_loop_interval_ms : ℕ
default_loop_interval_ms = 60 * 60 * 1_000

abbrev pub review_duty_loop_interval_ms : ℕ
review_duty_loop_interval_ms = 2 * 60 * 60 * 1_000

abbrev pub review_duty_loop_jitter_ms : ℕ
review_duty_loop_jitter_ms = 60 * 60 * 1_000

abbrev pub legacy_review_duty_loop_interval_ms : ℕ
legacy_review_duty_loop_interval_ms = 15 * 60 * 1_000

abbrev pub min_loop_interval_ms : ℕ
min_loop_interval_ms = 60 * 1_000

abbrev pub max_loop_interval_ms : ℕ
max_loop_interval_ms = 7 * 24 * 60 * 60 * 1_000

abbrev pub max_instruction_length : ℕ
max_instruction_length = 4_000

-- `isTimestamp`
abbrev pub is_timestamp : ℕ → Bool
is_timestamp n = leb n max_safe_integer

-- `isValidInterval`
abbrev pub is_valid_interval : ℕ → Bool
is_valid_interval n =
    leb n max_safe_integer && leb min_loop_interval_ms n && leb n max_loop_interval_ms

-- `isValidJitter`, of a jitter that is smaller than the interval.
abbrev pub jitter_fits : Option ℕ → ℕ → Bool
jitter_fits none interval = Bool.true
jitter_fits (some j) interval = is_valid_interval j && ltb j interval
