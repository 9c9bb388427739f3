-- ===== src/Loop/Schedule.antt =====
-- `nextLoopRunAt`, `advanceLoop` and `migrateReviewDutyLoopCadence` of loop.ts.
-- `randomInt` of node:crypto is the parameter `sample`: `sample j` is what it returned for the range
-- from -j to j, or `none` if it threw.
use dotconfig.Base.{
  ℕ, ◌+◌, Bool, true, false, not, ◌&&◌, ◌||◌, Option, none, some, Text, codes, text_eq, List, [],
  ◌∷◌, leb, ◌==◌, if◌then◌else◌, Result, ok, err, ◌>>=◌, ◌>>◌, fail_if, max_safe_integer, any,
  or_else, ℤ, pos, negsuc, ◌+ℤ◌, suc,
}
use dotconfig.Loop.{
  LoopStatus, active, cleared, LoopState, LoopError, invalid_schedule, invalid_jitter,
  sampling_failed, offset_out_of_bound, unsafe_arithmetic, not_advanceable, is_timestamp,
  is_valid_interval, jitter_fits, review_duty_loop_interval_ms, review_duty_loop_jitter_ms,
  legacy_review_duty_loop_interval_ms,
}
use dotconfig.Loop.Stored.{valid_loop}

-- `Math.abs(offset)`
abbrev pub abs : ℤ → ℕ
abs (pos n) = n
abs (negsuc n) = suc n

abbrev pub sampled : Option ℤ → Result LoopError ℤ
sampled none = err sampling_failed
sampled (some z) = ok z

-- The time `z` milliseconds from now, where that is positive and safe.
abbrev pub safe_next : ℤ → ℕ → Result LoopError ℕ
safe_next (pos d) now =
    if not (leb d max_safe_integer) || leb d 0 || not (is_timestamp (now + d))
    then err unsafe_arithmetic
    else ok (now + d)
safe_next (negsuc d) now = err unsafe_arithmetic

abbrev pub is_active : LoopStatus → Bool
is_active active = true
is_active (cleared finished) = false

module _ (sample : ℕ → Option ℤ) where
  abbrev pub jitter_offset : ℕ → Option ℤ → Result LoopError ℤ
  jitter_offset jitter (some z) = ok z
  jitter_offset jitter none = if jitter == 0 then ok (pos 0) else sampled (sample jitter)

  unfoldable pub next_loop_run_at : ℕ → Option ℕ → ℕ → Option ℤ → Result LoopError ℕ
  next_loop_run_at interval jitter_ms now given = do
    fail_if (not (is_timestamp now) || not (is_valid_interval interval)) invalid_schedule
    fail_if (not (jitter_fits jitter_ms interval)) invalid_jitter
    let jitter = or_else jitter_ms 0
    offset ← jitter_offset jitter given
    fail_if (not (leb (abs offset) max_safe_integer) || not (leb (abs offset) jitter))
        offset_out_of_bound
    safe_next (pos interval +ℤ offset) now

  unfoldable pub advance_loop : LoopState → ℕ → Option ℤ → Result LoopError LoopState
  advance_loop s now given = do
    fail_if (not (valid_loop s && is_active s.status) || leb max_safe_integer s.runs)
        not_advanceable
    next ← next_loop_run_at s.interval_ms s.jitter_ms now given
    ok (record s { next_run_at = next; runs = s.runs + 1; last_run_at = some now })

  abbrev pub review_duty_instructions : List Text
  review_duty_instructions =
      codes
        "Re-scan ST0x-Technology and rainlanguage PR duty; process newly actionable own and assigned-review work under the loaded repository and review policies, then remain operational."
      ∷ codes
          "Re-scan DataClique PR duty; process newly actionable own and assigned-review work under the loaded repository and review policies, then remain operational."
      ∷ codes
          "Re-scan 0xgleb personal-repository PR duty; process newly actionable own and assigned-review work under the loaded repository and review policies, then remain operational."
      ∷ []

  -- `state.jitterMs === REVIEW_DUTY_LOOP_JITTER_MS`
  abbrev pub has_duty_jitter : Option ℕ → Bool
  has_duty_jitter none = false
  has_duty_jitter (some j) = j == review_duty_loop_jitter_ms

  unfoldable pub needs_migration : LoopState → Bool
  unfolding text_eq
  needs_migration s =
      is_active s.status
      && (s.interval_ms == legacy_review_duty_loop_interval_ms
          || s.interval_ms == review_duty_loop_interval_ms)
      && not (has_duty_jitter s.jitter_ms)
      && any (λ t. text_eq t s.instruction) review_duty_instructions

  abbrev pub with_duty_cadence : LoopState → LoopState
  with_duty_cadence s = record s {
    interval_ms = review_duty_loop_interval_ms;
    jitter_ms = some review_duty_loop_jitter_ms;
  }

  unfoldable pub migrate_review_duty_loop_cadence :
      Option LoopState → ℕ → Option ℤ → Result LoopError (Option LoopState)
  unfolding needs_migration next_loop_run_at
  migrate_review_duty_loop_cadence none now given = ok none
  migrate_review_duty_loop_cadence (some s) now given =
      if needs_migration s
      then (do
        next ←
            next_loop_run_at review_duty_loop_interval_ms (some review_duty_loop_jitter_ms) now
              given
        ok (some (record (with_duty_cadence s) { next_run_at = next })))
      else ok none
