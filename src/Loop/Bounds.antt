-- ===== src/Loop/Bounds.antt =====
-- When the next run is, that advancing a loop keeps it valid, and what the commands can set.
use dotconfig.Base.{
  ℕ, suc, ◌+◌, ◌-◌, ◌≤◌, ◌<◌, ◌≡◌, refl, true, false, Option, none, some, arith, Text, length, leb,
  ok, max_safe_integer, ℤ, pos, negsuc, or_else, trim, >>=-eq-ok,
}
use dotconfig.Loop.{
  LoopState, LoopCommand, set, is_valid_interval, jitter_fits, max_instruction_length,
  default_loop_interval_ms,
}
use dotconfig.Loop.Command.{
  CommandMatch, Token, parse_interval_result, set_command, from_match, jitter_result,
  jitter_too_large, match_command, token_result, parse_input, parse_loop_command_result,
}
use dotconfig.Loop.Stored.{valid_loop}
use dotconfig.Loop.Schedule.{is_active, next_loop_run_at, advance_loop, abs}

module _ (sample : ℕ → Option ℤ) where
  -- A next run that is scheduled is after now, at most the jitter (or 0) away from one interval later,
  -- and at most `Number.MAX_SAFE_INTEGER`.
  pub next_loop_run_at_bounds :
      (interval : ℕ) (jitter : Option ℕ) (now : ℕ) (given : Option ℤ) (next : ℕ)
      → next_loop_run_at sample interval jitter now given ≡ ok next
      → (now < next)
        × (now + interval ≤ next + or_else jitter 0)
        × (next ≤ now + interval + or_else jitter 0)
        × (next ≤ max_safe_integer)
  unfolding next_loop_run_at
  next_loop_run_at_bounds interval jitter now given next h = ground arith

  -- With a valid interval, a jitter below it, a sampler that stays in its range and room below
  -- `Number.MAX_SAFE_INTEGER`, a next run is always found.
  pub next_loop_run_at_total :
      (interval : ℕ) (jitter : Option ℕ) (now : ℕ) (z : ℤ)
      → is_valid_interval interval ≡ true
      → jitter_fits jitter interval ≡ true
      → sample (or_else jitter 0) ≡ some z
      → abs z ≤ or_else jitter 0
      → now + interval + or_else jitter 0 ≤ max_safe_integer
      → (next : ℕ) × (next_loop_run_at sample interval jitter now none ≡ ok next)
  unfolding next_loop_run_at
  next_loop_run_at_total interval none now z i j s a m = (now + interval, ground arith)
  next_loop_run_at_total interval (some d) now (pos n) i j s a m =
      (now + (interval + n), ground arith)
  next_loop_run_at_total interval (some d) now (negsuc n) i j s a m =
      (now + (interval - suc n), ground arith)

  advance-scheduled :
      (s t : LoopState) (now : ℕ) (given : Option ℤ)
      → advance_loop sample s now given ≡ ok t
      → (next_loop_run_at sample s.interval_ms s.jitter_ms now given ≡ ok t.next_run_at)
        × (leb now max_safe_integer ≡ true)
  unfolding advance_loop next_loop_run_at
  advance-scheduled s t now given h = ground arith

  -- An advance that succeeds gives a valid active loop with the same instruction, interval and jitter,
  -- one more run, the time as the last run, and a next run after it.
  pub advance_loop-valid_loop :
      (s t : LoopState) (now : ℕ) (given : Option ℤ)
      → advance_loop sample s now given ≡ ok t
      → (valid_loop t ≡ true)
        × (is_active t.status ≡ true)
        × (t.runs ≡ s.runs + 1)
        × (t.last_run_at ≡ some now)
        × (now < t.next_run_at)
        × (t.instruction ≡ s.instruction)
        × (t.interval_ms ≡ s.interval_ms)
        × (t.jitter_ms ≡ s.jitter_ms)
  unfolding advance_loop valid_loop
  advance_loop-valid_loop s t now given h = ground (
    arith,
    next_loop_run_at_bounds s.interval_ms s.jitter_ms now given t.next_run_at,
    advance-scheduled s t now given h,
  )

abbrev pub IsBounded : LoopCommand → Type 0
IsBounded (set instruction interval jitter) =
    (1 ≤ length instruction)
    × (length instruction ≤ max_instruction_length)
    × (is_valid_interval interval ≡ true)
    × (jitter_fits jitter interval ≡ true)
IsBounded _ = Unit

parse_interval_result-valid :
    (amount unit interval : ℕ)
    → parse_interval_result amount unit ≡ ok interval
    → is_valid_interval interval ≡ true
unfolding parse_interval_result
parse_interval_result-valid amount unit interval h = ground arith

jitter_result-fits :
    (t : Option Token) (jitter : Option ℕ) (interval : ℕ)
    → jitter_result t ≡ ok jitter
    → jitter_too_large jitter interval ≡ false
    → jitter_fits jitter interval ≡ true
jitter_result-fits none jitter interval h k = ground arith
jitter_result-fits (some t) none interval h k = ground arith
jitter_result-fits (some t) (some j) interval h k =
    ground (arith, parse_interval_result-valid t.amount t.unit j)

set_command-IsBounded :
    (interval : ℕ) (jitter : Option ℕ) (text : Text) (c : LoopCommand)
    → is_valid_interval interval ≡ true
    → (jitter_too_large jitter interval ≡ false → jitter_fits jitter interval ≡ true)
    → set_command interval jitter text ≡ ok c
    → IsBounded c
unfolding set_command
set_command-IsBounded interval jitter text c i j h = ground arith

from_match-IsBounded :
    (input : Text) (m : Option CommandMatch) (c : LoopCommand)
    → from_match input m ≡ ok c
    → IsBounded c
from_match-IsBounded input none c h =
    set_command-IsBounded default_loop_interval_ms none input c refl (λ k. refl) h
from_match-IsBounded input (some m) c h =
    let (interval, hi, h') = >>=-eq-ok (token_result m.interval) _ h in
    let (jitter, hj, h'') = >>=-eq-ok (jitter_result m.jitter) _ h' in
    set_command-IsBounded interval jitter m.instruction c
      (parse_interval_result-valid m.interval.amount m.interval.unit interval hi)
      (jitter_result-fits m.jitter jitter interval hj) h''

-- A command that is accepted is bounded: an interval of one minute to seven days, a jitter of at
-- least one minute below the interval if there is one, and 1 to 4000 units of instruction.
pub parse_loop_command_result-IsBounded :
    (args : Text) (c : LoopCommand) → parse_loop_command_result args ≡ ok c → IsBounded c
unfolding parse_loop_command_result parse_input
parse_loop_command_result-IsBounded args c h =
    ground (arith, from_match-IsBounded (trim args) (match_command (trim args)) c)
