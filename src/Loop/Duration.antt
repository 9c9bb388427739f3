-- ===== src/Loop/Duration.antt =====
-- `loopDispatch`, `formatDuration`, `formatUntil` and `formatLoopStatus` of loop.ts.
use Prim.Native.Nat.{max}
use dotconfig.Base.{
  ℕ, ◌+◌, ◌-◌, ◌*◌, ◌/◌, ◌%◌, ◌≤◌, ◌<◌, Option, none, some, [], ◌∷◌, ◌++◌, Text, codes, decimal,
  trim, leb, ltb, ◌==◌, arith, if◌then◌else◌,
}
use dotconfig.Loop.{LoopStatus, active, cleared, LoopState}
use dotconfig.Loop.Command.{is_reload}

pub data LoopDispatch : Type 0 where
  reload_runtime : LoopDispatch
  prompt : Text → LoopDispatch

unfoldable pub loop_dispatch : LoopState → LoopDispatch
unfolding is_reload trim decimal
loop_dispatch s =
    if is_reload (trim s.instruction)
    then reload_runtime
    else prompt (
        codes "Recurring loop run #"
        ++ decimal s.runs
        ++ codes " (infinite):"
        ++ 10 ∷ s.instruction)

-- `Math.max(1, Math.ceil(milliseconds / 60_000))`
abbrev pub duration_minutes : ℕ → ℕ
duration_minutes ms = max 1 ((ms + 59_999) / 60_000)

unfoldable pub format_minutes : ℕ → Text
unfolding decimal
format_minutes minutes =
    if ltb minutes 60
    then decimal minutes ++ codes "m"
    else if ltb minutes 1_440
    then if minutes % 60 == 0
      then decimal (minutes / 60) ++ codes "h"
      else decimal (minutes / 60) ++ codes "h " ++ decimal (minutes % 60) ++ codes "m"
    else if minutes % 1_440 / 60 == 0
    then decimal (minutes / 1_440) ++ codes "d"
    else decimal (minutes / 1_440) ++ codes "d " ++ decimal (minutes % 1_440 / 60) ++ codes "h"

unfoldable pub format_duration : ℕ → Text
unfolding format_minutes
format_duration ms = format_minutes (duration_minutes ms)

-- `formatUntil(next - now)`
unfoldable pub format_until : ℕ → ℕ → Text
unfolding format_duration
format_until next now =
    if leb next now then codes "due now" else codes "in " ++ format_duration (next - now)

abbrev pub format_jitter : Option ℕ → Text
format_jitter none = []
format_jitter (some j) = codes " ± " ++ format_duration j

abbrev pub status_word : LoopStatus → Text
status_word active = codes "active"
status_word (cleared finished) = codes "cleared"

abbrev pub next_words : LoopState → LoopStatus → ℕ → Text
next_words s active now = codes "next " ++ format_until s.next_run_at now
next_words s (cleared finished) now = codes "stopped"

unfoldable pub format_loop_status : Option LoopState → ℕ → Text
unfolding format_until format_duration
format_loop_status none now = codes "No recurring loop has been set in this session."
format_loop_status (some s) now =
    codes "Loop ("
    ++ status_word s.status
    ++ codes ", infinite): every "
    ++ format_duration s.interval_ms
    ++ format_jitter s.jitter_ms
    ++ codes " · "
    ++ next_words s s.status now
    ++ codes " · "
    ++ decimal s.runs
    ++ codes " runs"
    ++ 10 ∷ s.instruction

-- The minutes shown are the time rounded up, and at least one.
pub duration_minutes_bounds :
    (ms : ℕ)
    → (1 ≤ duration_minutes ms)
      × (ms ≤ 60_000 * duration_minutes ms)
      × (1 ≤ ms → 60_000 * duration_minutes ms < ms + 60_000)
duration_minutes_bounds ms = ground arith
