-- ===== src/Loop/Tests.antt =====
-- Runs of loop.ts, and the theorems at concrete loops.
use dotconfig.Base.{
  ℕ, ◌+◌, ◌≤◌, ◌<◌, ◌≡◌, refl, true, Option, none, some, arith, Text, codes, ok, err, ℤ, pos,
  negsuc, is_space, trim, trim_start, text_eq, decimal, lookup_field, max_safe_integer, IsTrimmed,
}
use dotconfig.Loop.{
  active, LoopState, set, clear, interval_too_short, jitter_not_smaller, offset_out_of_bound,
}
use dotconfig.Loop.Command.{
  parse_loop_command_result, parse_input, match_command, parse_interval_result, set_command,
  migrate_legacy_reload_loop, is_legacy_reload,
}
use dotconfig.Loop.Command.RoundTrip.{written, parse-written}
use dotconfig.Loop.Stored.{valid_loop, parse_stored_loop}
use dotconfig.Loop.Stored.RoundTrip.{encode_loop, parse_stored_loop-encode_loop}
use dotconfig.Loop.Schedule.{
  next_loop_run_at, advance_loop, migrate_review_duty_loop_cadence, is_active,
}
use dotconfig.Loop.Bounds.{next_loop_run_at_bounds, next_loop_run_at_total, advance_loop-valid_loop}
use dotconfig.Loop.Duration.{format_duration, format_loop_status, loop_dispatch, reload_runtime}

loops : Unit {0}
unfolding parse_loop_command_result parse_input match_command parse_interval_result set_command
    migrate_legacy_reload_loop is_legacy_reload valid_loop parse_stored_loop next_loop_run_at
    advance_loop migrate_review_duty_loop_cadence format_duration format_loop_status loop_dispatch
    trim is_space trim_start text_eq decimal lookup_field
loops = tt

-- Stands for `randomInt`: always the upper end.
abbrev latest : ℕ → Option ℤ
latest j = some (pos j)

abbrev fix_tests : Text
fix_tests = codes "fix tests"

parse_tests :
    (parse_loop_command_result (codes " 2h+-30m  fix tests ")
      ≡ ok (set fix_tests 7_200_000 (some 1_800_000)))
    × (parse_loop_command_result (codes "Clear") ≡ ok clear)
    × (parse_loop_command_result (codes "fix tests") ≡ ok (set fix_tests 3_600_000 none))
    × (parse_loop_command_result (codes "59s fix") ≡ err interval_too_short)
    × (parse_loop_command_result (codes "1h+-60m fix") ≡ err jitter_not_smaller)
unfolding loops
parse_tests = (refl, refl, refl, refl, refl)

abbrev hourly : LoopState
hourly = record {
  status = active;
  instruction = fix_tests;
  interval_ms = 3_600_000;
  jitter_ms = some 60_000;
  started_at = 5;
  next_run_at = 3_600_005;
  runs = 0;
  last_run_at = none;
}

abbrev hourly_next : LoopState
hourly_next = record hourly { next_run_at = 7_260_005; runs = 1; last_run_at = some 3_600_005 }

schedule_tests :
    (advance_loop latest hourly 3_600_005 none ≡ ok hourly_next)
    × (advance_loop latest hourly 3_600_005 (some (negsuc 60_000)) ≡ err offset_out_of_bound)
    × (format_duration 5_400_000 ≡ codes "1h 30m")
    × (loop_dispatch (record hourly { instruction = codes "/Reload now" }) ≡ reload_runtime)
    × (migrate_legacy_reload_loop (codes "5m /reload") 5
        ≡ some (record hourly { instruction = codes "/reload"; jitter_ms = none }))
unfolding loops
schedule_tests = (refl, refl, refl, refl, refl)

next_loop_run_at_bounds_example :
    (3_600_005 < 7_260_005)
    × (3_600_005 + 3_600_000 ≤ 7_260_005 + 60_000)
    × (7_260_005 ≤ 3_600_005 + 3_600_000 + 60_000)
    × (7_260_005 ≤ max_safe_integer)
unfolding loops
next_loop_run_at_bounds_example =
    next_loop_run_at_bounds latest 3_600_000 (some 60_000) 3_600_005 none 7_260_005 refl

next_loop_run_at_total_example :
    (next : ℕ) × (next_loop_run_at latest 3_600_000 (some 60_000) 5 none ≡ ok next)
next_loop_run_at_total_example =
    next_loop_run_at_total latest 3_600_000 (some 60_000) 5 (pos 60_000) refl refl refl
      (omega arith) (omega arith)

advance_loop-valid_loop_example :
    (valid_loop hourly_next ≡ true)
    × (is_active active ≡ true)
    × (1 ≡ 0 + 1)
    × (hourly_next.last_run_at ≡ some 3_600_005)
    × (3_600_005 < 7_260_005)
    × (fix_tests ≡ fix_tests)
    × (◌≡◌ {A = ℕ} 3_600_000 3_600_000)
    × (hourly_next.jitter_ms ≡ some 60_000)
advance_loop-valid_loop_example =
    advance_loop-valid_loop latest hourly hourly_next 3_600_005 none schedule_tests.0

fix_tests-IsTrimmed : IsTrimmed fix_tests
unfolding loops
fix_tests-IsTrimmed = (refl, refl)

-- `15m+-5m` before the instruction
parse-written_example :
    parse_loop_command_result (written 15 b'm' (some (5, b'm')) fix_tests)
    ≡ ok (set fix_tests 900_000 (some 300_000))
parse-written_example =
    parse-written 15 b'm' 900_000 (some (5, b'm')) (some 300_000) fix_tests
      (record { multiplier = 60_000; of_unit = refl; product = refl; valid = refl })
      (record { multiplier = 60_000; of_unit = refl; product = refl; valid = refl }, omega arith)
      fix_tests-IsTrimmed (omega arith)

parse_stored_loop-encode_loop_example :
    parse_stored_loop (encode_loop hourly_next) ≡ some hourly_next
unfolding loops
parse_stored_loop-encode_loop_example = parse_stored_loop-encode_loop hourly_next refl
