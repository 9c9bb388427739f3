-- ===== src/Loop/Command.antt =====
-- `parseLoopCommandResult`, `migrateLegacyReloadLoop` and `loopDispatch` of loop.ts.
-- The pattern `^(\d+)([smhd])(?:\+-(\d+)([smhd]))?\s+(.+)$` is read from left to right: none of its parts
-- can match in two ways, and the input is trimmed, so that its last group is never empty.
pub mod RoundTrip
use dotconfig.Base.{
  ℕ, ◌+◌, ◌*◌, Bool, true, false, not, ◌&&◌, ◌||◌, Option, none, some, [], ◌∷◌, map, Text, codes,
  text_eq, trim, trim_start, is_space, lower, starts_with_ci, span_digits, number_from, length,
  drop, leb, ltb, ◌==◌, if◌then◌else◌, Result, ok, err, ◌>>=◌, ◌>>◌, fail_if, max_safe_integer,
}
use dotconfig.Loop.{
  LoopState, active, LoopCommand, status, clear, set, LoopError, unknown_unit, interval_too_short,
  interval_too_long, jitter_not_smaller, empty_instruction, instruction_too_long,
  default_loop_interval_ms, min_loop_interval_ms, max_loop_interval_ms, max_instruction_length,
  is_timestamp,
}

-- `INTERVAL_MULTIPLIERS`
abbrev pub interval_multiplier : ℕ → Option ℕ
interval_multiplier unit =
    if unit == b's'
    then some 1_000
    else if unit == b'm'
    then some 60_000
    else if unit == b'h'
    then some 3_600_000
    else if unit == b'd'
    then some 86_400_000
    else none

unfoldable pub check_interval : ℕ → Result LoopError ℕ
check_interval interval =
    if not (leb interval max_safe_integer) || ltb interval min_loop_interval_ms
    then err interval_too_short
    else if ltb max_loop_interval_ms interval
    then err interval_too_long
    else ok interval

unfoldable pub parse_interval_result : ℕ → ℕ → Result LoopError ℕ
unfolding check_interval
parse_interval_result amount unit = elim (interval_multiplier unit) [
  | none ↦ err unknown_unit
  | some multiplier ↦ check_interval (amount * multiplier)
]

-- `(\d+)([smhd])`: the number, the unit in lower case, and the rest.
pub record Token : Type 0 where
  pub amount : ℕ
  pub unit : ℕ
  pub rest : Text

unfoldable pub token_of : Text × Text → Option Token
token_of ([], rest) = none
token_of (d ∷ ds, []) = none
token_of (d ∷ ds, c ∷ rest) =
    if lower c == b's' || lower c == b'm' || lower c == b'h' || lower c == b'd'
    then some (record { amount = number_from 0 (d ∷ ds); unit = lower c; rest = rest })
    else none

unfoldable pub read_token : Text → Option Token
unfolding token_of span_digits number_from
read_token s = token_of (span_digits s)

-- `\+-(\d+)([smhd])`
unfoldable pub read_jitter : Text → Option Token
unfolding read_token
read_jitter (c ∷ d ∷ s) = if c == b'+' && d == b'-' then read_token s else none
read_jitter _ = none

pub record CommandMatch : Type 0 where
  pub interval : Token
  pub jitter : Option Token
  pub instruction : Text

-- `\s+(.+)$` after the two tokens.
unfoldable pub read_instruction : Token → Option Token → Text → Option CommandMatch
unfolding is_space trim_start
read_instruction interval jitter [] = none
read_instruction interval jitter (c ∷ s) =
    if is_space c
    then some (record { interval = interval; jitter = jitter; instruction = trim_start s })
    else none

unfoldable pub match_command : Text → Option CommandMatch
unfolding read_token read_jitter read_instruction
match_command s = elim (read_token s) [
  | none ↦ none
  | some interval ↦ elim (read_jitter interval.rest) [
    | none ↦ read_instruction interval none interval.rest
    | some jitter ↦ read_instruction interval (some jitter) jitter.rest
  ]
]

abbrev pub token_result : Token → Result LoopError ℕ
token_result t = parse_interval_result t.amount t.unit

-- `match?.[3] ? parseIntervalResult(…) : undefined`
abbrev pub jitter_result : Option Token → Result LoopError (Option ℕ)
jitter_result none = ok none
jitter_result (some t) = do j ← token_result t; ok (some j)

abbrev pub jitter_too_large : Option ℕ → ℕ → Bool
jitter_too_large none interval = false
jitter_too_large (some j) interval = leb interval j

-- From the interval, the jitter and the instruction before it is trimmed.
unfoldable pub set_command : ℕ → Option ℕ → Text → Result LoopError LoopCommand
set_command interval jitter text = do
  fail_if (jitter_too_large jitter interval) jitter_not_smaller
  let instruction = trim text
  fail_if (length instruction == 0) empty_instruction
  fail_if (ltb max_instruction_length (length instruction)) instruction_too_long
  ok (set instruction interval jitter)

abbrev pub from_match : Text → Option CommandMatch → Result LoopError LoopCommand
from_match input none = set_command default_loop_interval_ms none input
from_match input (some m) = do
  interval ← token_result m.interval
  jitter ← jitter_result m.jitter
  set_command interval jitter m.instruction

unfoldable pub parse_input : Text → Result LoopError LoopCommand
parse_input input =
    if length input == 0 || text_eq (map lower input) (codes "status")
    then ok status
    else if text_eq (map lower input) (codes "clear")
    then ok clear
    else from_match input (match_command input)

unfoldable pub parse_loop_command_result : Text → Result LoopError LoopCommand
parse_loop_command_result args = parse_input (trim args)

-- `(?:\s|$)`
abbrev pub ends_word : Text → Bool
ends_word [] = true
ends_word (c ∷ s) = is_space c

-- `/^\/reload(?:\s|$)/i`
unfoldable pub is_reload : Text → Bool
unfolding starts_with_ci
is_reload s = starts_with_ci (codes "/reload") s && ends_word (drop 7 s)

-- `/^\d+[smhd]\s+\/reload(?:\s|$)/i`
unfoldable pub is_legacy_reload : Text → Bool
unfolding read_token is_reload trim_start
is_legacy_reload s = elim (read_token s) [
  | none ↦ false
  | some t ↦ ends_word t.rest && not (length t.rest == 0) && is_reload (trim_start t.rest)
]

abbrev pub legacy_from : ℕ → Result LoopError LoopCommand → Option LoopState
legacy_from now (ok (set instruction interval jitter)) =
    if not (is_timestamp now) || not (is_timestamp (now + default_loop_interval_ms))
    then none
    else some (record {
      status = active;
      instruction = instruction;
      interval_ms = default_loop_interval_ms;
      jitter_ms = none;
      started_at = now;
      next_run_at = now + default_loop_interval_ms;
      runs = 0;
      last_run_at = none;
    })
legacy_from now _ = none

unfoldable pub migrate_legacy_reload_loop : Text → ℕ → Option LoopState
migrate_legacy_reload_loop condition now =
    if is_legacy_reload (trim condition)
    then legacy_from now (parse_loop_command_result condition)
    else none
