-- ===== src/Loop/Stored.antt =====
-- `parseStoredLoop` of loop.ts, for an unknown value and for a `LoopState`.
pub mod RoundTrip
use dotconfig.Base.{
  ℕ, ◌≡◌, Bool, true, ◌&&◌, Option, none, some, arith, codes, length, leb, if◌then◌else◌, Value,
  undefined, Fields, lookup_field, as_record, as_text, as_counter, is_text,
}
use dotconfig.Loop.{
  LoopStatus, active, cleared, LoopState, max_instruction_length, is_timestamp, is_valid_interval,
  jitter_fits,
}

infixl 5 ◌>>=◌
abbrev pub ◌>>=◌ {ℓ κ} : {A : Type ℓ} {B : Type κ} → Option A → (A → Option B) → Option B
none >>= f = none
some a >>= f = f a

-- `x === undefined || isTimestamp(x)`, with the number.
abbrev pub optional_counter : Value → Option (Option ℕ)
optional_counter undefined = some none
optional_counter v = do n ← as_counter v; some (some n)

abbrev pub stored_status : Fields → Option LoopStatus
stored_status fields =
    let status = lookup_field (codes "status") fields in
    if is_text status (codes "active")
    then some active
    else if is_text status (codes "cleared")
    then (do
      finished ← as_counter (lookup_field (codes "finishedAt") fields)
      some (cleared finished))
    else none

abbrev pub optional_timestamp : Option ℕ → Bool
optional_timestamp none = true
optional_timestamp (some n) = is_timestamp n

abbrev pub status_timestamp : LoopStatus → Bool
status_timestamp active = true
status_timestamp (cleared finished) = is_timestamp finished

-- The checks of the first block of `parseStoredLoop` on the fields of a state.
unfoldable pub valid_loop : LoopState → Bool
valid_loop s =
    leb 1 (length s.instruction)
    && leb (length s.instruction) max_instruction_length
    && is_timestamp s.started_at
    && is_timestamp s.next_run_at
    && is_timestamp s.runs
    && is_valid_interval s.interval_ms
    && jitter_fits s.jitter_ms s.interval_ms
    && optional_timestamp s.last_run_at
    && status_timestamp s.status

unfoldable pub parse_stored_loop : Value → Option LoopState
parse_stored_loop v = do
  fields ← as_record v
  instruction ← as_text (lookup_field (codes "instruction") fields)
  started ← as_counter (lookup_field (codes "startedAt") fields)
  next ← as_counter (lookup_field (codes "nextRunAt") fields)
  runs ← as_counter (lookup_field (codes "runs") fields)
  interval ← as_counter (lookup_field (codes "intervalMs") fields)
  jitter ← optional_counter (lookup_field (codes "jitterMs") fields)
  last ← optional_counter (lookup_field (codes "lastRunAt") fields)
  status ← stored_status fields
  (let state : LoopState = record {
    status = status;
    instruction = instruction;
    interval_ms = interval;
    jitter_ms = jitter;
    started_at = started;
    next_run_at = next;
    runs = runs;
    last_run_at = last;
  } in
      if valid_loop state then some state else none)

-- Whatever value is parsed, a state that comes out passes all the checks.
pub parse_stored_loop-valid_loop :
    (v : Value) (s : LoopState) → parse_stored_loop v ≡ some s → valid_loop s ≡ true
unfolding parse_stored_loop
parse_stored_loop-valid_loop v s h = ground arith
