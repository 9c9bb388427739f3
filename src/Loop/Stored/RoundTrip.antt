-- ===== src/Loop/Stored/RoundTrip.antt =====
-- A loop that is stored as a JSON value is restored by `parseStoredLoop`.
use dotconfig.Base.{
  ℕ, ◌≡◌, refl, true, Option, none, some, arith, Text, codes, pos, Value, undefined, str, num, int,
  obj, Fields, field, end, lookup_field, as_counter, as_text,
}
use dotconfig.Loop.{LoopStatus, active, cleared, LoopState, jitter_fits, is_timestamp}
use dotconfig.Loop.Stored.{
  valid_loop, parse_stored_loop, optional_counter, optional_timestamp, status_timestamp,
  stored_status,
}

abbrev number_field : Text → Option ℕ → Fields → Fields
number_field k none fs = fs
number_field k (some n) fs = field k (num (int (pos n))) fs

abbrev status_fields : LoopStatus → Fields
status_fields active = field (codes "status") (str (codes "active")) end
status_fields (cleared finished) =
    field (codes "status") (str (codes "cleared"))
      (field (codes "finishedAt") (num (int (pos finished))) end)

abbrev fields_of : LoopState → Fields
fields_of s = field (codes "instruction") (str s.instruction) (
    field (codes "intervalMs") (num (int (pos s.interval_ms))) (
      field (codes "startedAt") (num (int (pos s.started_at))) (
        field (codes "nextRunAt") (num (int (pos s.next_run_at))) (
          field (codes "runs") (num (int (pos s.runs))) (
            number_field (codes "jitterMs") s.jitter_ms
              (number_field (codes "lastRunAt") s.last_run_at (status_fields s.status)))))))

-- The JSON value of a loop.
abbrev pub encode_loop : LoopState → Value
encode_loop s = obj (fields_of s)

abbrev number_value : Option ℕ → Value
number_value none = undefined
number_value (some n) = num (int (pos n))

module _ (s : LoopState) where
  lookup-jitter : lookup_field (codes "jitterMs") (fields_of s) ≡ number_value s.jitter_ms
  unfolding lookup_field
  lookup-jitter = ground arith

  lookup-last : lookup_field (codes "lastRunAt") (fields_of s) ≡ number_value s.last_run_at
  unfolding lookup_field
  lookup-last = ground arith

  stored_status-fields_of :
      status_timestamp s.status ≡ true → stored_status (fields_of s) ≡ some s.status
  unfolding lookup_field
  stored_status-fields_of h = ground arith

optional_counter-number_value :
    (o : Option ℕ) → optional_timestamp o ≡ true → optional_counter (number_value o) ≡ some o
optional_counter-number_value none h = refl
optional_counter-number_value (some n) h = ground arith

jitter_timestamp : (j : Option ℕ) (n : ℕ) → jitter_fits j n ≡ true → optional_timestamp j ≡ true
jitter_timestamp none n h = refl
jitter_timestamp (some j) n h = ground arith

as_counter_of : (n : ℕ) → is_timestamp n ≡ true → as_counter (num (int (pos n))) ≡ some n
as_counter_of n h = rw h

module _ (s : LoopState) (v : valid_loop s ≡ true) where
  valid_fields :
      (is_timestamp s.started_at ≡ true)
      × (is_timestamp s.next_run_at ≡ true)
      × (is_timestamp s.runs ≡ true)
      × (is_timestamp s.interval_ms ≡ true)
      × (jitter_fits s.jitter_ms s.interval_ms ≡ true)
      × (optional_timestamp s.last_run_at ≡ true)
      × (status_timestamp s.status ≡ true)
  unfolding valid_loop
  valid_fields = ground (arith, v)

  plain_parts :
      (as_text (lookup_field (codes "instruction") (fields_of s)) ≡ some s.instruction)
      × (as_counter (lookup_field (codes "startedAt") (fields_of s)) ≡ some s.started_at)
      × (as_counter (lookup_field (codes "nextRunAt") (fields_of s)) ≡ some s.next_run_at)
      × (as_counter (lookup_field (codes "runs") (fields_of s)) ≡ some s.runs)
      × (as_counter (lookup_field (codes "intervalMs") (fields_of s)) ≡ some s.interval_ms)
  unfolding lookup_field
  plain_parts =
      let (a, b, c, d, _, _, _) = valid_fields in
      (
        refl,
        as_counter_of s.started_at a,
        as_counter_of s.next_run_at b,
        as_counter_of s.runs c,
        as_counter_of s.interval_ms d,
      )

  part-jitter : optional_counter (lookup_field (codes "jitterMs") (fields_of s)) ≡ some s.jitter_ms
  part-jitter = rw (lookup-jitter s) (
      optional_counter-number_value s.jitter_ms
        (jitter_timestamp s.jitter_ms s.interval_ms valid_fields.4))

  part-last : optional_counter (lookup_field (codes "lastRunAt") (fields_of s)) ≡ some s.last_run_at
  part-last = rw (lookup-last s) (optional_counter-number_value s.last_run_at valid_fields.5)

  part-status : stored_status (fields_of s) ≡ some s.status
  part-status = stored_status-fields_of s valid_fields.6

-- A valid loop is restored from its JSON value as it was.
pub parse_stored_loop-encode_loop :
    (s : LoopState) → valid_loop s ≡ true → parse_stored_loop (encode_loop s) ≡ some s
unfolding parse_stored_loop
parse_stored_loop-encode_loop s v =
    let (a, b, c, d, e) = plain_parts s v in
    rw (a, b, c, d, e, part-jitter s v, part-last s v, part-status s v, v)
