-- ===== src/Compaction/Decode.antt =====
-- `decodeSafeCompactionState` and `restoreSafeCompactionState` of safe-compaction/state.ts.
use mathlib.Core.List.{reverse}
use dotconfig.Base.{
  ℕ, Bool, true, false, ◌&&◌, Option, none, some, List, [], ◌∷◌, Text, codes, text_eq, take, Value,
  Fields, lookup_field, as_record, as_text, as_counter, is_text, is_true, is_undefined,
  if◌then◌else◌,
}
use dotconfig.Compaction.{
  CompactionReason, manual, threshold, overflow, SafeCompactionState, idle, preparing, ready,
  forced, idle_safe_compaction_state, threshold_blocked_safe_compaction_state,
}

infixl 5 ◌>>=◌
abbrev pub ◌>>=◌ {ℓ κ} : {A : Type ℓ} {B : Type κ} → Option A → (A → Option B) → Option B
none >>= f = none
some a >>= f = f a

-- `x === undefined` is false, `x === true` is true, anything else is refused.
abbrev pub optional_true : Value → Option Bool
optional_true v = if is_undefined v then some false else if is_true v then some true else none

abbrev pub decode_reason : Value → Option CompactionReason
decode_reason v =
    if is_text v (codes "manual")
    then some manual
    else if is_text v (codes "threshold")
    then some threshold
    else if is_text v (codes "overflow")
    then some overflow
    else none

-- `value.reason !== "overflow"`
abbrev pub requested_reason : CompactionReason → Option CompactionReason
requested_reason overflow = none
requested_reason r = some r

abbrev pub bounded_notes : Value → Option Text
bounded_notes v = do notes ← as_text v; some (take 4_000 notes)

unfoldable pub decode_phase : Fields → CompactionReason → ℕ → Option SafeCompactionState
decode_phase fields reason requested =
    let phase = lookup_field (codes "phase") fields in
    if is_text phase (codes "preparing")
    then (do r ← requested_reason reason; some (preparing r requested))
    else if is_text phase (codes "ready")
    then (do
      r ← requested_reason reason
      at ← as_counter (lookup_field (codes "readyAt") fields)
      notes ← bounded_notes (lookup_field (codes "resumeNotes") fields)
      some (ready r requested at notes))
    else if is_text phase (codes "forced")
    then (do
      notes ← bounded_notes (lookup_field (codes "resumeNotes") fields)
      quiet ← optional_true (lookup_field (codes "suppressAutomaticResume") fields)
      some (forced reason requested notes quiet))
    else none

abbrev pub decode_fields : Fields → Text → Option SafeCompactionState
decode_fields fields phase =
    if text_eq phase (codes "idle")
    then (do
      blocked ← optional_true (lookup_field (codes "thresholdBlockedUntilInput") fields)
      some (idle blocked))
    else (do
      requested ← as_counter (lookup_field (codes "requestedAt") fields)
      reason ← decode_reason (lookup_field (codes "reason") fields)
      decode_phase fields reason requested)

unfoldable pub decode_safe_compaction_state : Value → Option SafeCompactionState
unfolding decode_phase
decode_safe_compaction_state v = do
  fields ← as_record v
  phase ← as_text (lookup_field (codes "phase") fields)
  decode_fields fields phase

-- The state to go on with when a compaction came after `state` was recorded.
unfoldable pub after_compaction : SafeCompactionState → SafeCompactionState
after_compaction (idle blocked) = idle blocked
after_compaction (preparing manual requested) = idle_safe_compaction_state
after_compaction (ready manual requested at notes) = idle_safe_compaction_state
after_compaction (forced manual requested notes quiet) = idle_safe_compaction_state
after_compaction _ = threshold_blocked_safe_compaction_state

-- What an entry is to the loop of `restoreSafeCompactionState`.
pub data Entry : Type 0 where
  compaction : Entry
  recorded : SafeCompactionState → Entry
  other : Entry

abbrev pub recorded_or_other : Option SafeCompactionState → Entry
recorded_or_other none = other
recorded_or_other (some s) = recorded s

unfoldable pub read_entry : Value → Entry
read_entry v = elim (as_record v) [
  | none ↦ other
  | some fields ↦
      if is_text (lookup_field (codes "type") fields) (codes "compaction")
      then compaction
      else if is_text (lookup_field (codes "type") fields) (codes "custom")
          && is_text (lookup_field (codes "customType") fields) (codes "safe-compaction.state")
      then recorded_or_other (decode_safe_compaction_state (lookup_field (codes "data") fields))
      else other
]

-- The loop, over the entries from the last one on; the flag is `compactionObserved`.
unfoldable pub restore_from : Bool → List Value → SafeCompactionState
unfolding read_entry after_compaction
restore_from observed [] = idle_safe_compaction_state
restore_from observed (v ∷ vs) = elim (read_entry v) [
  | compaction ↦ restore_from true vs
  | recorded s ↦ if observed then after_compaction s else s
  | other ↦ restore_from observed vs
]

unfoldable pub restore_safe_compaction_state : List Value → SafeCompactionState
unfolding restore_from
restore_safe_compaction_state entries = restore_from false (reverse entries)
