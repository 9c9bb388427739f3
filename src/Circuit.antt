-- ===== src/Circuit.antt =====
-- ai/pi/extensions/classified-workflows/capability-circuit.ts and shared/capability-state.ts: a circuit
-- that opens when the agent says twice in a row that it has no tools.
pub mod Trips
mod Tests
use mathlib.Core.List.{reverse}
use dotconfig.Base.{
  ℕ, ◌+◌, Bool, true, false, ◌&&◌, not, Option, none, some, or_else, List, [], ◌∷◌, ◌++◌, Text,
  codes, contains_ci, any, leb, min, Value, Fields, lookup_field, as_record, as_array, as_text,
  as_bool, as_counter, is_text, if◌then◌else◌,
}

pub record CapabilityCircuitState : Type 0 where
  pub consecutive_blockers : ℕ
  pub is_open : Bool
  pub updated_at : ℕ

abbrev pub empty_capability_circuit : CapabilityCircuitState
empty_capability_circuit = record { consecutive_blockers = 0; is_open = false; updated_at = 0 }

abbrev pub same_bool : Bool → Bool → Bool
same_bool true b = b
same_bool false b = not b

-- The state, where the counter is at most 2 and the flag is right.
abbrev pub checked_circuit : Option ℕ → Option Bool → Option ℕ → Option CapabilityCircuitState
checked_circuit (some n) (some o) (some t) =
    if leb n 2 && same_bool o (leb 2 n)
    then some (record { consecutive_blockers = n; is_open = o; updated_at = t })
    else none
checked_circuit none o t = none
checked_circuit (some n) none t = none
checked_circuit (some n) (some o) none = none

unfoldable pub decode_capability_circuit : Value → Option CapabilityCircuitState
decode_capability_circuit v = elim (as_record v) [
  | none ↦ none
  | some fields ↦
      checked_circuit (as_counter (lookup_field (codes "consecutiveBlockers") fields))
        (as_bool (lookup_field (codes "open") fields))
        (as_counter (lookup_field (codes "updatedAt") fields))
]

pub data CapabilityOutcome : Type 0 where
  tool_used capability_blocked other : CapabilityOutcome

-- `candidate.type === "message" && isRecord(candidate.message) ? candidate.message : candidate`
abbrev pub message_in : Fields → Option Fields → Fields
message_in candidate none = candidate
message_in candidate (some message) =
    if is_text (lookup_field (codes "type") candidate) (codes "message") then message else candidate

unfoldable pub message_of : Fields → Fields
message_of candidate = message_in candidate (as_record (lookup_field (codes "message") candidate))

abbrev pub parts_of : Value → Option (List Value) → List Value
parts_of content none = content ∷ []
parts_of content (some vs) = vs

unfoldable pub message_parts : Fields → List Value
message_parts message =
    let content = lookup_field (codes "content") message in parts_of content (as_array content)

-- What a part of a message is to the inner loop of `capabilityOutcome`.
pub data Part : Type 0 where
  tool_call : Part
  said : Text → Part
  silent : Part

abbrev pub said_or_silent : Option Text → Part
said_or_silent none = silent
said_or_silent (some s) = said s

abbrev pub record_part : Value → Option Fields → Part
record_part v none = said_or_silent (as_text v)
record_part v (some fields) =
    if is_text (lookup_field (codes "type") fields) (codes "toolCall")
    then tool_call
    else if is_text (lookup_field (codes "type") fields) (codes "text")
    then said_or_silent (as_text (lookup_field (codes "text") fields))
    else silent

unfoldable pub read_part : Value → Part
read_part v = record_part v (as_record v)

-- The inner loop: `none` for a tool call, else the text so far.
unfoldable pub read_parts : Text → List Value → Option Text
unfolding read_part
read_parts said_before [] = some said_before
read_parts said_before (v ∷ vs) = elim (read_part v) [
  | tool_call ↦ none
  | said s ↦ read_parts (said_before ++ b' ' ∷ s) vs
  | silent ↦ read_parts said_before vs
]

-- The parts of the message, if it is the assistant's.
abbrev pub assistant_parts : Option Fields → List Value
assistant_parts none = []
assistant_parts (some candidate) =
    let message = message_of candidate in
    if is_text (lookup_field (codes "role") message) (codes "assistant")
    then message_parts message
    else []

unfoldable pub read_messages : Text → List Value → Option Text
unfolding read_parts
read_messages said_before [] = some said_before
read_messages said_before (v ∷ vs) = elim (read_parts said_before (assistant_parts (as_record v))) [
  | none ↦ none
  | some s ↦ read_messages s vs
]

-- The texts that the pattern stands for, its optional parts written out.
abbrev pub blocked_phrases : List Text
blocked_phrases =
    codes "tool disabled"
    ∷ codes "tools disabled"
    ∷ codes "tool are disabled"
    ∷ codes "tools are disabled"
    ∷ codes "tool remain disabled"
    ∷ codes "tools remain disabled"
    ∷ codes "tool seem disabled"
    ∷ codes "tools seem disabled"
    ∷ codes "tool unavailable"
    ∷ codes "tools unavailable"
    ∷ codes "tool are unavailable"
    ∷ codes "tools are unavailable"
    ∷ codes "tool remain unavailable"
    ∷ codes "tools remain unavailable"
    ∷ codes "tool seem unavailable"
    ∷ codes "tools seem unavailable"
    ∷ codes "cannot use tool"
    ∷ codes "cannot use the tool"
    ∷ codes "cannot access tool"
    ∷ codes "cannot access the tool"
    ∷ codes "communication-only restriction"
    ∷ codes "communication-only turn"
    ∷ []

abbrev pub outcome_from : Option Text → CapabilityOutcome
outcome_from none = tool_used
outcome_from (some s) =
    if any (λ p. contains_ci p s) blocked_phrases then capability_blocked else other

unfoldable pub capability_outcome : List Value → CapabilityOutcome
unfolding read_messages contains_ci
capability_outcome messages = outcome_from (read_messages [] messages)

unfoldable pub advance_capability_circuit :
    CapabilityCircuitState → CapabilityOutcome → ℕ → CapabilityCircuitState
advance_capability_circuit s tool_used now = record {
  consecutive_blockers = 0;
  is_open = false;
  updated_at = now;
}
advance_capability_circuit s capability_blocked now = record {
  consecutive_blockers = min 2 (s.consecutive_blockers + 1);
  is_open = leb 2 (min 2 (s.consecutive_blockers + 1));
  updated_at = now;
}
advance_capability_circuit s other now = s

abbrev pub is_circuit_entry : Option Fields → Bool
is_circuit_entry none = false
is_circuit_entry (some fields) =
    is_text (lookup_field (codes "type") fields) (codes "custom")
    && is_text (lookup_field (codes "customType") fields)
        (codes "classified-workflows.capability-circuit")

abbrev pub entry_data : Option Fields → Value
entry_data none = Value.undefined
entry_data (some fields) = lookup_field (codes "data") fields

unfoldable pub restore_from : List Value → CapabilityCircuitState
unfolding decode_capability_circuit
restore_from [] = empty_capability_circuit
restore_from (v ∷ vs) =
    let rest = restore_from vs in
    if is_circuit_entry (as_record v)
    then or_else (decode_capability_circuit (entry_data (as_record v))) empty_capability_circuit
    else rest

unfoldable pub restore_capability_circuit : List Value → CapabilityCircuitState
unfolding restore_from
restore_capability_circuit entries = restore_from (reverse entries)
