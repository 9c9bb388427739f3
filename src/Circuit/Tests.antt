-- ===== src/Circuit/Tests.antt =====
-- Runs of capability-circuit.ts, and the theorems at concrete outcomes.
use dotconfig.Base.{
  ◌≡◌, refl, true, [], ◌∷◌, codes, text_eq, lookup_field, contains_ci, starts_with_ci, Value, str,
  obj, arr, nil, cons, field, end,
}
use dotconfig.Circuit.{
  CapabilityCircuitState, tool_used, capability_blocked, other, empty_capability_circuit,
  advance_capability_circuit, decode_capability_circuit, capability_outcome, read_messages,
  read_parts, read_part, message_of, message_parts, restore_capability_circuit, restore_from,
}
use dotconfig.Circuit.Trips.{
  run, blocked_in_a_row, IsCounting, run-IsCounting_from_empty, encode_circuit,
}

circuits : Unit {0}
unfolding capability_outcome read_messages read_parts read_part message_of message_parts run
    blocked_in_a_row advance_capability_circuit decode_capability_circuit restore_capability_circuit
    restore_from lookup_field text_eq contains_ci starts_with_ci
circuits = tt

-- A message of the assistant with these parts.
abbrev message : Value → Value
message content =
    obj (field (codes "role") (str (codes "assistant")) (field (codes "content") content end))

abbrev tool_call_part : Value
tool_call_part = obj (field (codes "type") (str (codes "toolCall")) end)

outcome_tests :
    (capability_outcome (message (str (codes "I Cannot use THE tools.")) ∷ []) ≡ capability_blocked)
    × (capability_outcome (message (str (codes "I can use them.")) ∷ []) ≡ other)
    × (capability_outcome
          (message (str (codes "tools disabled")) ∷ message (arr (cons tool_call_part nil)) ∷ [])
        ≡ tool_used)
unfolding circuits
outcome_tests = (refl, refl, refl)

run-IsCounting_from_empty_example :
    IsCounting
      (blocked_in_a_row 0 ((capability_blocked, 1) ∷ (other, 2) ∷ (capability_blocked, 3) ∷ []))
      (run empty_capability_circuit
        ((capability_blocked, 1) ∷ (other, 2) ∷ (capability_blocked, 3) ∷ []))
run-IsCounting_from_empty_example =
    run-IsCounting_from_empty ((capability_blocked, 1) ∷ (other, 2) ∷ (capability_blocked, 3) ∷ [])

abbrev tripped : CapabilityCircuitState
tripped = record { consecutive_blockers = 2; is_open = true; updated_at = 3 }

abbrev entry : Value
entry = obj (
    field (codes "type") (str (codes "custom")) (
      field (codes "customType") (str (codes "classified-workflows.capability-circuit"))
        (field (codes "data") (encode_circuit tripped) end)))

restore_test : restore_capability_circuit (entry ∷ message (str (codes "hi")) ∷ []) ≡ tripped
unfolding circuits
restore_test = refl
