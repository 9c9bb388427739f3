-- ===== src/Circuit/Trips.antt =====
-- When the circuit of capability-circuit.ts is open, and that it stays one that its decoder accepts.
use dotconfig.Base.{
  ℕ, suc, ◌≤◌, ◌≡◌, refl, some, List, [], ◌∷◌, leb, min, arith, Value, num, int, pos, bool, obj,
  field, end, codes, text_eq, lookup_field, max_safe_integer,
}
use dotconfig.Circuit.{
  CapabilityCircuitState, CapabilityOutcome, tool_used, capability_blocked, other,
  empty_capability_circuit, advance_capability_circuit, decode_capability_circuit,
}

unfoldable pub run : CapabilityCircuitState → List (CapabilityOutcome × ℕ) → CapabilityCircuitState
run s [] = s
run s ((o, now) ∷ rest) = run (advance_capability_circuit s o now) rest

-- How many of the latest outcomes were blocked, since the last use of a tool; other outcomes do not
-- count. The number of those before is the first argument.
unfoldable pub blocked_in_a_row : ℕ → List (CapabilityOutcome × ℕ) → ℕ
blocked_in_a_row n [] = n
blocked_in_a_row n ((tool_used, now) ∷ rest) = blocked_in_a_row 0 rest
blocked_in_a_row n ((capability_blocked, now) ∷ rest) = blocked_in_a_row (suc n) rest
blocked_in_a_row n ((other, now) ∷ rest) = blocked_in_a_row n rest

pub record IsCounting (n : ℕ) (s : CapabilityCircuitState) : Type 0 where
  pub blockers : CapabilityCircuitState.consecutive_blockers s ≡ min 2 n
  pub is_open : CapabilityCircuitState.is_open s ≡ leb 2 n

run-IsCounting :
    (n : ℕ) (s : CapabilityCircuitState) (outcomes : List (CapabilityOutcome × ℕ))
    → IsCounting n s
    → IsCounting (blocked_in_a_row n outcomes) (run s outcomes)
unfolding run blocked_in_a_row advance_capability_circuit
run-IsCounting n s [] v = v
run-IsCounting n s ((tool_used, now) ∷ rest) v =
    run-IsCounting 0 (advance_capability_circuit s tool_used now) rest
      (record { blockers = omega arith; is_open = refl })
run-IsCounting n s ((capability_blocked, now) ∷ rest) v =
    run-IsCounting (suc n) (advance_capability_circuit s capability_blocked now) rest
      (record { blockers = omega (arith, v.blockers); is_open = ground (arith, v.blockers) })
run-IsCounting n s ((other, now) ∷ rest) v = run-IsCounting n s rest v

-- After any outcomes, the circuit has counted the blocked ones since the last use of a tool, up to 2,
-- and is open exactly when there were at least 2 of them.
pub run-IsCounting_from_empty :
    (outcomes : List (CapabilityOutcome × ℕ))
    → IsCounting (blocked_in_a_row 0 outcomes) (run empty_capability_circuit outcomes)
run-IsCounting_from_empty outcomes =
    run-IsCounting 0 empty_capability_circuit outcomes
      (record { blockers = omega arith; is_open = refl })

abbrev pub encode_circuit : CapabilityCircuitState → Value
encode_circuit s = obj (
    field (codes "consecutiveBlockers") (num (int (pos s.consecutive_blockers))) (
      field (codes "open") (bool s.is_open)
        (field (codes "updatedAt") (num (int (pos s.updated_at))) end)))

-- A state that counts, and was updated at a safe time, is read back as it was.
pub decode-encode_circuit :
    (n : ℕ) (s : CapabilityCircuitState)
    → IsCounting n s
    → s.updated_at ≤ max_safe_integer
    → decode_capability_circuit (encode_circuit s) ≡ some s
unfolding decode_capability_circuit lookup_field text_eq
decode-encode_circuit n s v h = ground (arith, v.blockers, v.is_open)
