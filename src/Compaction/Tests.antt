-- ===== src/Compaction/Tests.antt =====
-- Runs of safe-compaction/state.ts, and the theorems at concrete states.
use dotconfig.Base.{
  replace_runs, none, includes, starts_with, before, ◌≡◌, refl, true, false, some, [], ◌∷◌, ◌++◌,
  codes, text_eq, is_space, trim, trim_start, Value, str, obj, arr, nil, cons, field, end,
  lookup_field, arith, any,
}
use dotconfig.Compaction.{
  manual, threshold, overflow, SafeCompactionState, idle, preparing, ready,
  BeforeCompactionTransition, before_compaction_transition, requested_transition,
  forced_by_overflow, agent_settled, manual_complete, host_retry, compaction_resume_mode,
}
use dotconfig.Compaction.Decode.{
  read_entry, after_compaction, restore_from, restore_safe_compaction_state,
  decode_safe_compaction_state, decode_phase,
}
use dotconfig.Compaction.Recovery
use dotconfig.Compaction.Recovery.{
  overflow_recovery_first_kept_entry_id, latest_bounded_user_request, latest_from, text_parts,
  join_lines, bounded_request, first_kept_from,
}
use dotconfig.Compaction.Fallback.{
  root_tail, root_checkpoint, overflow_fallback_summary, root_checkpoint-overflow_fallback_summary,
}
use dotconfig.Compaction.Progress.{
  before_compaction_transition-IsWellFormed, before_compaction_transition-cancel, IsWellFormed,
  PutOff,
}
use dotconfig.Compaction.Restore.{
  encode_state, restore_safe_compaction_state-latest, resumed, is_compaction,
}

checkpoints : Unit {0}
unfolding before_compaction_transition requested_transition forced_by_overflow
    compaction_resume_mode read_entry after_compaction restore_from restore_safe_compaction_state
    decode_safe_compaction_state decode_phase overflow_recovery_first_kept_entry_id
    latest_bounded_user_request latest_from text_parts join_lines bounded_request replace_runs
    first_kept_from Recovery.read_entry encode_state lookup_field text_eq trim trim_start is_space
    resumed is_compaction
checkpoints = tt

abbrev asked_threshold : SafeCompactionState
asked_threshold = preparing threshold 7

abbrev answered : SafeCompactionState
answered = ready threshold 7 9 (codes "run the tests")

transition_tests :
    (BeforeCompactionTransition.state (before_compaction_transition (idle false) threshold 7)
      ≡ asked_threshold)
    × (BeforeCompactionTransition.state (before_compaction_transition (idle true) threshold 7)
        ≡ idle true)
    × (BeforeCompactionTransition.state (before_compaction_transition answered overflow 20)
        ≡ answered)
    × (compaction_resume_mode manual true ≡ host_retry)
    × (compaction_resume_mode manual false ≡ manual_complete)
    × (compaction_resume_mode overflow false ≡ agent_settled)
unfolding checkpoints
transition_tests = (refl, refl, refl, refl, refl, refl)

-- The entry that records a state, and the one that a compaction leaves.
abbrev entry_of : SafeCompactionState → Value
entry_of s = obj (
    field (codes "type") (str (codes "custom")) (
      field (codes "customType") (str (codes "safe-compaction.state"))
        (field (codes "data") (encode_state s) end)))

abbrev compaction_entry : Value
compaction_entry = obj (field (codes "type") (str (codes "compaction")) end)

abbrev user_entry : Value
user_entry = obj (
    field (codes "type") (str (codes "message")) (
      field (codes "message")
        (obj (
          field (codes "role") (str (codes "user")) (
            field (codes "content")
              (arr (
                cons
                  (obj (
                    field (codes "type") (str (codes "text"))
                      (field (codes "text") (str (codes " go   on ")) end)))
                  nil))
              end)))
        end))

restore_tests :
    (restore_safe_compaction_state (entry_of asked_threshold ∷ entry_of answered ∷ user_entry ∷ [])
      ≡ answered)
    × (restore_safe_compaction_state (entry_of answered ∷ compaction_entry ∷ []) ≡ idle true)
    × (restore_safe_compaction_state (user_entry ∷ []) ≡ idle false)
    × (latest_bounded_user_request (user_entry ∷ compaction_entry ∷ []) ≡ some (codes "go on"))
    × (overflow_recovery_first_kept_entry_id (user_entry ∷ []) (codes "e1") ≡ codes "e1")
unfolding checkpoints
restore_tests = (refl, refl, refl, refl, refl)

before_compaction_transition-IsWellFormed_example :
    IsWellFormed
      (BeforeCompactionTransition.state (before_compaction_transition asked_threshold overflow 20))
before_compaction_transition-IsWellFormed_example =
    before_compaction_transition-IsWellFormed asked_threshold overflow 20 (tt, omega arith)
      (omega arith)

before_compaction_transition-cancel_example :
    PutOff (idle false) threshold (before_compaction_transition (idle false) threshold 7)
unfolding checkpoints
before_compaction_transition-cancel_example =
    before_compaction_transition-cancel (idle false) threshold 7 refl

answered-IsWellFormed : IsWellFormed answered
answered-IsWellFormed = (tt, omega arith, omega arith, omega arith)

restore_safe_compaction_state-latest_example :
    restore_safe_compaction_state
      ((entry_of asked_threshold ∷ []) ++ entry_of answered ∷ compaction_entry ∷ [])
    ≡ resumed (any is_compaction (compaction_entry ∷ [])) answered
unfolding checkpoints
restore_safe_compaction_state-latest_example =
    restore_safe_compaction_state-latest (entry_of asked_threshold ∷ []) (entry_of answered)
      (compaction_entry ∷ []) answered refl ((λ s e. cc), tt)

root_test : root_checkpoint (some (codes " ## Goal: ship it ")) ≡ some (codes "## Goal: ship it")
unfolding checkpoints root_checkpoint root_tail overflow_fallback_summary before includes
    starts_with
root_test = refl

root_checkpoint-overflow_fallback_summary_example :
    root_checkpoint (
      some (
        overflow_fallback_summary
          (some (codes "## Goal: ship it"))
          (codes "run the tests")
          (some (codes "go on"))))
    ≡ none
root_checkpoint-overflow_fallback_summary_example =
    root_checkpoint-overflow_fallback_summary (some (codes "## Goal: ship it"))
      (codes "run the tests") (some (codes "go on"))
