-- ===== src/Governor/Tests.antt =====
-- Runs of usage-governor/core.ts, and the theorems at concrete turns, ports and models.
use dotconfig.Base.{
  ◌≡◌, ◌↔◌, refl, true, none, some, codes, text_eq, decimal, decimal_on, number_from, str, int, pos,
  take_last, lookup_field, has_key,
}
use dotconfig.Governor.{
  human, autonomous, extension, interactive, TurnLaneState, empty_turn_lane_state,
  mark_human_follow_up, mark_responsive_autonomous_turn, record_input_lane, take_turn_lane,
  input_lane, active_follow_ups, follow_up_index, turn_lane_for_input,
}
use dotconfig.Governor.Bounds.{step, run}
use dotconfig.Governor.Follow.{IsHuman, input_lane-IsHuman_iff, take_turn_lane-record_input_lane}
use dotconfig.Governor.Access.{
  control_plane_port, control_plane_usage_url, control_plane_usage_control_url,
  control_plane_usage_admission_url, autonomous_role_for_cwd, tokens_allowed, turn, workflow,
}
use dotconfig.Governor.Models.{
  PersistedModelRef, ActiveModelRef, low, high, set_thinking, preferred_model_restoration,
  has_thinking, is_preferred, parse_persisted_model_ref,
}

turns : Unit {0}
unfolding mark_human_follow_up mark_responsive_autonomous_turn record_input_lane take_turn_lane
    input_lane active_follow_ups follow_up_index turn_lane_for_input step run control_plane_port
    control_plane_usage_url control_plane_usage_control_url control_plane_usage_admission_url
    autonomous_role_for_cwd tokens_allowed preferred_model_restoration has_thinking is_preferred
    parse_persisted_model_ref text_eq lookup_field has_key decimal decimal_on number_from
turns = tt

abbrev awaiting : TurnLaneState
awaiting = mark_human_follow_up empty_turn_lane_state (str (codes "go on")) (int (pos 7))

lane_tests :
    (input_lane awaiting extension (codes "go on") 5_007 ≡ human)
    × (input_lane awaiting extension (codes "go on") 5_008 ≡ autonomous)
    × (input_lane awaiting extension (codes "stop") 8 ≡ autonomous)
    × (input_lane awaiting interactive (codes "stop") 8 ≡ human)
    × ((take_turn_lane (record_input_lane awaiting extension (codes "go on") 8) (codes "go on")).1
        ≡ human)
unfolding turns
lane_tests = (refl, refl, refl, refl, refl)

access_tests :
    (control_plane_port none ≡ some 43_121)
    × (control_plane_port (some (codes "080")) ≡ some 80)
    × (control_plane_port (some (codes "65536")) ≡ none)
    × (control_plane_port (some (codes "8e1")) ≡ none)
    × (control_plane_usage_admission_url
          (some (codes "80"))
          (codes "reviewer")
          workflow
          (some (int (pos 5_000)))
        ≡ some (
            codes
              "http://127.0.0.1:80/v1/usage/admit?role=reviewer&kind=workflow&requestedTokens=5000"))
    × (control_plane_usage_admission_url none (codes "admin") turn none ≡ none)
unfolding turns
access_tests = (refl, refl, refl, refl, refl, refl)

input_lane-IsHuman_iff_example :
    (input_lane awaiting extension (codes "go on") 8 ≡ human)
    ↔ IsHuman awaiting extension (codes "go on") 8
input_lane-IsHuman_iff_example = input_lane-IsHuman_iff awaiting extension (codes "go on") 8

abbrev one_turn : TurnLaneState
one_turn = mark_responsive_autonomous_turn awaiting (str (codes "tick"))

take_turn_lane-record_input_lane_example :
    ((take_turn_lane (record_input_lane one_turn extension (codes "go on") 8) (codes "go on")).1
      ≡ input_lane one_turn extension (codes "go on") 8)
    × (TurnLaneState.turns (
          (take_turn_lane
            (record_input_lane one_turn extension (codes "go on") 8)
            (codes "go on")).0)
        ≡ take_last 63 (TurnLaneState.turns one_turn))
unfolding turns
take_turn_lane-record_input_lane_example =
    take_turn_lane-record_input_lane one_turn extension (codes "go on") 8 (refl, tt)

abbrev preferred : PersistedModelRef
preferred = record { provider = codes "p"; id = codes "m"; thinking = some low }

abbrev active_model : ActiveModelRef
active_model = record { provider = codes "p"; id = codes "m"; thinking = some high }

restoration_test :
    preferred_model_restoration (some active_model) (some preferred) true ≡ set_thinking low
unfolding turns
restoration_test = refl
