-- ===== src/Governor.antt =====
-- ai/pi/extensions/usage-governor/core.ts: the lane of each turn, by who asked for it.
-- `now` is what `Date.now()` returns, a natural number, where the code does not check it.
pub mod Bounds
pub mod Follow
pub mod Access
pub mod Models
mod Tests
use dotconfig.Base.{
  ℕ, ◌+◌, ◌&&◌, Option, none, some, List, [], ◌∷◌, ◌++◌, Text, text_eq, leb, length, take_last,
  keep, find_index, get_elem?, remove_at, Value, as_text, Number, num, as_counter, max_safe_integer,
  if◌then◌else◌,
}

pub data TurnLane : Type 0 where
  human responsive autonomous : TurnLane

pub data InputSource : Type 0 where
  interactive rpc extension : InputSource

abbrev pub max_pending_turns : ℕ
max_pending_turns = 64

abbrev pub human_follow_up_ttl_ms : ℕ
human_follow_up_ttl_ms = 5_000

pub record FollowUp : Type 0 where
  pub prompt : Text
  pub expires_at : ℕ

pub record PendingTurn : Type 0 where
  pub prompt : Text
  pub lane : TurnLane

pub record TurnLaneState : Type 0 where
  pub follow_ups : List FollowUp
  pub turns : List PendingTurn

abbrev pub empty_turn_lane_state : TurnLaneState
empty_turn_lane_state = record { follow_ups = []; turns = [] }

unfoldable pub turn_lane_for_input : InputSource → TurnLane
turn_lane_for_input extension = autonomous
turn_lane_for_input interactive = human
turn_lane_for_input rpc = human

-- The prompt, if it is a text of 1 to 100,000 units.
abbrev pub valid_prompt : Value → Option Text
valid_prompt v = elim (as_text v) [
  | none ↦ none
  | some s ↦ if leb 1 (length s) && leb (length s) 100_000 then some s else none
]

-- The time, if it and the end of the follow-up are timestamps.
abbrev pub valid_now : Number → Option ℕ
valid_now v = elim (as_counter (num v)) [
  | none ↦ none
  | some n ↦ if leb (n + human_follow_up_ttl_ms) max_safe_integer then some n else none
]

abbrev pub with_follow_up : TurnLaneState → Option Text → Option ℕ → TurnLaneState
with_follow_up s (some p) (some n) = record s {
  follow_ups =
      take_last max_pending_turns
        (s.follow_ups ++ record { prompt = p; expires_at = n + human_follow_up_ttl_ms } ∷ []);
}
with_follow_up s none n = s
with_follow_up s (some p) none = s

unfoldable pub mark_human_follow_up : TurnLaneState → Value → Number → TurnLaneState
mark_human_follow_up s prompt now = with_follow_up s (valid_prompt prompt) (valid_now now)

abbrev pub with_turn : TurnLaneState → Text → TurnLane → TurnLaneState
with_turn s p l = record s {
  turns = take_last max_pending_turns (s.turns ++ record { prompt = p; lane = l } ∷ []);
}

unfoldable pub mark_responsive_autonomous_turn : TurnLaneState → Value → TurnLaneState
mark_responsive_autonomous_turn s prompt = elim (valid_prompt prompt) [
  | none ↦ s
  | some p ↦ with_turn s p responsive
]

unfoldable pub active_follow_ups : TurnLaneState → ℕ → List FollowUp
active_follow_ups s now = keep (λ f. leb now f.expires_at) s.follow_ups

-- `followUpIndex`, with `none` for -1.
unfoldable pub follow_up_index : InputSource → Text → List FollowUp → Option ℕ
unfolding text_eq
follow_up_index extension text fs = find_index (λ f. text_eq f.prompt text) fs
follow_up_index interactive text fs = none
follow_up_index rpc text fs = none

abbrev pub lane_from : InputSource → Option ℕ → TurnLane
lane_from source none = turn_lane_for_input source
lane_from source (some i) = human

abbrev pub left_from : List FollowUp → Option ℕ → List FollowUp
left_from fs none = fs
left_from fs (some i) = remove_at i fs

-- `lane` of `recordInputLane`.
unfoldable pub input_lane : TurnLaneState → InputSource → Text → ℕ → TurnLane
unfolding follow_up_index active_follow_ups
input_lane s source text now =
    lane_from source (follow_up_index source text (active_follow_ups s now))

unfoldable pub record_input_lane : TurnLaneState → InputSource → Text → ℕ → TurnLaneState
unfolding input_lane
record_input_lane s source text now =
    with_turn
      (record s {
        follow_ups =
            left_from (active_follow_ups s now)
              (follow_up_index source text (active_follow_ups s now));
      })
      text (input_lane s source text now)

abbrev pub lane_at : Option PendingTurn → TurnLane
lane_at none = autonomous
lane_at (some t) = t.lane

abbrev pub take_at : TurnLaneState → Option ℕ → TurnLaneState × TurnLane
take_at s none = (s, autonomous)
take_at s (some i) = (record s { turns = remove_at i s.turns }, lane_at (get_elem? s.turns i))

unfoldable pub take_turn_lane : TurnLaneState → Text → TurnLaneState × TurnLane
unfolding text_eq
take_turn_lane s prompt = take_at s (find_index (λ t. text_eq t.prompt prompt) s.turns)
