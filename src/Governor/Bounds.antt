-- ===== src/Governor/Bounds.antt =====
-- How much usage-governor/core.ts remembers.
use dotconfig.Base.{
  ℕ, zero, suc, ◌+◌, ◌≤◌, inl, inr, Bool, Option, none, some, List, [], ◌∷◌, ◌++◌, Text, length,
  take_last, length-take_last, keep, remove_at, Value, Number, arith, Bool-cases,
}
use dotconfig.Governor.{
  TurnLane, InputSource, FollowUp, TurnLaneState, mark_human_follow_up,
  mark_responsive_autonomous_turn, record_input_lane, take_turn_lane, active_follow_ups,
  follow_up_index, left_from, with_follow_up, with_turn, take_at, valid_prompt, valid_now,
  empty_turn_lane_state, max_pending_turns, responsive, human_follow_up_ttl_ms,
}

pub record IsBounded (s : TurnLaneState) : Type 0 where
  pub follow_ups : length (TurnLaneState.follow_ups s) ≤ max_pending_turns
  pub turns : length (TurnLaneState.turns s) ≤ max_pending_turns

length-remove_at_le {ℓ} : {A : Type ℓ} (i : ℕ) (xs : List A) → length (remove_at i xs) ≤ length xs
length-remove_at_le i [] = omega arith
length-remove_at_le zero (x ∷ xs) = omega arith
length-remove_at_le (suc i) (x ∷ xs) = omega (arith, length-remove_at_le i xs)

length-keep_le {ℓ} : {A : Type ℓ} (p : A → Bool) (xs : List A) → length (keep p xs) ≤ length xs
length-keep_le p [] = omega arith
length-keep_le p (x ∷ xs) = elim (Bool-cases (p x)) [
  | inl e ↦ rw e (omega (arith, length-keep_le p xs))
  | inr e ↦ rw e (omega (arith, length-keep_le p xs))
]

last_le {ℓ} :
    {A : Type ℓ} (xs : List A) → length (take_last max_pending_turns xs) ≤ max_pending_turns
last_le xs = omega (arith, length-take_last max_pending_turns xs)

left_le : (fs : List FollowUp) (o : Option ℕ) → length (left_from fs o) ≤ length fs
left_le fs none = omega arith
left_le fs (some i) = length-remove_at_le i fs

pub data Event : Type 0 where
  human_follow_up : Value → Number → Event
  responsive_turn : Value → Event
  input : InputSource → Text → ℕ → Event
  taken : Text → Event

unfoldable pub step : TurnLaneState → Event → TurnLaneState
step s (human_follow_up prompt now) = mark_human_follow_up s prompt now
step s (responsive_turn prompt) = mark_responsive_autonomous_turn s prompt
step s (input source text now) = record_input_lane s source text now
step s (taken prompt) = (take_turn_lane s prompt).0

unfoldable pub run : TurnLaneState → List Event → TurnLaneState
unfolding step
run s [] = s
run s (e ∷ es) = run (step s e) es

with_follow_up-IsBounded :
    (s : TurnLaneState) (p : Option Text) (n : Option ℕ)
    → IsBounded s
    → IsBounded (with_follow_up s p n)
with_follow_up-IsBounded s none n v = v
with_follow_up-IsBounded s (some p) none v = v
with_follow_up-IsBounded s (some p) (some n) v = record {
  follow_ups =
      last_le (s.follow_ups ++ record { prompt = p; expires_at = n + human_follow_up_ttl_ms } ∷ []);
  turns = v.turns;
}

with_turn-IsBounded :
    (s : TurnLaneState) (p : Text) (l : TurnLane) → IsBounded s → IsBounded (with_turn s p l)
with_turn-IsBounded s p l v = record {
  follow_ups = v.follow_ups;
  turns = last_le (s.turns ++ record { prompt = p; lane = l } ∷ []);
}

take_at-IsBounded : (s : TurnLaneState) (o : Option ℕ) → IsBounded s → IsBounded ((take_at s o).0)
take_at-IsBounded s none v = v
take_at-IsBounded s (some i) v = record {
  follow_ups = v.follow_ups;
  turns = omega (arith, v.turns, length-remove_at_le i s.turns);
}

responsive-IsBounded :
    (s : TurnLaneState) (o : Option Text)
    → IsBounded s
    → IsBounded (elim o [ none ↦ s | some p ↦ with_turn s p responsive ])
responsive-IsBounded s none v = v
responsive-IsBounded s (some p) v = with_turn-IsBounded s p responsive v

step-IsBounded : (s : TurnLaneState) (e : Event) → IsBounded s → IsBounded (step s e)
unfolding step mark_human_follow_up mark_responsive_autonomous_turn record_input_lane take_turn_lane
    active_follow_ups
step-IsBounded s (human_follow_up prompt now) v =
    with_follow_up-IsBounded s (valid_prompt prompt) (valid_now now) v
step-IsBounded s (responsive_turn prompt) v = responsive-IsBounded s (valid_prompt prompt) v
step-IsBounded s (input source text now) v =
    let fs = active_follow_ups s now in
    with_turn-IsBounded (record s { follow_ups = left_from fs (follow_up_index source text fs) })
      text _
      (record {
        follow_ups = omega (
          arith,
          v.follow_ups,
          length-keep_le (λ f. dotconfig.Base.leb now f.expires_at) s.follow_ups,
          left_le fs (follow_up_index source text fs),
        );
        turns = v.turns;
      })
step-IsBounded s (taken prompt) v = take_at-IsBounded s _ v

run-IsBounded_from : (s : TurnLaneState) (es : List Event) → IsBounded s → IsBounded (run s es)
unfolding run
run-IsBounded_from s [] v = v
run-IsBounded_from s (e ∷ es) v = run-IsBounded_from (step s e) es (step-IsBounded s e v)

-- Whatever is marked, recorded and taken, at most 64 follow-ups and 64 turns are remembered.
pub run-IsBounded : (events : List Event) → IsBounded (run empty_turn_lane_state events)
run-IsBounded events =
    run-IsBounded_from empty_turn_lane_state events
      (record { follow_ups = omega arith; turns = omega arith })
