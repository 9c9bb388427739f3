-- ===== src/Governor/Follow.antt =====
-- Which lane an input gets in usage-governor/core.ts, and that a turn takes the lane that it was given.
use mathlib.Core.List.{Memᴰ}
use dotconfig.Base.{
  ℕ, ◌-◌, ◌≤◌, ◌≡◌, ◌↔◌, refl, sym, inl, inr, Bool, false, Option, none, some, [], ◌∷◌, ◌++◌, Text,
  text_eq, text_eq_iff, text_eq_refl, leb, length, take_last, keep, find_index, find_index-eq-some,
  find_index-ne-none, find_index-snoc, get_elem?-snoc, remove_at-snoc, take_last-snoc, All-drop,
  Memᴰ-keep, Memᴰ-of_keep, leb→le, ◌∙◌, All, arith, Option-cases,
}
use dotconfig.Governor.{
  human, autonomous, InputSource, interactive, rpc, extension, FollowUp, PendingTurn, TurnLaneState,
  turn_lane_for_input, active_follow_ups, follow_up_index, lane_from, input_lane, record_input_lane,
  take_turn_lane,
}

-- A person asked for this text, and that has not expired.
abbrev pub IsAwaited : TurnLaneState → Text → ℕ → Type 0
IsAwaited s text now =
    (f : FollowUp) × Memᴰ f s.follow_ups × (f.prompt ≡ text) × (now ≤ f.expires_at)

-- Who may have the human lane.
abbrev pub IsHuman : TurnLaneState → InputSource → Text → ℕ → Type 0
IsHuman s extension text now = IsAwaited s text now
IsHuman s interactive text now = Unit
IsHuman s rpc text now = Unit

extension_lane :
    (o : Option ℕ)
    → (o ≡ none → lane_from extension o ≡ autonomous)
      × ((i : ℕ) → o ≡ some i → lane_from extension o ≡ human)
unfolding turn_lane_for_input
extension_lane none = ((λ e. refl), λ i e. cc)
extension_lane (some i) = ((λ e. cc), λ j e. refl)

extension_human :
    (s : TurnLaneState) (text : Text) (now : ℕ)
    → input_lane s extension text now ≡ human
    → IsAwaited s text now
unfolding input_lane active_follow_ups follow_up_index
extension_human s text now h =
    let live = keep (λ (f : FollowUp). leb now f.expires_at) s.follow_ups in
    let test : FollowUp → Bool = λ f. text_eq f.prompt text in
    elim (Option-cases (find_index test live)) [
      | inl e ↦
          let q = (extension_lane (find_index test live)).0 e in
          let z : autonomous ≡ human = sym q ∙ h in cc
      | inr (i, e) ↦
          let (f, m, k) = find_index-eq-some test live i e in
          let (n, t) = Memᴰ-keep (λ (g : FollowUp). leb now g.expires_at) s.follow_ups f m in
          (f, n, (text_eq_iff f.prompt text).0 k, leb→le now f.expires_at t)
    ]

awaited_human :
    (s : TurnLaneState) (text : Text) (now : ℕ)
    → IsAwaited s text now
    → input_lane s extension text now ≡ human
unfolding input_lane active_follow_ups follow_up_index
awaited_human s text now (f, m, e, l) =
    let live = keep (λ (g : FollowUp). leb now g.expires_at) s.follow_ups in
    let test : FollowUp → Bool = λ g. text_eq g.prompt text in
    let here =
      Memᴰ-of_keep (λ (g : FollowUp). leb now g.expires_at) s.follow_ups f m (ground arith) in
    elim (Option-cases (find_index test live)) [
      | inl q ↦ absurd (find_index-ne-none test live f here ((text_eq_iff f.prompt text).1 e) q)
      | inr (i, q) ↦ (extension_lane (find_index test live)).1 i q
    ]

-- An input gets the human lane exactly when it does not come from an extension, or a person asked for
-- its text as a follow-up that has not expired.
pub input_lane-IsHuman_iff :
    (s : TurnLaneState) (source : InputSource) (text : Text) (now : ℕ)
    → (input_lane s source text now ≡ human) ↔ IsHuman s source text now
unfolding input_lane follow_up_index turn_lane_for_input
input_lane-IsHuman_iff s extension text now = (extension_human s text now, awaited_human s text now)
input_lane-IsHuman_iff s interactive text now = ((λ h. tt), λ u. refl)
input_lane-IsHuman_iff s rpc text now = ((λ h. tt), λ u. refl)

abbrev pub IsOther : Text → PendingTurn → Type 0
IsOther text t = text_eq t.prompt text ≡ false

-- A turn that is recorded when no pending one has its prompt is taken with the lane of its input, and
-- what stays pending is what was pending before: its last 63 turns.
pub take_turn_lane-record_input_lane :
    (s : TurnLaneState) (source : InputSource) (text : Text) (now : ℕ)
    → All (IsOther text) s.turns
    → ((take_turn_lane (record_input_lane s source text now) text).1 ≡ input_lane s source text now)
      × (TurnLaneState.turns ((take_turn_lane (record_input_lane s source text now) text).0)
          ≡ take_last 63 s.turns)
unfolding take_turn_lane record_input_lane
take_turn_lane-record_input_lane s source text now h =
    let t : PendingTurn = record { prompt = text; lane = input_lane s source text now } in
    let kept = take_last 63 s.turns in
    let found : find_index (λ (u : PendingTurn). text_eq u.prompt text) (kept ++ t ∷ [])
        ≡ some (length kept) =
      find_index-snoc (λ (u : PendingTurn). text_eq u.prompt text) kept t
        (All-drop (IsOther text) (length s.turns - 63) s.turns h) (text_eq_refl text) in
    rw (take_last-snoc 63 s.turns t, found, get_elem?-snoc kept t, remove_at-snoc kept t)
      (refl, refl)
