-- ===== src/Issues/Selector/Best.antt =====
-- The issue that `selectIssueAssignment` of selector.ts selects.
use mathlib.Core.List.{Memᴰ}
use dotconfig.Base.{
  ◌≡◌, ◌≢◌, ◌⊎◌, refl, sym, ◌∙◌, subst, inl, inr, true, false, none, some, List, [], ◌∷◌, map, ok,
  All, Bool-cases, Option-cases, >>=-eq-ok, Value,
}
use dotconfig.Issues.Selector.{
  EligibleAssessment, Assessment, eligible, refinement, ineligible, Selection, selected,
  no_selection, ValidatedCandidate, compare_candidates, is_negative, select_from, selection_of,
  assess_candidate,
}
use dotconfig.Issues.Selector.Snapshot.{decode_snapshot, select_issue_assignment}
use dotconfig.Issues.Selector.Order.{
  IsLess, compare_candidates_trans, compare_candidates_irrefl, compare_negative, is_before,
}

-- The assessed issue does not come before the eligible one: not by its score, at the same score not by
-- its priority, at the same priority not by its repository, in the same repository not by its number.
abbrev pub IsNotBetter : EligibleAssessment → Assessment → Type 0
IsNotBetter a (eligible b) = is_before b a ≡ false
IsNotBetter a (refinement i) = Unit
IsNotBetter a (ineligible i reasons) = Unit

abbrev pub IsUnfit : Assessment → Type 0
IsUnfit (eligible a) = ⊥
IsUnfit (refinement i) = Unit
IsUnfit (ineligible i reasons) = Unit

not_less :
    (a b : EligibleAssessment) → (IsLess a b → ⊥) → is_negative (compare_candidates a b) ≡ false
not_less a b f = elim (Bool-cases (is_negative (compare_candidates a b))) [
  | inl e ↦ absurd (f e)
  | inr e ↦ e
]

-- The issue that the loop ends with is the one that it started with or a better one from the list.
abbrev Improved : EligibleAssessment → EligibleAssessment → List Assessment → Type 0
Improved a best all = (a ≡ best) ⊎ (IsLess a best × Memᴰ (eligible a) all)

loses_to_best :
    (a best x : EligibleAssessment) (all : List Assessment)
    → Improved a best all
    → is_negative (compare_candidates x best) ≡ false
    → is_before x a ≡ false
loses_to_best a best x all (inl e) h = rw e (sym (compare_negative x best) ∙ h)
loses_to_best a best x all (inr (less, m)) h =
    sym (compare_negative x a)
    ∙ not_less x a λ k.
      let q = compare_candidates_trans x a best k less in let z : true ≡ false = sym q ∙ h in cc

Improved-further :
    (a best x : EligibleAssessment) (all : List Assessment)
    → IsLess x best
    → Improved a x all
    → Improved a best (eligible x ∷ all)
Improved-further a best x all h (inl e) = inr (rw e h, Memᴰ.head (rw e refl))
Improved-further a best x all h (inr (less, m)) =
    inr (compare_candidates_trans a x best less h, Memᴰ.tail m)

Improved-later :
    (a best : EligibleAssessment) (x : Assessment) (all : List Assessment)
    → Improved a best all
    → Improved a best (x ∷ all)
Improved-later a best x all (inl e) = inl e
Improved-later a best x all (inr (less, m)) = inr (less, Memᴰ.tail m)

select_from-best :
    (all : List Assessment) (best a : EligibleAssessment)
    → select_from (some best) all ≡ some a
    → Improved a best all × All (IsNotBetter a) all
unfolding select_from
select_from-best [] best a h = (inl cc, tt)
select_from-best (eligible x ∷ rest) best a h =
    elim (Bool-cases (is_negative (compare_candidates x best))) [
      | inl e ↦
          let (i, u) = select_from-best rest x a (rw (e, select_from) at h) in
          (
            Improved-further a best x rest e i,
            (loses_to_best a x x rest i (compare_candidates_irrefl x), u),
          )
      | inr e ↦
          let (i, u) = select_from-best rest best a (rw (e, select_from) at h) in
          (Improved-later a best (eligible x) rest i, (loses_to_best a best x rest i e, u))
    ]
select_from-best (refinement j ∷ rest) best a h =
    let (i, u) = select_from-best rest best a h in (Improved-later a best _ rest i, (tt, u))
select_from-best (ineligible j reasons ∷ rest) best a h =
    let (i, u) = select_from-best rest best a h in (Improved-later a best _ rest i, (tt, u))

select_from-none :
    (all : List Assessment) (a : EligibleAssessment)
    → select_from none all ≡ some a
    → Memᴰ (eligible a) all × All (IsNotBetter a) all
unfolding select_from
select_from-none [] a h = cc
select_from-none (eligible x ∷ rest) a h =
    let (i, u) = select_from-best rest x a h in
    (first_or_later i, (loses_to_best a x x rest i (compare_candidates_irrefl x), u))
  where
    first_or_later : Improved a x rest → Memᴰ (eligible a) (eligible x ∷ rest)
    first_or_later (inl e) = Memᴰ.head (rw e refl)
    first_or_later (inr (less, m)) = Memᴰ.tail m
select_from-none (refinement j ∷ rest) a h =
    let (m, u) = select_from-none rest a h in (Memᴰ.tail m, (tt, u))
select_from-none (ineligible j reasons ∷ rest) a h =
    let (m, u) = select_from-none rest a h in (Memᴰ.tail m, (tt, u))

select_from-some :
    (all : List Assessment) (best : EligibleAssessment) → select_from (some best) all ≢ none
unfolding select_from
select_from-some [] best h = cc
select_from-some (eligible x ∷ rest) best h =
    elim (Bool-cases (is_negative (compare_candidates x best))) [
      | inl e ↦ select_from-some rest x (rw (e, select_from) at h)
      | inr e ↦ select_from-some rest best (rw (e, select_from) at h)
    ]
select_from-some (refinement j ∷ rest) best h = select_from-some rest best h
select_from-some (ineligible j reasons ∷ rest) best h = select_from-some rest best h

select_from-eq-none : (all : List Assessment) → select_from none all ≡ none → All IsUnfit all
unfolding select_from
select_from-eq-none [] h = tt
select_from-eq-none (eligible x ∷ rest) h = absurd (select_from-some rest x h)
select_from-eq-none (refinement j ∷ rest) h = (tt, select_from-eq-none rest h)
select_from-eq-none (ineligible j reasons ∷ rest) h = (tt, select_from-eq-none rest h)

-- What a selection has to be for the candidates of a snapshot.
abbrev pub IsRightSelection : List ValidatedCandidate → Selection → Type 0
IsRightSelection candidates (selected issue all) =
    (all ≡ map assess_candidate candidates)
    × ((a : EligibleAssessment) × (a.issue ≡ issue)
        × Memᴰ (eligible a) all
        × All (IsNotBetter a) all)
IsRightSelection candidates (no_selection all) =
    (all ≡ map assess_candidate candidates) × All IsUnfit all

selection_of-IsRight :
    (candidates : List ValidatedCandidate)
    → IsRightSelection candidates (
        selection_of
          (map assess_candidate candidates)
          (select_from none (map assess_candidate candidates)))
selection_of-IsRight candidates =
    elim (Option-cases (select_from none (map assess_candidate candidates))) [
      | inl e ↦ rw e (refl, select_from-eq-none (map assess_candidate candidates) e)
      | inr (a, e) ↦
          let (m, u) = select_from-none (map assess_candidate candidates) a e in
          rw e (refl, (a, refl, m, u))
    ]

-- A selection goes over the assessments of all candidates of the snapshot. The selected issue is one of
-- the eligible ones, and no eligible one comes before it in the lexicographic order on the score
-- (priority times effort), the priority, the repository and the number, the smaller one first; nothing
-- is selected only if no candidate is eligible.
pub select_issue_assignment-IsRightSelection :
    (v : Value) (s : Selection)
    → select_issue_assignment v ≡ ok s
    → (candidates : List ValidatedCandidate) × (decode_snapshot v ≡ ok candidates)
      × IsRightSelection candidates s
unfolding select_issue_assignment
select_issue_assignment-IsRightSelection v s h =
    let (candidates, d, k) = >>=-eq-ok (decode_snapshot v) _ h in
    let all = map assess_candidate candidates in
    let e : selection_of all (select_from none all) ≡ s = cc in
    (candidates, d, subst (IsRightSelection candidates) e (selection_of-IsRight candidates))
