-- ===== src/Issues/Selector/Assess.antt =====
-- `assessCandidate` of selector.ts: when a candidate is eligible, and why it is not.
use dotconfig.Base.{◌≡◌, ◌↔◌, refl, none, some, List, [], ◌∷◌, ◌++◌, ℕ}
use dotconfig.Issues.{IssueReference}
use dotconfig.Issues.Selector.{
  Clearance, clear, blocked, unknown, Eligibility, IssueState, opened, closed, SelectionNumber,
  ValidatedCandidate, EligibleAssessment, eligible, IneligibilityReason, assess_candidate,
  assess_with, state_reasons, blocker_reasons, dependency_reasons,
}

-- Open, with no blocker and no dependency in the way, ranked and estimated.
pub record IsReady (c : ValidatedCandidate) (p e : ℕ) : Type 0 where
  pub state : ValidatedCandidate.state c ≡ opened
  pub blockers : Eligibility.blockers (ValidatedCandidate.eligibility c) ≡ clear
  pub dependencies : Eligibility.dependencies (ValidatedCandidate.eligibility c) ≡ clear
  pub priority : ValidatedCandidate.priority c ≡ some p
  pub effort : ValidatedCandidate.effort c ≡ some e

no_reasons :
    (s : IssueState) (b d : Clearance)
    → state_reasons s ++ blocker_reasons b ++ dependency_reasons d ≡ []
    → (s ≡ opened) × (b ≡ clear) × (d ≡ clear)
no_reasons opened clear clear h = (refl, refl, refl)
no_reasons opened clear blocked h = cc
no_reasons opened clear unknown h = cc
no_reasons opened blocked d h = cc
no_reasons opened unknown d h = cc
no_reasons closed b d h = cc

eligible_of_assess_with :
    (i : IssueReference) (rs : List IneligibilityReason) (p e : SelectionNumber)
    (a : EligibleAssessment)
    → assess_with i rs p e ≡ eligible a
    → (rs ≡ []) × (p ≡ some a.priority) × (e ≡ some a.effort) × (i ≡ a.issue)
eligible_of_assess_with i rs none e a h = cc
eligible_of_assess_with i (r ∷ rs) (some p) e a h = cc
eligible_of_assess_with i [] (some p) none a h = cc
eligible_of_assess_with i [] (some p) (some e) a h =
    let q : record { issue = i; priority = p; effort = e } ≡ a = cc in
    rw (← q) (refl, refl, refl, refl)

-- A candidate is assessed as eligible exactly when it is open, has no blocker and no dependency that
-- is blocked or unknown, and has a priority and an effort, which are then those of the assessment.
pub assess_candidate-eligible_iff :
    (c : ValidatedCandidate) (p e : ℕ)
    → (assess_candidate c ≡ eligible (record { issue = c.issue; priority = p; effort = e }))
      ↔ IsReady c p e
unfolding assess_candidate
assess_candidate-eligible_iff c p e = (
  λ h.
      let (rs, q, r, i) = eligible_of_assess_with c.issue _ c.priority c.effort _ h in
      let (s, b, d) = no_reasons c.state c.eligibility.blockers c.eligibility.dependencies rs in
      record { state = s; blockers = b; dependencies = d; priority = q; effort = r },
  λ v. rw (v.state, v.blockers, v.dependencies, v.priority, v.effort) refl,
)
