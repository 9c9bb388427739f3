-- ===== src/Issues/Selector.antt =====
-- ai/pi/extensions/issue-tasks/selector.ts: the issue that is recommended for work.
pub mod Snapshot
pub mod Order
pub mod Best
pub mod Assess
pub mod Scope
use dotconfig.Base.{
  text_ltb, ℕ, ◌*◌, Bool, true, false, not, Option, none, some, List, [], ◌∷◌, ◌++◌, text_eq, ltb,
  ◌==◌, if◌then◌else◌, ℤ, pos, negsuc,
}
use dotconfig.Issues.{IssueReference}

abbrev pub max_issue_selection_candidates : ℕ
max_issue_selection_candidates = 10_000

pub data Clearance : Type 0 where
  clear blocked unknown : Clearance

pub record Eligibility : Type 0 where
  pub blockers : Clearance
  pub dependencies : Clearance

pub data IssueState : Type 0 where
  opened closed : IssueState

-- `SelectionNumber`: `none` for the kind `unset`.
abbrev pub SelectionNumber : Type 0
SelectionNumber = Option ℕ

pub record ValidatedCandidate : Type 0 where
  pub issue : IssueReference
  pub state : IssueState
  pub priority : SelectionNumber
  pub effort : SelectionNumber
  pub eligibility : Eligibility

pub data IneligibilityReason : Type 0 where
  is_closed is_blocked unknown_blockers blocked_dependencies unknown_dependencies unranked :
      IneligibilityReason

pub record EligibleAssessment : Type 0 where
  pub issue : IssueReference
  pub priority : ℕ
  pub effort : ℕ

pub data Assessment : Type 0 where
  eligible : EligibleAssessment → Assessment
  refinement : IssueReference → Assessment
  ineligible : IssueReference → List IneligibilityReason → Assessment

pub data Selection : Type 0 where
  selected : IssueReference → List Assessment → Selection
  no_selection : List Assessment → Selection

pub data SelectionError : Type 0 where
  invalid_input invalid_priority invalid_effort duplicate_issue scope_mismatch incomplete_snapshot
        capacity :
      SelectionError

abbrev pub state_reasons : IssueState → List IneligibilityReason
state_reasons opened = []
state_reasons closed = is_closed ∷ []

abbrev pub blocker_reasons : Clearance → List IneligibilityReason
blocker_reasons clear = []
blocker_reasons blocked = is_blocked ∷ []
blocker_reasons unknown = unknown_blockers ∷ []

abbrev pub dependency_reasons : Clearance → List IneligibilityReason
dependency_reasons clear = []
dependency_reasons blocked = blocked_dependencies ∷ []
dependency_reasons unknown = unknown_dependencies ∷ []

-- The last two tests of `assessCandidate`, once the reasons are collected.
abbrev pub assess_with :
    IssueReference → List IneligibilityReason → (priority effort : SelectionNumber) → Assessment
assess_with issue reasons none effort = ineligible issue (reasons ++ unranked ∷ [])
assess_with issue (r ∷ rs) (some p) effort = ineligible issue (r ∷ rs)
assess_with issue [] (some p) none = refinement issue
assess_with issue [] (some p) (some e) =
    eligible (record { issue = issue; priority = p; effort = e })

unfoldable pub assess_candidate : ValidatedCandidate → Assessment
assess_candidate c =
    assess_with c.issue
      (state_reasons c.state
        ++ blocker_reasons c.eligibility.blockers
        ++ dependency_reasons c.eligibility.dependencies)
      c.priority c.effort

unfoldable pub compare_candidates : EligibleAssessment → EligibleAssessment → ℤ
unfolding text_eq text_ltb
compare_candidates left right =
    let left_score = left.priority * left.effort in
    let right_score = right.priority * right.effort in
    if not (left_score == right_score)
    then (if ltb left_score right_score then negsuc 0 else pos 1)
    else if not (left.priority == right.priority)
    then (if ltb left.priority right.priority then negsuc 0 else pos 1)
    else if not (text_eq left.issue.repository right.issue.repository)
    then (if text_ltb left.issue.repository right.issue.repository then negsuc 0 else pos 1)
    else if left.issue.number == right.issue.number
    then pos 0
    else if ltb left.issue.number right.issue.number
    then negsuc 0
    else pos 1

-- `comparison < 0`
abbrev pub is_negative : ℤ → Bool
is_negative (pos n) = false
is_negative (negsuc n) = true

abbrev pub improve : EligibleAssessment → Option EligibleAssessment → Option EligibleAssessment
improve a none = some a
improve a (some best) = if is_negative (compare_candidates a best) then some a else some best

-- The loop of `selectIssueAssignment`.
unfoldable pub select_from : Option EligibleAssessment → List Assessment → Option EligibleAssessment
select_from best [] = best
select_from best (eligible a ∷ rest) = select_from (improve a best) rest
select_from best (refinement i ∷ rest) = select_from best rest
select_from best (ineligible i reasons ∷ rest) = select_from best rest

abbrev pub selection_of : List Assessment → Option EligibleAssessment → Selection
selection_of all none = no_selection all
selection_of all (some a) = selected a.issue all
