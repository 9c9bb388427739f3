-- ===== src/Issues/Selector/Snapshot.antt =====
-- `decodeSnapshot` and `selectIssueAssignment` of selector.ts. `decode` refuses excess properties; a
-- missing property of type `Schema.Unknown` reads `undefined`.
use dotconfig.Base.{
  Bool, true, false, not, ◌&&◌, ◌||◌, Option, none, some, List, [], ◌∷◌, map, Text, codes, text_eq,
  ltb, ◌==◌, any, length, Value, Fields, lookup_field, only_keys, as_record, as_array, is_text,
  if◌then◌else◌, Result, ok, err, fail_if, ◌>>=◌, ◌>>◌,
}
use dotconfig.Issues.{
  IssueReference, decode_issue_reference, issue_key, set_of, decode_all, map_error, some_or,
  as_positive,
}
use dotconfig.Issues.Effort.{is_fibonacci_effort}
use dotconfig.Issues.Selector.{
  max_issue_selection_candidates, Clearance, clear, blocked, unknown, Eligibility, IssueState,
  opened, closed, SelectionNumber, ValidatedCandidate, Selection, SelectionError, invalid_input,
  invalid_priority, invalid_effort, duplicate_issue, scope_mismatch, incomplete_snapshot, capacity,
  assess_candidate, select_from, selection_of,
}

-- The three literals of a clearance.
abbrev pub as_clearance : Value → Option Clearance
as_clearance v =
    if is_text v (codes "clear")
    then some clear
    else if is_text v (codes "blocked")
    then some blocked
    else if is_text v (codes "unknown")
    then some unknown
    else none

abbrev pub as_state : Value → Option IssueState
as_state v =
    if is_text v (codes "open")
    then some opened
    else if is_text v (codes "closed")
    then some closed
    else none

-- The fields of an object that has no other keys than these.
abbrev pub decode_struct : List Text → Value → Result SelectionError Fields
decode_struct keys v = do
  fields ← some_or invalid_input (as_record v)
  fail_if (not (only_keys keys fields)) invalid_input
  ok fields

-- `NumberInputSchema`, with the value of a number
unfoldable pub decode_number_input : Value → Result SelectionError (Option Value)
decode_number_input v = do
  fields ← some_or invalid_input (as_record v)
  (let kind = lookup_field (codes "kind") fields in
      if is_text kind (codes "unset") && only_keys (codes "kind" ∷ []) fields
      then ok none
      else if is_text kind (codes "number") && only_keys (codes "kind" ∷ codes "value" ∷ []) fields
      then ok (some (lookup_field (codes "value") fields))
      else err invalid_input)

unfoldable pub decode_eligibility : Value → Result SelectionError Eligibility
decode_eligibility v = do
  fields ← decode_struct (codes "blockers" ∷ codes "dependencies" ∷ []) v
  b ← some_or invalid_input (as_clearance (lookup_field (codes "blockers") fields))
  d ← some_or invalid_input (as_clearance (lookup_field (codes "dependencies") fields))
  ok (record { blockers = b; dependencies = d })

abbrev pub decode_priority : Option Value → Result SelectionError SelectionNumber
decode_priority none = ok none
decode_priority (some v) = some_or invalid_priority (as_positive v) >>= λ n. ok (some n)

abbrev pub decode_effort : Option Value → Result SelectionError SelectionNumber
decode_effort none = ok none
decode_effort (some v) =
    if is_fibonacci_effort v
    then (some_or invalid_effort (as_positive v) >>= λ n. ok (some n))
    else err invalid_effort

unfoldable pub decode_candidate : Value → Result SelectionError ValidatedCandidate
unfolding decode_number_input decode_eligibility
decode_candidate v = do
  fields ←
      decode_struct
        (codes "issue"
          ∷ codes "state"
          ∷ codes "priority"
          ∷ codes "effort"
          ∷ codes "eligibility"
          ∷ [])
        v
  state ← some_or invalid_input (as_state (lookup_field (codes "state") fields))
  priority_input ← decode_number_input (lookup_field (codes "priority") fields)
  effort_input ← decode_number_input (lookup_field (codes "effort") fields)
  eligibility ← decode_eligibility (lookup_field (codes "eligibility") fields)
  issue ← map_error invalid_input (decode_issue_reference (lookup_field (codes "issue") fields))
  priority ← decode_priority priority_input
  effort ← decode_effort effort_input
  ok (record {
    issue = issue;
    state = state;
    priority = priority;
    effort = effort;
    eligibility = eligibility;
  })

abbrev pub candidate_key : ValidatedCandidate → Text
candidate_key c = issue_key c.issue

-- The checks of `decodeSnapshot` on the decoded scope and candidates.
unfoldable pub check_scope :
    List IssueReference → List ValidatedCandidate → Result SelectionError (List ValidatedCandidate)
check_scope scope candidates =
    let scope_keys = set_of (map issue_key scope) in
    let candidate_keys = set_of (map candidate_key candidates) in
    do
      fail_if
          (not (length scope_keys == length scope)
            || not (length candidate_keys == length candidates))
          duplicate_issue
      fail_if
          (not (length scope_keys == length candidate_keys)
            || any (λ k. not (any (text_eq k) scope_keys)) candidate_keys)
          scope_mismatch
      ok candidates

abbrev pub is_complete : Value → Option Bool
is_complete v =
    if is_text v (codes "complete")
    then some true
    else if is_text v (codes "incomplete")
    then some false
    else none

unfoldable pub decode_snapshot : Value → Result SelectionError (List ValidatedCandidate)
unfolding decode_candidate check_scope
decode_snapshot v = do
  fields ← decode_struct (codes "scope" ∷ codes "coverage" ∷ codes "candidates" ∷ []) v
  complete ← some_or invalid_input (is_complete (lookup_field (codes "coverage") fields))
  scope_values ← some_or invalid_input (as_array (lookup_field (codes "scope") fields))
  candidate_values ← some_or invalid_input (as_array (lookup_field (codes "candidates") fields))
  fail_if
      (ltb max_issue_selection_candidates (length scope_values)
        || ltb max_issue_selection_candidates (length candidate_values))
      capacity
  fail_if (not complete) incomplete_snapshot
  scope ← decode_all (λ i. map_error invalid_input (decode_issue_reference i)) scope_values
  candidates ← decode_all decode_candidate candidate_values
  check_scope scope candidates

unfoldable pub select_issue_assignment : Value → Result SelectionError Selection
unfolding select_from
select_issue_assignment v = do
  candidates ← decode_snapshot v
  (let assessments = map assess_candidate candidates in
      ok (selection_of assessments (select_from none assessments)))
