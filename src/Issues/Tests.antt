-- ===== src/Issues/Tests.antt =====
-- Runs of identity.ts, fibonacci-effort.ts and selector.ts, and the theorems at concrete issues.
use dotconfig.Base.{
  text_ltb, ℕ, ◌≡◌, ◌↔◌, refl, true, false, Option, none, some, List, [], ◌∷◌, Text, codes, text_eq,
  Value, str, num, int, pos, obj, arr, nil, cons, field, end, lookup_field, decimal, ok, err, Items,
}
use dotconfig.Issues.{
  IssueReference, decode_issue_reference, decode_issue_repository, decode_issue_scope,
  valid_repository, valid_owner, valid_name, split_slash, ends_pass, last_passes, has_double_dash,
  issue_key, set_of, invalid_repository,
}
use dotconfig.Issues.Identity.{IsRank, IsIssue}
use dotconfig.Issues.Effort.{is_fibonacci_effort, fibonacci_loop, fib, is_fibonacci_effort_iff}
use dotconfig.Issues.Selector.{
  clear, opened, ValidatedCandidate, Assessment, eligible, refinement, selected, scope_mismatch,
  compare_candidates, select_from, assess_candidate,
}
use dotconfig.Issues.Selector.Snapshot.{
  decode_snapshot, decode_candidate, decode_number_input, decode_eligibility, check_scope,
  select_issue_assignment,
}
use dotconfig.Issues.Selector.Best.{IsRightSelection, select_issue_assignment-IsRightSelection}
use dotconfig.Issues.Selector.Assess.{IsReady, assess_candidate-eligible_iff}
use dotconfig.Issues.Selector.Scope.{IsCovered, check_scope-IsCovered}

issues : Unit {0}
unfolding decode_issue_reference decode_issue_repository decode_issue_scope valid_repository
    valid_owner valid_name split_slash ends_pass last_passes has_double_dash issue_key set_of
    is_fibonacci_effort fibonacci_loop fib compare_candidates text_ltb select_from assess_candidate
    decode_snapshot decode_candidate decode_number_input decode_eligibility check_scope
    select_issue_assignment text_eq lookup_field decimal
issues = tt

repository_tests :
    (decode_issue_repository (str (codes "0xGleb/DotConfig")) ≡ ok (codes "0xgleb/dotconfig"))
    × (decode_issue_repository (str (codes "a--b/c")) ≡ err invalid_repository)
    × (decode_issue_repository (str (codes "-a/c")) ≡ err invalid_repository)
    × (decode_issue_repository (str (codes "a/..")) ≡ err invalid_repository)
    × (decode_issue_repository (str (codes "a/b/c")) ≡ err invalid_repository)
unfolding issues
repository_tests = (refl, refl, refl, refl, refl)

abbrev issue_value : Text → ℕ → Value
issue_value r n =
    obj (field (codes "repository") (str r) (field (codes "number") (num (int (pos n))) end))

abbrev issue : ℕ → IssueReference
issue n = record { repository = codes "o/r"; number = n }

effort_tests :
    (is_fibonacci_effort (num (int (pos 8))) ≡ true)
    × (is_fibonacci_effort (num (int (pos 9))) ≡ false)
    × (is_fibonacci_effort (num (int (pos 0))) ≡ false)
unfolding issues
effort_tests = (refl, refl, refl)

abbrev number_value : Option ℕ → Value
number_value none = obj (field (codes "kind") (str (codes "unset")) end)
number_value (some n) =
    obj
      (field (codes "kind") (str (codes "number")) (field (codes "value") (num (int (pos n))) end))

abbrev candidate_value : ℕ → Option ℕ → Option ℕ → Value
candidate_value n p e = obj (
    field (codes "issue") (issue_value (codes "o/r") n) (
      field (codes "state") (str (codes "open")) (
        field (codes "priority") (number_value p) (
          field (codes "effort") (number_value e) (
            field (codes "eligibility")
              (obj (
                field (codes "blockers") (str (codes "clear"))
                  (field (codes "dependencies") (str (codes "clear")) end)))
              end)))))

abbrev snapshot_value : Items → Items → Value
snapshot_value scope candidates = obj (
    field (codes "scope") (arr scope) (
      field (codes "coverage") (str (codes "complete"))
        (field (codes "candidates") (arr candidates) end)))

abbrev three : Value
three =
    snapshot_value
      (cons (issue_value (codes "o/r") 1)
        (cons (issue_value (codes "O/R") 2) (cons (issue_value (codes "o/r") 3) nil)))
      (cons (candidate_value 1 (some 3) (some 2))
        (cons (candidate_value 2 (some 1) (some 5)) (cons (candidate_value 3 (some 1) none) nil)))

abbrev assessed : List Assessment
assessed =
    eligible (record { issue = issue 1; priority = 3; effort = 2 })
    ∷ eligible (record { issue = issue 2; priority = 1; effort = 5 })
    ∷ refinement (issue 3)
    ∷ []

select_test : select_issue_assignment three ≡ ok (selected (issue 2) assessed)
unfolding issues
select_test = refl

mismatch_test :
    select_issue_assignment (
      snapshot_value
        (cons (issue_value (codes "o/r") 1) nil)
        (cons (candidate_value 2 none none) nil))
    ≡ err scope_mismatch
unfolding issues
mismatch_test = refl

issue-IsIssue : (n : ℕ) → IsRank n → IsIssue (issue n)
unfolding issues
issue-IsIssue n h = record { repository = record { valid = refl; lowered = refl }; number = h }

is_fibonacci_effort_iff_example :
    (is_fibonacci_effort (num (int (pos 8))) ≡ true) ↔ (IsRank 8 × ((j : ℕ) × (fib j ≡ 8)))
is_fibonacci_effort_iff_example = is_fibonacci_effort_iff 8

select_issue_assignment-IsRightSelection_example :
    (candidates : List ValidatedCandidate) × (decode_snapshot three ≡ ok candidates)
    × IsRightSelection candidates (selected (issue 2) assessed)
select_issue_assignment-IsRightSelection_example =
    select_issue_assignment-IsRightSelection three (selected (issue 2) assessed) select_test

abbrev candidate : ℕ → ValidatedCandidate
candidate n = record {
  issue = issue n;
  state = opened;
  priority = some 3;
  effort = some 2;
  eligibility = record { blockers = clear; dependencies = clear };
}

assess_candidate-eligible_iff_example :
    (assess_candidate (candidate 1)
      ≡ eligible (record { issue = issue 1; priority = 3; effort = 2 }))
    ↔ IsReady (candidate 1) 3 2
assess_candidate-eligible_iff_example = assess_candidate-eligible_iff (candidate 1) 3 2

check_scope-IsCovered_example :
    (candidate 2 ∷ candidate 1 ∷ [] ≡ candidate 2 ∷ candidate 1 ∷ [])
    × IsCovered (issue 1 ∷ issue 2 ∷ []) (candidate 2 ∷ candidate 1 ∷ [])
unfolding issues
check_scope-IsCovered_example =
    check_scope-IsCovered (issue 1 ∷ issue 2 ∷ []) (candidate 2 ∷ candidate 1 ∷ [])
      (candidate 2 ∷ candidate 1 ∷ []) refl
