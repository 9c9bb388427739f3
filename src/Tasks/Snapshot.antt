-- ===== src/Tasks/Snapshot.antt =====
-- prepareTaskChanges up to the loop over the operations: the state of the issues, the tasks and their
-- graph, and the identities of the tasks that the batch adds.
use dotconfig.Base.{
  ℕ, ◌+◌, Bool, true, false, not, ◌&&◌, ◌||◌, Option, none, some, is_some, List, [], ◌∷◌, ◌++◌,
  Text, codes, ltb, leb, ◌==◌, length, any, text_eq, max_safe_integer, ok, fail_if, ◌>>◌, get_key,
  set_key,
}
use dotconfig.Issues.{IssueReference, issue_key}
use dotconfig.Issues.Sets.{has}
use dotconfig.Tasks.{
  Outcome, Tasks, Graph, CurrentTask, DependencyNode, IssueCandidate, CandidateKind, is_stored,
  is_new, TaskMutation, op_add, TaskIdAllocation, corrupt_state, invalid_allocation, capacity,
  max_transition_text, frozen_task,
}

abbrev pub Issues : Type 0
Issues = List (Text × IssueCandidate)

abbrev pub is_new_kind : CandidateKind → Bool
is_new_kind is_stored = false
is_new_kind is_new = true

-- The loop over `snapshot.issues`, whose scope is the keys of the batch's issues.
unfoldable pub collect_issues : List Text → List IssueCandidate → Issues → Outcome Issues
unfolding text_eq issue_key get_key set_key
collect_issues scope [] states = ok states
collect_issues scope (candidate ∷ candidates) states = do
  fail_if
      (not (has scope (issue_key candidate.state.issue))
        || is_some (get_key (issue_key candidate.state.issue) states)
        || not (leb candidate.state.revision max_safe_integer)
        || (is_new_kind candidate.kind && not (candidate.state.revision == 0)))
      corrupt_state
  collect_issues scope candidates (set_key (issue_key candidate.state.issue) candidate states)

-- `candidate === undefined || candidate.kind !== "stored"`
abbrev pub is_not_stored : Option IssueCandidate → Bool
is_not_stored none = true
is_not_stored (some candidate) = is_new_kind candidate.kind

abbrev pub text_size : CurrentTask → ℕ
text_size task = length task.text + elim task.blocker [ none ↦ 0 | some reason ↦ length reason ]

-- The loop over `snapshot.tasks`, with `textSize`.
unfoldable pub project_tasks :
    Issues → List CurrentTask → ℕ → Tasks → Graph → Outcome (Tasks × Graph)
unfolding issue_key get_key set_key frozen_task
project_tasks states [] size tasks graph = ok (tasks, graph)
project_tasks states (task ∷ rest) size tasks graph = do
  fail_if (is_not_stored (get_key (issue_key task.issue) states) || is_some (get_key task.id tasks))
      corrupt_state
  fail_if (ltb max_transition_text (size + text_size task)) capacity
  project_tasks states rest (size + text_size task) (set_key task.id (frozen_task task) tasks)
      (set_key task.id (frozen_task task).depends_on graph)

-- The loop over `snapshot.external`.
unfoldable pub add_external : List DependencyNode → Graph → Outcome Graph
unfolding get_key set_key
add_external [] graph = ok graph
add_external (node ∷ nodes) graph = do
  fail_if (is_some (get_key node.id graph)) corrupt_state
  add_external nodes (set_key node.id node.depends_on graph)

unfoldable pub alias_key : IssueReference → Text → Text
unfolding issue_key
alias_key issue key = issue_key issue ++ codes ":" ++ key

-- `expected`: the aliases of the tasks that the operations add.
unfoldable pub expected_additions : List TaskMutation → List Text → Outcome (List Text)
unfolding alias_key text_eq
expected_additions [] expected = ok expected
expected_additions (op_add issue key text depends_on ∷ operations) expected = do
  fail_if (has expected (alias_key issue key)) invalid_allocation
  expected_additions operations (expected ++ alias_key issue key ∷ [])
expected_additions (operation ∷ operations) expected = expected_additions operations expected

abbrev pub Allocations : Type 0
Allocations = List (Text × Text)

-- The loop over `context.additions`; `allocatedIds` are the values of `allocations`.
unfoldable pub allocate :
    List Text → Graph → List TaskIdAllocation → Allocations → Outcome Allocations
unfolding alias_key text_eq get_key set_key
allocate expected graph [] allocations = ok allocations
allocate expected graph (addition ∷ additions) allocations = do
  fail_if
      (not (has expected (alias_key addition.issue addition.key))
        || is_some (get_key (alias_key addition.issue addition.key) allocations)
        || is_some (get_key addition.id graph)
        || any (λ entry. text_eq addition.id entry.1) allocations)
      invalid_allocation
  allocate expected graph additions
      (set_key (alias_key addition.issue addition.key) addition.id allocations)
