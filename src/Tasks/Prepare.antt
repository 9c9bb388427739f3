-- ===== src/Tasks/Prepare.antt =====
-- prepareTaskChanges as a whole: the snapshot, the operations, and what is to be stored.
use dotconfig.Base.{
  ◌++◌, ℕ, suc, ◌+◌, Bool, true, false, not, Option, none, some, List, [], ◌∷◌, map, Text, ltb, leb,
  ◌==◌, length, any, keep, text_eq, max_safe_integer, if◌then◌else◌, ok, fail_if, ◌>>=◌, ◌>>◌,
  get_key,
}
use dotconfig.Issues.{IssueReference, some_or, issue_key}
use dotconfig.Issues.Sets.{has}
use dotconfig.Tasks.{
  Outcome, Tasks, Graph, CurrentTask, TaskSnapshot, TaskMutationBatch, TaskMutationContext,
  IssueCandidate, ChangedField, text_field, depends_on_field, status_field, blocker_field,
  issue_field, TaskChangeSummary, PreparedTaskChanges, corrupt_state, invalid_allocation,
  revision_exhausted, capacity, max_transition_nodes, max_transition_text,
}
use dotconfig.Tasks.Graph.{validate_graph}
use dotconfig.Tasks.Snapshot.{
  Issues, collect_issues, project_tasks, add_external, expected_additions, allocate, text_size,
}
use dotconfig.Tasks.Operations.{Touched, Working, apply_operations}

-- The loop over `tasks.values()`, with `finalTextSize`.
unfoldable pub check_text : Tasks → ℕ → Outcome (Unit {0})
check_text [] size = ok tt
check_text ((id, task) ∷ tasks) size = do
  fail_if (ltb max_transition_text (size + text_size task)) capacity
  check_text tasks (size + text_size task)

-- `changedTasks`
unfoldable pub collect_changed : Tasks → Touched → Outcome (List CurrentTask)
unfolding get_key
collect_changed tasks [] = ok []
collect_changed tasks ((id, fields) ∷ touched) = do
  task ← some_or corrupt_state (get_key id tasks)
  rest ← collect_changed tasks touched
  ok (task ∷ rest)

-- A changed issue with its next revision, before the others of the batch.
unfoldable pub advance_issue :
    Issues → IssueReference → Outcome (List IssueCandidate) → Outcome (List IssueCandidate)
unfolding issue_key get_key
advance_issue states issue later = do
  candidate ← some_or corrupt_state (get_key (issue_key issue) states)
  fail_if (not (leb (suc candidate.state.revision) max_safe_integer)) revision_exhausted
  rest ← later
  ok (
      record {
        kind = candidate.kind;
        state = record { issue = issue; revision = suc candidate.state.revision };
      }
      ∷ rest)

-- `preparedIssues`, the loop over `batch.issues`.
unfoldable pub advance_issues :
    Issues → List Text → List IssueReference → Outcome (List IssueCandidate)
unfolding issue_key text_eq advance_issue
advance_issues states changed [] = ok []
advance_issues states changed (issue ∷ issues) =
    let later = advance_issues states changed issues in
    if has changed (issue_key issue) then advance_issue states issue later else later

-- `revisions.get(key)`: the last revision set for the key.
unfoldable pub get_revision : Text → List IssueCandidate → Option ℕ
unfolding issue_key text_eq
get_revision key [] = none
get_revision key (prepared ∷ issues) = elim (get_revision key issues) [
  | some revision ↦ some revision
  | none ↦
      if text_eq (issue_key prepared.state.issue) key then some prepared.state.revision else none
]

abbrev pub same_field : ChangedField → ChangedField → Bool
same_field text_field text_field = true
same_field depends_on_field depends_on_field = true
same_field status_field status_field = true
same_field blocker_field blocker_field = true
same_field issue_field issue_field = true
same_field _ _ = false

abbrev pub field_order : List ChangedField
field_order = text_field ∷ status_field ∷ blocker_field ∷ depends_on_field ∷ issue_field ∷ []

-- `changed`, the loop over `changedTasks`.
unfoldable pub summarize :
    Touched → List IssueCandidate → List CurrentTask → Outcome (List TaskChangeSummary)
unfolding get_key get_revision issue_key
summarize touched issues [] = ok []
summarize touched issues (task ∷ tasks) = do
  fields ← some_or corrupt_state (get_key task.id touched)
  revision ← some_or corrupt_state (get_revision (issue_key task.issue) issues)
  rest ← summarize touched issues tasks
  ok (
      record {
        issue = task.issue;
        id = task.id;
        revision = revision;
        fields = keep (λ field. any (same_field field) fields) field_order;
      }
      ∷ rest)

abbrev pub initial_working : Tasks → Graph → Working
initial_working tasks graph = record {
  tasks = tasks;
  graph = graph;
  events = [];
  changed_issues = [];
  touched = [];
}

-- What follows the loop over the operations.
unfoldable pub conclude : TaskMutationBatch → Issues → Working → Outcome PreparedTaskChanges
unfolding check_text validate_graph collect_changed advance_issues summarize issue_key
conclude batch states w = do
  check_text w.tasks 0
  validate_graph w.graph
  changed_tasks ← collect_changed w.tasks w.touched
  prepared_issues ←
      advance_issues states (w.changed_issues ++ map (λ task. issue_key task.issue) changed_tasks)
        batch.issues
  changed ← summarize w.touched prepared_issues changed_tasks
  ok (record {
    issues = prepared_issues;
    tasks = changed_tasks;
    events = w.events;
    changed = changed;
  })

-- The operations on the tasks of the snapshot, with the identities of the new ones.
unfoldable pub run_operations :
    TaskMutationBatch → TaskMutationContext → Issues → Tasks → Graph → Outcome Working
unfolding validate_graph expected_additions allocate apply_operations
run_operations batch context states tasks graph = do
  validate_graph graph
  expected ← expected_additions batch.operations []
  allocations ← allocate expected graph context.additions []
  fail_if (not (length allocations == length expected)) invalid_allocation
  apply_operations
      (record {
        cancellation = context.cancellation;
        states = states;
        initial_ids = map (λ entry. entry.0) tasks;
        allocations = allocations;
      })
      0 batch.operations (initial_working tasks graph)

unfoldable pub prepare_task_changes :
    TaskMutationBatch → TaskSnapshot → TaskMutationContext → Outcome PreparedTaskChanges
unfolding issue_key collect_issues project_tasks add_external run_operations conclude
prepare_task_changes batch snapshot context = do
  fail_if (ltb max_transition_nodes (length snapshot.tasks + length snapshot.external)) capacity
  states ← collect_issues (map issue_key batch.issues) snapshot.issues []
  projected ← project_tasks states snapshot.tasks 0 [] []
  graph ← add_external snapshot.external projected.1
  w ← run_operations batch context states projected.0 graph
  conclude batch states w
