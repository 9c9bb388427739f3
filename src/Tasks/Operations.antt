-- ===== src/Tasks/Operations.antt =====
-- prepareTaskChanges, the loop over `batch.operations`: what each operation does to the working state.
use dotconfig.Base.{
  ℕ, suc, Bool, true, false, not, ◌&&◌, ◌||◌, Option, none, some, is_some, List, [], ◌∷◌, ◌++◌, map,
  Text, text_eq, ◌==◌, length, if◌then◌else◌, ok, fail_if, ◌>>=◌, ◌>>◌, get_key, set_key,
  sort_texts,
}
use dotconfig.Issues.{IssueReference, some_or, issue_key, set_of}
use dotconfig.Issues.Sets.{has}
use dotconfig.Tasks.{
  Outcome, Tasks, Graph, CurrentTask, TaskStatus, todo, cancelled, same_status, Cancellation,
  forbidden, owner_authorized, TaskReference, TaskTarget, existing, added, TaskMutation, op_add,
  op_edit, op_status, op_block, op_transfer, EditChange, text_change, depends_on_change, TaskEvent,
  event_add, event_edit, event_status, event_block, event_transfer, ChangedField, text_field,
  depends_on_field, status_field, blocker_field, issue_field, corrupt_state, scope_mismatch,
  missing_task, invalid_allocation, unauthorized, frozen_task,
}
use dotconfig.Tasks.Snapshot.{Issues, Allocations, alias_key}

-- What the loop reads and does not change.
pub record Scope : Type 0 where
  pub cancellation : Cancellation
  pub states : Issues
  pub initial_ids : List Text
  pub allocations : Allocations

-- `touched`: the fields of a task that changed. A field that is marked again comes again.
abbrev pub Touched : Type 0
Touched = List (Text × List ChangedField)

-- What the loop changes.
pub record Working : Type 0 where
  pub tasks : Tasks
  pub graph : Graph
  pub events : List TaskEvent
  pub changed_issues : List Text
  pub touched : Touched

unfoldable pub mark : Text → List ChangedField → Touched → Touched
unfolding get_key set_key
mark id fields touched = elim (get_key id touched) [
  | none ↦ set_key id fields touched
  | some prior ↦ set_key id (prior ++ fields) touched
]

-- The issues that an event changes.
unfoldable pub issues_of : TaskEvent → List Text
unfolding issue_key
issues_of (event_add i task) = issue_key task.issue ∷ []
issues_of (event_edit i issue id first rest) = issue_key issue ∷ []
issues_of (event_status i issue id before after) = issue_key issue ∷ []
issues_of (event_block i issue id before after) = issue_key issue ∷ []
issues_of (event_transfer i issue id split_from) = issue_key issue ∷ issue_key split_from ∷ []

-- `tasks.set`, `record` and `mark` for the task as it is now.
unfoldable pub put_task : CurrentTask → TaskEvent → List ChangedField → Working → Working
unfolding set_key mark issues_of
put_task task event fields w = record w {
  tasks = set_key task.id task w.tasks;
  events = w.events ++ event ∷ [];
  changed_issues = w.changed_issues ++ issues_of event;
  touched = mark task.id fields w.touched;
}

-- The same with `graph.set`.
unfoldable pub put_node : CurrentTask → TaskEvent → List ChangedField → Working → Working
unfolding put_task
put_node task event fields w =
    put_task task event fields (record w { graph = set_key task.id task.depends_on w.graph })

module _ (scope : Scope) where
  unfoldable pub resolve_target : IssueReference → TaskTarget → Tasks → Outcome CurrentTask
  unfolding text_eq issue_key alias_key get_key
  resolve_target issue (existing id) tasks = do
    fail_if (not (has scope.initial_ids id)) missing_task
    task ← some_or missing_task (get_key id tasks)
    fail_if (not (text_eq (issue_key task.issue) (issue_key issue))) scope_mismatch
    ok task
  resolve_target issue (added key) tasks = do
    id ← some_or missing_task (get_key (alias_key issue key) scope.allocations)
    some_or missing_task (get_key id tasks)

  unfoldable pub resolve : TaskReference → Tasks → Outcome CurrentTask
  unfolding resolve_target
  resolve reference tasks = resolve_target reference.issue reference.task tasks

  unfoldable pub resolve_ids : List TaskReference → Tasks → Outcome (List Text)
  unfolding resolve
  resolve_ids [] tasks = ok []
  resolve_ids (reference ∷ references) tasks = do
    task ← resolve reference tasks
    ids ← resolve_ids references tasks
    ok (task.id ∷ ids)

  unfoldable pub dependencies : List TaskReference → Tasks → Outcome (List Text)
  unfolding resolve_ids set_of sort_texts
  dependencies references tasks = do
    ids ← resolve_ids references tasks
    fail_if (not (length (set_of ids) == length ids)) corrupt_state
    ok (sort_texts ids)

  -- `operation.dependsOn === undefined ? task.dependsOn : yield* dependencies(…)`
  abbrev pub dependencies_or :
      CurrentTask → Option (List TaskReference) → Tasks → Outcome (List Text)
  dependencies_or task none tasks = ok task.depends_on
  dependencies_or task (some references) tasks = dependencies references tasks

  unfoldable pub add_task :
      ℕ → IssueReference → Text → Text → List TaskReference → Working → Outcome Working
  unfolding alias_key issue_key get_key dependencies frozen_task put_node
  add_task i issue key text references w = do
    fail_if (not (is_some (get_key (issue_key issue) scope.states))) corrupt_state
    id ← some_or invalid_allocation (get_key (alias_key issue key) scope.allocations)
    fail_if (is_some (get_key id w.tasks)) invalid_allocation
    depends_on ← dependencies references w.tasks
    let task = frozen_task (record {
      issue = issue;
      id = id;
      text = text;
      status = todo;
      blocker = none;
      depends_on = depends_on;
    })
    ok (
        put_node task (event_add i task)
          (text_field ∷ status_field ∷ blocker_field ∷ depends_on_field ∷ []) w)

-- `equalIds`
abbrev pub equal_ids : List Text → List Text → Bool
equal_ids [] [] = true
equal_ids (a ∷ first) (b ∷ second) = text_eq a b && equal_ids first second
equal_ids _ _ = false

unfoldable pub edit_changes : CurrentTask → Text → List Text → List EditChange
unfolding text_eq
edit_changes task text depends_on =
    (if text_eq text task.text then [] else text_change task.text text ∷ [])
    ++ (if equal_ids depends_on task.depends_on
        then []
        else depends_on_change task.depends_on depends_on ∷ [])

abbrev pub field_of : EditChange → ChangedField
field_of (text_change before after) = text_field
field_of (depends_on_change before after) = depends_on_field

-- The edited task, when there is a change.
unfoldable pub put_edit : ℕ → CurrentTask → List EditChange → Working → Working
unfolding put_node
put_edit i task [] w = w
put_edit i task (first ∷ rest) w =
    put_node task (event_edit i task.issue task.id first rest) (map field_of (first ∷ rest)) w

unfoldable pub edit_with : ℕ → CurrentTask → Text → List Text → Working → Working
unfolding edit_changes put_edit frozen_task
edit_with i task text depends_on w =
    put_edit i (frozen_task (record task { text = text; depends_on = depends_on }))
      (edit_changes task text depends_on) w

unfoldable pub same_reason : Option Text → Option Text → Bool
unfolding text_eq
same_reason none none = true
same_reason (some a) (some b) = text_eq a b
same_reason _ _ = false

abbrev pub is_forbidden : Cancellation → Bool
is_forbidden forbidden = true
is_forbidden owner_authorized = false

abbrev pub is_cancelled : TaskStatus → Bool
is_cancelled status = same_status status cancelled

-- `operation.text === undefined ? task.text : operation.text`
abbrev pub text_or : CurrentTask → Option Text → Text
text_or task none = task.text
text_or task (some text) = text

abbrev pub transfer_with : ℕ → CurrentTask → IssueReference → Working → Working
transfer_with i task issue w =
    if text_eq (issue_key task.issue) (issue_key issue)
    then w
    else put_task (frozen_task (record task { issue = issue }))
        (event_transfer i issue task.id task.issue) (issue_field ∷ []) w

abbrev pub status_with : ℕ → CurrentTask → TaskStatus → Working → Working
status_with i task status w =
    if same_status task.status status
    then w
    else put_task (frozen_task (record task { status = status }))
        (event_status i task.issue task.id task.status status) (status_field ∷ []) w

abbrev pub block_with : ℕ → CurrentTask → Option Text → Working → Working
block_with i task reason w =
    if same_reason task.blocker reason
    then w
    else put_task (frozen_task (record task { blocker = reason }))
        (event_block i task.issue task.id task.blocker reason) (blocker_field ∷ []) w

module _ (scope : Scope) where
  unfoldable pub apply_operation : ℕ → TaskMutation → Working → Outcome Working
  unfolding add_task resolve dependencies edit_with put_task frozen_task text_eq issue_key get_key
      same_reason
  apply_operation i (op_add issue key text references) w =
      add_task scope i issue key text references w
  apply_operation i (op_edit target text references) w = do
    task ← resolve scope target w.tasks
    depends_on ← dependencies_or scope task references w.tasks
    ok (edit_with i task (text_or task text) depends_on w)
  apply_operation i (op_transfer target issue) w = do
    task ← resolve scope target w.tasks
    fail_if (not (is_some (get_key (issue_key issue) scope.states))) corrupt_state
    ok (transfer_with i task issue w)
  apply_operation i (op_status target status) w = do
    task ← resolve scope target w.tasks
    fail_if (is_forbidden scope.cancellation && (is_cancelled task.status || is_cancelled status))
        unauthorized
    ok (status_with i task status w)
  apply_operation i (op_block target reason) w = do
    task ← resolve scope target w.tasks
    ok (block_with i task reason w)

  unfoldable pub apply_operations : ℕ → List TaskMutation → Working → Outcome Working
  unfolding apply_operation
  apply_operations i [] w = ok w
  apply_operations i (operation ∷ operations) w =
      apply_operation i operation w >>= λ next. apply_operations (suc i) operations next
