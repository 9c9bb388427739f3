-- ===== src/Tasks/Authority.antt =====
-- prepareTaskChanges without the owner's authorization: no task is cancelled, and none is reopened.
use dotconfig.Base.{
  ℕ, suc, ◌+◌, Bool, true, false, not, ◌&&◌, ◌||◌, Option, is_some, List, [], ◌∷◌, ◌++◌, map, Text,
  text_eq, ltb, ◌==◌, length, get_key, ◌≡◌, inl, inr, sym, subst, arith, Bool-cases, if_true,
  if_false, All, All-append, ok, >>=-elim, fail_if-elim,
}
use dotconfig.Issues.{IssueReference, some_or, issue_key}
use dotconfig.Tasks.{
  Outcome, Tasks, Graph, CurrentTask, TaskStatus, same_status, TaskMutation, op_add, op_edit,
  op_status, op_block, op_transfer, EditChange, TaskEvent, event_add, event_edit, event_status,
  event_block, event_transfer, TaskSnapshot, TaskMutationBatch, TaskMutationContext,
  PreparedTaskChanges, corrupt_state, invalid_allocation, unauthorized, capacity,
  max_transition_nodes,
}
use dotconfig.Tasks.Graph.{validate_graph}
use dotconfig.Tasks.Snapshot.{
  Issues, collect_issues, project_tasks, add_external, expected_additions, allocate, alias_key,
}
use dotconfig.Tasks.Operations.{
  Scope, Working, put_task, put_node, resolve, dependencies, dependencies_or, edit_changes,
  put_edit, edit_with, same_reason, transfer_with, status_with, block_with, add_task, text_or,
  is_forbidden, is_cancelled, apply_operation, apply_operations,
}
use dotconfig.Tasks.Prepare.{
  check_text, collect_changed, advance_issues, summarize, initial_working, conclude, run_operations,
  prepare_task_changes,
}

-- A status is left and reached without the owner's authorization.
abbrev pub IsPermitted : TaskEvent → Type 0
IsPermitted (event_add i task) = Unit
IsPermitted (event_edit i issue id first rest) = Unit
IsPermitted (event_status i issue id before after) =
    (is_cancelled before ≡ false) × (is_cancelled after ≡ false)
IsPermitted (event_block i issue id before after) = Unit
IsPermitted (event_transfer i issue id split_from) = Unit

abbrev IsQuiet : Working → Type 0
IsQuiet w = All IsPermitted w.events

record_event :
    (event : TaskEvent) (w : Working)
    → IsPermitted event
    → IsQuiet w
    → All IsPermitted (w.events ++ event ∷ [])
record_event event w p q = All-append IsPermitted w.events (event ∷ []) q (p, tt)

put_edit-IsQuiet :
    (i : ℕ) (task : CurrentTask) (changes : List EditChange) (w : Working)
    → IsQuiet w
    → IsQuiet (put_edit i task changes w)
unfolding put_edit put_node put_task
put_edit-IsQuiet i task [] w q = q
put_edit-IsQuiet i task (first ∷ rest) w q =
    record_event (event_edit i task.issue task.id first rest) w tt q

transfer_with-IsQuiet :
    (i : ℕ) (task : CurrentTask) (issue : IssueReference) (w : Working)
    → IsQuiet w
    → IsQuiet (transfer_with i task issue w)
unfolding put_task
transfer_with-IsQuiet i task issue w q =
    elim (Bool-cases (text_eq (issue_key task.issue) (issue_key issue))) [
      | inl same ↦ subst IsQuiet (sym (if_true _ _ same)) q
      | inr differs ↦
          subst IsQuiet (sym (if_false w _ differs))
            (record_event (event_transfer i issue task.id task.issue) w tt q)
    ]

status_with-IsQuiet :
    (i : ℕ) (task : CurrentTask) (status : TaskStatus) (w : Working)
    → (is_cancelled task.status || is_cancelled status) ≡ false
    → IsQuiet w
    → IsQuiet (status_with i task status w)
unfolding put_task
status_with-IsQuiet i task status w test q = elim (Bool-cases (same_status task.status status)) [
  | inl same ↦ subst IsQuiet (sym (if_true _ _ same)) q
  | inr differs ↦ subst IsQuiet (sym (if_false w _ differs)) (
      record_event (event_status i task.issue task.id task.status status) w
        (neither (is_cancelled task.status) (is_cancelled status) test) q)
]
  where
    neither : (b c : Bool) → (b || c) ≡ false → (b ≡ false) × (c ≡ false)
    neither b c h = ground arith

block_with-IsQuiet :
    (i : ℕ) (task : CurrentTask) (reason : Option Text) (w : Working)
    → IsQuiet w
    → IsQuiet (block_with i task reason w)
unfolding put_task
block_with-IsQuiet i task reason w q = elim (Bool-cases (same_reason task.blocker reason)) [
  | inl same ↦ subst IsQuiet (sym (if_true _ _ same)) q
  | inr differs ↦
      subst IsQuiet (sym (if_false w _ differs))
        (record_event (event_block i task.issue task.id task.blocker reason) w tt q)
]

apply_operation-IsQuiet :
    (scope : Scope) (i : ℕ) (operation : TaskMutation) (v w : Working)
    → is_forbidden scope.cancellation ≡ true
    → apply_operation scope i operation v ≡ ok w
    → IsQuiet v
    → IsQuiet w
unfolding apply_operation add_task edit_with put_node put_task
apply_operation-IsQuiet scope i (op_add issue key text references) v w f h q =
    fail_if-elim (not (is_some (get_key (issue_key issue) scope.states))) corrupt_state h (λ _ h.
      >>=-elim (some_or invalid_allocation (get_key (alias_key issue key) scope.allocations)) h
        (λ id _ h. fail_if-elim (is_some (get_key id v.tasks)) invalid_allocation h (λ _ h.
          >>=-elim (dependencies scope references v.tasks) h (λ depends_on _ h.
            subst (All IsPermitted) (events_eq h) (record_event (event_add i _) v tt q)))))
  where
    events_eq : {x y : Working} → Path (Outcome Working) (ok x) (ok y) → x.events ≡ y.events
    events_eq h = cc
apply_operation-IsQuiet scope i (op_edit target text references) v w f h q =
    >>=-elim (resolve scope target v.tasks) h (λ task _ h.
      >>=-elim (dependencies_or scope task references v.tasks) h (λ depends_on _ h.
        let e : edit_with i task (text_or task text) depends_on v ≡ w = cc in
        subst IsQuiet e
          (put_edit-IsQuiet i _ (edit_changes task (text_or task text) depends_on) v q)))
apply_operation-IsQuiet scope i (op_transfer target issue) v w f h q =
    >>=-elim (resolve scope target v.tasks) h (λ task _ h.
      fail_if-elim (not (is_some (get_key (issue_key issue) scope.states))) corrupt_state h (λ _ h.
        let e : transfer_with i task issue v ≡ w = cc in
        subst IsQuiet e (transfer_with-IsQuiet i task issue v q)))
apply_operation-IsQuiet scope i (op_status target status) v w f h q =
    >>=-elim (resolve scope target v.tasks) h (λ task _ h.
      fail_if-elim
        (is_forbidden scope.cancellation && (is_cancelled task.status || is_cancelled status))
        unauthorized h
        (λ test h.
          let e : status_with i task status v ≡ w = cc in
          subst IsQuiet e (status_with-IsQuiet i task status v (second f test) q)))
  where
    second : {b c : Bool} → b ≡ true → (b && c) ≡ false → c ≡ false
    second f t = ground arith
apply_operation-IsQuiet scope i (op_block target reason) v w f h q =
    >>=-elim (resolve scope target v.tasks) h (λ task _ h.
      let e : block_with i task reason v ≡ w = cc in
      subst IsQuiet e (block_with-IsQuiet i task reason v q))

apply_operations-IsQuiet :
    (scope : Scope) (i : ℕ) (operations : List TaskMutation) (v w : Working)
    → is_forbidden scope.cancellation ≡ true
    → apply_operations scope i operations v ≡ ok w
    → IsQuiet v
    → IsQuiet w
unfolding apply_operations
apply_operations-IsQuiet scope i [] v w f h q = let e : v ≡ w = cc in subst IsQuiet e q
apply_operations-IsQuiet scope i (operation ∷ operations) v w f h q =
    >>=-elim (apply_operation scope i operation v) h (λ next r h.
      apply_operations-IsQuiet scope (suc i) operations next w f h
        (apply_operation-IsQuiet scope i operation v next f r q))

run_operations-IsQuiet :
    (batch : TaskMutationBatch) (context : TaskMutationContext) (states : Issues) (tasks : Tasks)
    (graph : Graph) {w : Working}
    → is_forbidden context.cancellation ≡ true
    → run_operations batch context states tasks graph ≡ ok w
    → IsQuiet w
unfolding run_operations
run_operations-IsQuiet batch context states tasks graph {w} f h =
    >>=-elim (validate_graph graph) h (λ _ _ h.
      >>=-elim (expected_additions batch.operations []) h (λ expected _ h.
        >>=-elim (allocate expected graph context.additions []) h (λ allocations _ h.
          fail_if-elim (not (length allocations == length expected)) invalid_allocation h (λ _ h.
            apply_operations-IsQuiet _ 0 batch.operations (initial_working tasks graph) w f h tt))))

conclude-IsPermitted :
    (batch : TaskMutationBatch) (states : Issues) (w : Working) {prepared : PreparedTaskChanges}
    → IsQuiet w
    → conclude batch states w ≡ ok prepared
    → All IsPermitted prepared.events
unfolding conclude
conclude-IsPermitted batch states w {prepared} q h = >>=-elim (check_text w.tasks 0) h (λ _ _ h.
    >>=-elim (validate_graph w.graph) h (λ _ _ h.
      >>=-elim (collect_changed w.tasks w.touched) h (λ changed_tasks _ h.
        >>=-elim (advance_issues states _ batch.issues) h (λ issues _ h.
          >>=-elim (summarize w.touched issues changed_tasks) h (λ changed _ h.
            let e : record {
              issues = issues;
              tasks = changed_tasks;
              events = w.events;
              changed = changed;
            }
                ≡ prepared =
              cc in
            subst (λ p. All IsPermitted p.events) e q)))))

-- When prepareTaskChanges succeeds in a context that forbids cancellation, no event of the result takes
-- a task to the status `cancelled` or away from it.
pub prepare_task_changes-IsPermitted :
    (batch : TaskMutationBatch) (snapshot : TaskSnapshot) (context : TaskMutationContext)
    {prepared : PreparedTaskChanges}
    → is_forbidden context.cancellation ≡ true
    → prepare_task_changes batch snapshot context ≡ ok prepared
    → All IsPermitted prepared.events
unfolding prepare_task_changes
prepare_task_changes-IsPermitted batch snapshot context f h =
    fail_if-elim (ltb max_transition_nodes (length snapshot.tasks + length snapshot.external))
      capacity h
      (λ _ h.
        >>=-elim (collect_issues (map issue_key batch.issues) snapshot.issues []) h (λ states _ h.
          >>=-elim (project_tasks states snapshot.tasks 0 [] []) h (λ projected _ h.
            >>=-elim (add_external snapshot.external projected.1) h (λ graph _ h.
              >>=-elim (run_operations batch context states projected.0 graph) h (λ w ran h.
                conclude-IsPermitted batch states w
                  (run_operations-IsQuiet batch context states projected.0 graph f ran) h)))))
