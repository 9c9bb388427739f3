-- ===== src/Tasks/Replay/Applied.antt =====
-- What the loop over the operations records replays to the tasks that it leaves.
use dotconfig.Base.{
  ℕ, suc, not, ◌&&◌, ◌||◌, Option, none, some, is_some, List, [], ◌∷◌, Text, if_false, get_key, ◌≡◌,
  refl, sym, ap, ◌∙◌, subst, sort_texts, sort_texts_idem, ◌==◌, length, ok, >>=-elim, fail_if-elim,
}
use dotconfig.Issues.{IssueReference, some_or, issue_key, set_of}
use dotconfig.Tasks.{
  Tasks, CurrentTask, todo, TaskReference, TaskMutation, op_add, op_edit, op_status, op_block,
  op_transfer, event_add, text_field, depends_on_field, status_field, blocker_field, unauthorized,
  corrupt_state, invalid_allocation, frozen_task,
}
use dotconfig.Tasks.Snapshot.{alias_key}
use dotconfig.Tasks.Operations.{
  Scope, Working, put_node, resolve, resolve_ids, dependencies, dependencies_or, edit_changes,
  edit_with, transfer_with, status_with, block_with, add_task, text_or, is_forbidden, is_cancelled,
  apply_operation, apply_operations,
}
use dotconfig.Tasks.Replay.{replay_event, IsProjection}
use dotconfig.Tasks.Replay.Logged.{Logged, IsCurrent, resolve-IsCurrent, Logged-refl, Logged-trans}
use dotconfig.Tasks.Replay.Steps.{
  transfer_with-Logged, status_with-Logged, block_with-Logged, put_edit-Logged, put_node-Logged,
  edit_changes-replay, frozen_task-sorted, frozen_task_fixed,
}

dependencies-sorted :
    (scope : Scope) (references : List TaskReference) (tasks : Tasks) {ids : List Text}
    → dependencies scope references tasks ≡ ok ids
    → sort_texts ids ≡ ids
unfolding dependencies
dependencies-sorted scope references tasks {ids} h =
    >>=-elim (resolve_ids scope references tasks) h (λ found q h.
      fail_if-elim (not (length (set_of found) == length found)) corrupt_state h (λ r h.
        let e : sort_texts found ≡ ids = cc in
        subst (λ x. sort_texts x ≡ x) e (sort_texts_idem found)))

dependencies_or-sorted :
    (scope : Scope) (task : CurrentTask) (references : Option (List TaskReference)) (tasks : Tasks)
    {ids : List Text}
    → sort_texts task.depends_on ≡ task.depends_on
    → dependencies_or scope task references tasks ≡ ok ids
    → sort_texts ids ≡ ids
dependencies_or-sorted scope task none tasks {ids} s h =
    let e : task.depends_on ≡ ids = cc in subst (λ x. sort_texts x ≡ x) e s
dependencies_or-sorted scope task (some references) tasks s h =
    dependencies-sorted scope references tasks h

edit_with-Logged :
    (i : ℕ) (task : CurrentTask) (text : Text) (depends_on : List Text) (w : Working)
    → sort_texts depends_on ≡ depends_on
    → IsProjection w.tasks
    → IsCurrent task w.tasks
    → Logged w (edit_with i task text depends_on w)
unfolding edit_with frozen_task
edit_with-Logged i task text depends_on w sorted p c =
    let edited = record task { text = text; depends_on = depends_on } in
    put_edit-Logged i task (frozen_task edited) (edit_changes task text depends_on) w refl refl
      (frozen_task-sorted edited) p c
      (edit_changes-replay task text depends_on ∙ ap some (sym (frozen_task_fixed edited sorted)))

add_task-Logged :
    (scope : Scope) (i : ℕ) (issue : IssueReference) (key text : Text)
    (references : List TaskReference) (v w : Working)
    → IsProjection v.tasks
    → add_task scope i issue key text references v ≡ ok w
    → Logged v w
unfolding add_task replay_event frozen_task
add_task-Logged scope i issue key text references v w p h =
    fail_if-elim (not (is_some (get_key (issue_key issue) scope.states))) corrupt_state h (λ q h.
      >>=-elim (some_or invalid_allocation (get_key (alias_key issue key) scope.allocations)) h
        (λ id q h. fail_if-elim (is_some (get_key id v.tasks)) invalid_allocation h (λ free h.
          >>=-elim (dependencies scope references v.tasks) h (λ depends_on q h.
            let task = frozen_task (record {
              issue = issue;
              id = id;
              text = text;
              status = todo;
              blocker = none;
              depends_on = depends_on;
            }) in
            let fields = text_field ∷ status_field ∷ blocker_field ∷ depends_on_field ∷ [] in
            let e : put_node task (event_add i task) fields v ≡ w = cc in
            subst (Logged v) e (
              put_node-Logged task (event_add i task) fields v (if_false none _ free)
                (sort_texts_idem depends_on) p)))))

apply_operation-Logged :
    (scope : Scope) (i : ℕ) (operation : TaskMutation) (v w : Working)
    → IsProjection v.tasks
    → apply_operation scope i operation v ≡ ok w
    → Logged v w
unfolding apply_operation
apply_operation-Logged scope i (op_add issue key text references) v w p h =
    add_task-Logged scope i issue key text references v w p h
apply_operation-Logged scope i (op_edit target text references) v w p h =
    >>=-elim (resolve scope target v.tasks) h (λ task q h.
      >>=-elim (dependencies_or scope task references v.tasks) h (λ depends_on r h.
        let c = resolve-IsCurrent scope target v.tasks p q in
        let e : edit_with i task (text_or task text) depends_on v ≡ w = cc in
        subst (Logged v) e (
          edit_with-Logged i task (text_or task text) depends_on v
            (dependencies_or-sorted scope task references v.tasks c.sorted r) p c)))
apply_operation-Logged scope i (op_transfer target issue) v w p h =
    >>=-elim (resolve scope target v.tasks) h (λ task q h.
      fail_if-elim (not (is_some (get_key (issue_key issue) scope.states))) corrupt_state h (λ r h.
        let e : transfer_with i task issue v ≡ w = cc in
        subst (Logged v) e
          (transfer_with-Logged i task issue v p (resolve-IsCurrent scope target v.tasks p q))))
apply_operation-Logged scope i (op_status target status) v w p h =
    >>=-elim (resolve scope target v.tasks) h (λ task q h.
      fail_if-elim
        (is_forbidden scope.cancellation && (is_cancelled task.status || is_cancelled status))
        unauthorized h
        (λ r h.
          let e : status_with i task status v ≡ w = cc in
          subst (Logged v) e
            (status_with-Logged i task status v p (resolve-IsCurrent scope target v.tasks p q))))
apply_operation-Logged scope i (op_block target reason) v w p h =
    >>=-elim (resolve scope target v.tasks) h (λ task q h.
      let e : block_with i task reason v ≡ w = cc in
      subst (Logged v) e
        (block_with-Logged i task reason v p (resolve-IsCurrent scope target v.tasks p q)))

pub apply_operations-Logged :
    (scope : Scope) (i : ℕ) (operations : List TaskMutation) (v w : Working)
    → IsProjection v.tasks
    → apply_operations scope i operations v ≡ ok w
    → Logged v w
unfolding apply_operations
apply_operations-Logged scope i [] v w p h =
    let e : v ≡ w = cc in subst (Logged v) e (Logged-refl v p)
apply_operations-Logged scope i (operation ∷ operations) v w p h =
    >>=-elim (apply_operation scope i operation v) h (λ next q h.
      let first = apply_operation-Logged scope i operation v next p q in
      Logged-trans first (apply_operations-Logged scope (suc i) operations next w first.projects h))
