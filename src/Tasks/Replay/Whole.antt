-- ===== src/Tasks/Replay/Whole.antt =====
-- prepareTaskChanges returns events that lead from the tasks of the snapshot to those it returns.
use mathlib.Core.List.{append_assoc, append-nil}
use dotconfig.Base.{
  ℕ, ◌+◌, not, ◌||◌, none, some, is_some, List, [], ◌∷◌, ◌++◌, map, ltb, ◌==◌, length, Bool, false,
  Option, arith, get_key, set_key-absent, ◌≡◌, refl, sym, ap, ◌∙◌, subst, sort_texts_idem, All, ok,
  >>=-elim, fail_if-elim,
}
use dotconfig.Issues.{some_or, issue_key}
use dotconfig.Tasks.{
  Tasks, Graph, CurrentTask, TaskSnapshot, TaskMutationBatch, TaskMutationContext,
  PreparedTaskChanges, corrupt_state, invalid_allocation, capacity, max_transition_nodes,
  max_transition_text, frozen_task,
}
use dotconfig.Tasks.Graph.{validate_graph}
use dotconfig.Tasks.Snapshot.{
  Issues, is_not_stored, text_size, collect_issues, project_tasks, add_external, expected_additions,
  allocate,
}
use dotconfig.Tasks.Operations.{Touched, Working}
use dotconfig.Tasks.Prepare.{
  check_text, collect_changed, advance_issues, summarize, initial_working, conclude, run_operations,
  prepare_task_changes,
}
use dotconfig.Tasks.Replay.{replay, IsProjection, projection}
use dotconfig.Tasks.Replay.Logged.{Logged, IsCurrent-of_get, some_or-elim}
use dotconfig.Tasks.Replay.Applied.{apply_operations-Logged}

none-of_is_some {ℓ} : {A : Type ℓ} (found : Option A) → is_some found ≡ false → found ≡ none
none-of_is_some none h = refl
none-of_is_some (some a) h = cc

or_right : (b c : Bool) → (b || c) ≡ false → c ≡ false
or_right b c h = ground arith

-- The loop over the tasks of the snapshot keeps them all, in order.
project_tasks-projection :
    (states : Issues) (rest : List CurrentTask) (size : ℕ) (tasks : Tasks) (graph : Graph)
    {projected : Tasks × Graph}
    → project_tasks states rest size tasks graph ≡ ok projected
    → projected.0 ≡ tasks ++ projection rest
unfolding project_tasks projection
project_tasks-projection states [] size tasks graph {projected} h =
    let e : tasks ≡ projected.0 = cc in sym (append-nil tasks ∙ e)
project_tasks-projection states (task ∷ rest) size tasks graph h =
    fail_if-elim
      (is_not_stored (get_key (issue_key task.issue) states) || is_some (get_key task.id tasks))
      corrupt_state h
      (λ test h.
        fail_if-elim (ltb max_transition_text (size + text_size task)) capacity h (λ small h.
          project_tasks-projection states rest (size + text_size task) _ _ h
          ∙ ap (λ x. x ++ projection rest)
              (set_key-absent task.id (frozen_task task) tasks
                (none-of_is_some _ (or_right _ _ test)))
          ∙ append_assoc tasks ((task.id, frozen_task task) ∷ []) (projection rest)))

projection-IsProjection : (tasks : List CurrentTask) → IsProjection (projection tasks)
unfolding projection frozen_task
projection-IsProjection [] = tt
projection-IsProjection (task ∷ tasks) =
    ((refl, sort_texts_idem task.depends_on), projection-IsProjection tasks)

-- The tasks that are returned, as they stand after the operations.
abbrev pub StandsIn : Tasks → CurrentTask → Type 0
StandsIn tasks task = get_key task.id tasks ≡ some task

collect_changed-StandsIn :
    (tasks : Tasks) (touched : Touched) {changed : List CurrentTask}
    → IsProjection tasks
    → collect_changed tasks touched ≡ ok changed
    → All (StandsIn tasks) changed
unfolding collect_changed
collect_changed-StandsIn tasks [] {changed} p h =
    let e : [] ≡ changed = cc in subst (All (StandsIn tasks)) e tt
collect_changed-StandsIn tasks ((id, fields) ∷ touched) {changed} p h =
    >>=-elim (some_or corrupt_state (get_key id tasks)) h (λ task q h.
      >>=-elim (collect_changed tasks touched) h (λ rest r h.
        let e : task ∷ rest ≡ changed = cc in
        let c = some_or-elim corrupt_state (get_key id tasks) q (IsCurrent-of_get id tasks p) in
        subst (All (StandsIn tasks)) e (c.stands, collect_changed-StandsIn tasks touched p r)))

run_operations-Logged :
    (batch : TaskMutationBatch) (context : TaskMutationContext) (states : Issues) (tasks : Tasks)
    (graph : Graph) {w : Working}
    → IsProjection tasks
    → run_operations batch context states tasks graph ≡ ok w
    → Logged (initial_working tasks graph) w
unfolding run_operations
run_operations-Logged batch context states tasks graph {w} p h =
    >>=-elim (validate_graph graph) h (λ u q h.
      >>=-elim (expected_additions batch.operations []) h (λ expected q h.
        >>=-elim (allocate expected graph context.additions []) h (λ allocations q h.
          fail_if-elim (not (length allocations == length expected)) invalid_allocation h (λ q h.
            apply_operations-Logged _ 0 batch.operations (initial_working tasks graph) w p h))))

-- What a caller can rely on: the events lead to a state of the tasks in which the returned ones stand.
abbrev pub IsAudited : List CurrentTask → PreparedTaskChanges → Type 0
IsAudited tasks prepared =
    (final : Tasks) × (replay prepared.events (projection tasks) ≡ some final)
    × All (StandsIn final) prepared.tasks

conclude-IsAudited :
    (batch : TaskMutationBatch) (states : Issues) (tasks : List CurrentTask) (graph : Graph)
    (w : Working) {prepared : PreparedTaskChanges}
    → Logged (initial_working (projection tasks) graph) w
    → conclude batch states w ≡ ok prepared
    → IsAudited tasks prepared
unfolding conclude
conclude-IsAudited batch states tasks graph w {prepared} l h =
    >>=-elim (check_text w.tasks 0) h (λ u q h. >>=-elim (validate_graph w.graph) h (λ u q h.
      >>=-elim (collect_changed w.tasks w.touched) h (λ changed_tasks current h.
        >>=-elim (advance_issues states _ batch.issues) h (λ issues q h.
          >>=-elim (summarize w.touched issues changed_tasks) h (λ changed q h.
            let e : record {
              issues = issues;
              tasks = changed_tasks;
              events = w.events;
              changed = changed;
            }
                ≡ prepared =
              cc in
            subst (IsAudited tasks) e (
              w.tasks,
              ap (λ events. replay events (projection tasks)) l.appended ∙ l.replayed,
              collect_changed-StandsIn w.tasks w.touched l.projects current,
            ))))))

-- Whatever the batch, the snapshot and the context are, when prepareTaskChanges succeeds, the replay of
-- its events on the tasks of the snapshot accepts each event (its issue and the values before it are
-- those of its task, and an added task has a new identity), and every task it returns is the task that
-- the replay leaves under that identity.
pub prepare_task_changes-IsAudited :
    (batch : TaskMutationBatch) (snapshot : TaskSnapshot) (context : TaskMutationContext)
    {prepared : PreparedTaskChanges}
    → prepare_task_changes batch snapshot context ≡ ok prepared
    → IsAudited snapshot.tasks prepared
unfolding prepare_task_changes
prepare_task_changes-IsAudited batch snapshot context h =
    fail_if-elim (ltb max_transition_nodes (length snapshot.tasks + length snapshot.external))
      capacity h
      (λ q h.
        >>=-elim (collect_issues (map issue_key batch.issues) snapshot.issues []) h (λ states q h.
          >>=-elim (project_tasks states snapshot.tasks 0 [] []) h (λ projected r h.
            >>=-elim (add_external snapshot.external projected.1) h (λ graph q h.
              >>=-elim (run_operations batch context states projected.0 graph) h (λ w ran h.
                let e = project_tasks-projection states snapshot.tasks 0 [] [] r in
                conclude-IsAudited batch states snapshot.tasks graph w
                  (run_operations-Logged batch context states (projection snapshot.tasks) graph
                    (projection-IsProjection snapshot.tasks)
                    (subst (λ x. run_operations batch context states x graph ≡ ok w) e ran))
                  h)))))
