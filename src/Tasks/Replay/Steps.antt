-- ===== src/Tasks/Replay/Steps.antt =====
-- Each operation of a batch records the events whose replay is what it did to the tasks.
use dotconfig.Base.{
  arith, ℕ, Bool, true, ◌&&◌, Option, none, some, List, [], ◌∷◌, map, Text, text_eq, text_eq_iff,
  text_eq_refl, if_true, if_false, set_key, ◌≡◌, refl, sym, ap, ◌∙◌, subst, inl, inr, Bool-cases,
  All-set_key, sort_texts, sort_texts_idem,
}
use dotconfig.Issues.{IssueReference, issue_key}
use dotconfig.Tasks.{
  Tasks, CurrentTask, TaskStatus, same_status, EditChange, TaskEvent, event_edit, event_status,
  event_block, event_transfer, ChangedField, issue_field, status_field, blocker_field, frozen_task,
}
use dotconfig.Tasks.Operations.{
  Working, put_task, put_node, equal_ids, edit_changes, put_edit, field_of, same_reason,
  transfer_with, status_with, block_with,
}
use dotconfig.Tasks.Replay.{
  replay_change, replay_changes, on_task, on_tasks, replay_on, replay_event, replay, replaced,
  replay_at, IsEntry, IsProjection,
}
use dotconfig.Tasks.Replay.Logged.{
  Logged, IsCurrent, same_status_refl, same_reason_refl, equal_ids_iff, equal_ids_refl, Logged-refl,
}

and_true : {b c : Bool} → b ≡ true → c ≡ true → (b && c) ≡ true
and_true h k = ground arith

-- An event that replays to what `put_task` does.
put_task-Logged :
    (task : CurrentTask) (event : TaskEvent) (fields : List ChangedField) (w : Working)
    → replay_event event w.tasks ≡ some (set_key task.id task w.tasks)
    → sort_texts task.depends_on ≡ task.depends_on
    → IsProjection w.tasks
    → Logged w (put_task task event fields w)
unfolding put_task replay
put_task-Logged task event fields w e sorted p = record {
  recorded = event ∷ [];
  appended = refl;
  replayed = ap (on_tasks (replay [])) e;
  projects = All-set_key IsEntry task.id task w.tasks p (refl, sorted);
}

pub put_node-Logged :
    (task : CurrentTask) (event : TaskEvent) (fields : List ChangedField) (w : Working)
    → replay_event event w.tasks ≡ some (set_key task.id task w.tasks)
    → sort_texts task.depends_on ≡ task.depends_on
    → IsProjection w.tasks
    → Logged w (put_node task event fields w)
unfolding put_node put_task replay
put_node-Logged task event fields w e sorted p = record {
  recorded = event ∷ [];
  appended = refl;
  replayed = ap (on_tasks (replay [])) e;
  projects = All-set_key IsEntry task.id task w.tasks p (refl, sorted);
}

-- An event on a task that stands in the tasks.
replay_at-eq :
    (event : TaskEvent) (task next : CurrentTask) (tasks : Tasks)
    → IsCurrent task tasks
    → replay_on event task ≡ some next
    → replay_at task.id event tasks ≡ some (set_key task.id next tasks)
replay_at-eq event task next tasks c e =
    ap (λ found. replaced task.id tasks (on_task (replay_on event) found)) c.stands
    ∙ ap (replaced task.id tasks) e

-- Freezing a task whose dependencies are in order changes nothing.
pub frozen_task_fixed :
    (task : CurrentTask) → sort_texts task.depends_on ≡ task.depends_on → frozen_task task ≡ task
unfolding frozen_task
frozen_task_fixed task sorted = ap (λ ids. record task { depends_on = ids }) sorted

pub frozen_task-sorted :
    (task : CurrentTask) → sort_texts (frozen_task task).depends_on ≡ (frozen_task task).depends_on
unfolding frozen_task
frozen_task-sorted task = sort_texts_idem task.depends_on

pub transfer_with-Logged :
    (i : ℕ) (task : CurrentTask) (issue : IssueReference) (w : Working)
    → IsProjection w.tasks
    → IsCurrent task w.tasks
    → Logged w (transfer_with i task issue w)
unfolding replay_event replay_on frozen_task
transfer_with-Logged i task issue w p c =
    elim (Bool-cases (text_eq (issue_key task.issue) (issue_key issue))) [
      | inl same ↦ subst (Logged w) (sym (if_true _ _ same)) (Logged-refl w p)
      | inr differs ↦
          let moved = record task { issue = issue } in
          let event = event_transfer i issue task.id task.issue in
          let e = frozen_task_fixed moved c.sorted in
          subst (Logged w) (sym (if_false w _ differs)) (
            put_task-Logged (frozen_task moved) event (issue_field ∷ []) w
              (replay_at-eq event task (frozen_task moved) w.tasks c
                (if_true none _ (text_eq_refl (issue_key task.issue)) ∙ ap some (sym e)))
              (frozen_task-sorted moved) p)
    ]

pub status_with-Logged :
    (i : ℕ) (task : CurrentTask) (status : TaskStatus) (w : Working)
    → IsProjection w.tasks
    → IsCurrent task w.tasks
    → Logged w (status_with i task status w)
unfolding replay_event replay_on frozen_task
status_with-Logged i task status w p c = elim (Bool-cases (same_status task.status status)) [
  | inl same ↦ subst (Logged w) (sym (if_true _ _ same)) (Logged-refl w p)
  | inr differs ↦
      let moved = record task { status = status } in
      let event = event_status i task.issue task.id task.status status in
      let e = frozen_task_fixed moved c.sorted in
      subst (Logged w) (sym (if_false w _ differs)) (
        put_task-Logged (frozen_task moved) event (status_field ∷ []) w
          (replay_at-eq event task (frozen_task moved) w.tasks c (
            if_true none _
              (and_true (text_eq_refl (issue_key task.issue)) (same_status_refl task.status))
            ∙ ap some (sym e)))
          (frozen_task-sorted moved) p)
]

pub block_with-Logged :
    (i : ℕ) (task : CurrentTask) (reason : Option Text) (w : Working)
    → IsProjection w.tasks
    → IsCurrent task w.tasks
    → Logged w (block_with i task reason w)
unfolding replay_event replay_on frozen_task
block_with-Logged i task reason w p c = elim (Bool-cases (same_reason task.blocker reason)) [
  | inl same ↦ subst (Logged w) (sym (if_true _ _ same)) (Logged-refl w p)
  | inr differs ↦
      let moved = record task { blocker = reason } in
      let event = event_block i task.issue task.id task.blocker reason in
      let e = frozen_task_fixed moved c.sorted in
      subst (Logged w) (sym (if_false w _ differs)) (
        put_task-Logged (frozen_task moved) event (blocker_field ∷ []) w
          (replay_at-eq event task (frozen_task moved) w.tasks c (
            if_true none _
              (and_true (text_eq_refl (issue_key task.issue)) (same_reason_refl task.blocker))
            ∙ ap some (sym e)))
          (frozen_task-sorted moved) p)
]

pub put_edit-Logged :
    (i : ℕ) (task next : CurrentTask) (changes : List EditChange) (w : Working)
    → next.id ≡ task.id
    → next.issue ≡ task.issue
    → sort_texts next.depends_on ≡ next.depends_on
    → IsProjection w.tasks
    → IsCurrent task w.tasks
    → replay_changes changes task ≡ some next
    → Logged w (put_edit i next changes w)
unfolding put_edit replay_event replay_on
put_edit-Logged i task next [] w same_id same_issue sorted p c e = Logged-refl w p
put_edit-Logged i task next (first ∷ rest) w same_id same_issue sorted p c e =
    let event = event_edit i next.issue next.id first rest in
    let same : text_eq (issue_key task.issue) (issue_key next.issue) ≡ true =
      subst (λ x. text_eq (issue_key task.issue) (issue_key x) ≡ true) (sym same_issue)
        (text_eq_refl (issue_key task.issue)) in
    put_node-Logged next event (map field_of (first ∷ rest)) w
      (subst (λ x. replay_at x event w.tasks ≡ some (set_key x next w.tasks)) (sym same_id)
        (replay_at-eq event task next w.tasks c (if_true none _ same ∙ e)))
      sorted p

-- The replay of what `edit` records.
pub edit_changes-replay :
    (task : CurrentTask) (text : Text) (depends_on : List Text)
    → replay_changes (edit_changes task text depends_on) task
      ≡ some (record task { text = text; depends_on = depends_on })
unfolding edit_changes replay_changes replay_change
edit_changes-replay task text depends_on = elim (Bool-cases (text_eq text task.text)) [
  | inl same ↦ elim (Bool-cases (equal_ids depends_on task.depends_on)) [
    | inl equal ↦
        let q = (text_eq_iff text task.text).0 same in
        let r = equal_ids_iff depends_on task.depends_on equal in
        rw (same, equal)
          (ap some (
            ap (λ x. record task { text = x }) (sym q)
            ∙ ap (λ x. record task { text = text; depends_on = x }) (sym r)))
    | inr other ↦
        let q = (text_eq_iff text task.text).0 same in
        rw (same, other, equal_ids_refl task.depends_on)
          (ap some (ap (λ x. record task { text = x; depends_on = depends_on }) (sym q)))
  ]
  | inr differs ↦ elim (Bool-cases (equal_ids depends_on task.depends_on)) [
    | inl equal ↦
        let r = equal_ids_iff depends_on task.depends_on equal in
        rw (differs, equal, text_eq_refl task.text)
          (ap some (ap (λ x. record task { text = text; depends_on = x }) (sym r)))
    | inr other ↦ rw (differs, other, text_eq_refl task.text, equal_ids_refl task.depends_on) refl
  ]
]
