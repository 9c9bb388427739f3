-- ===== src/Tasks/Replay/Logged.antt =====
-- States of the loop over the operations that are linked by the replay of their events, and the tasks
-- that references resolve to.
use mathlib.Core.List.{append_assoc, append-nil}
use dotconfig.Base.{
  Option-cases, arith, true, not, Option, none, some, List, [], ◌∷◌, ◌++◌, Text, text_eq,
  text_eq_iff, text_eq_refl, get_key, ◌≡◌, refl, sym, ap, ◌∙◌, subst, inl, inr, Bool-cases,
  All-get_key, sort_texts, ok, >>=-elim, fail_if-elim,
}
use dotconfig.Issues.{IssueReference, some_or, issue_key}
use dotconfig.Issues.Sets.{has}
use dotconfig.Tasks.{
  Tasks, CurrentTask, TaskStatus, todo, doing, done, cancelled, same_status, TaskReference,
  TaskTarget, existing, added, TaskEvent, missing_task, scope_mismatch,
}
use dotconfig.Tasks.Operations.{Scope, Working, resolve, equal_ids, same_reason, resolve_target}
use dotconfig.Tasks.Snapshot.{alias_key}
use dotconfig.Tasks.Replay.{on_tasks, replay_event, replay, IsEntry, IsProjection}

-- The second state comes from the first by the events that were recorded between them.
pub record Logged (v w : Working) : Type 0 where
  pub recorded : List TaskEvent
  pub appended : w.events ≡ v.events ++ recorded
  pub replayed : replay recorded v.tasks ≡ some w.tasks
  pub projects : IsProjection w.tasks

-- A task that stands in the tasks as the code reads it.
pub record IsCurrent (task : CurrentTask) (tasks : Tasks) : Type 0 where
  pub stands : get_key task.id tasks ≡ some task
  pub sorted : sort_texts task.depends_on ≡ task.depends_on

some_inj {ℓ} : {A : Type ℓ} {a b : A} → some a ≡ some b → a ≡ b
some_inj h = cc

pub some_or-elim {ℓ ι} :
    {E : Type ℓ} {A : Type ℓ} {C : Type ι} (e : E) (found : Option A) {a : A}
    → some_or e found ≡ ok a
    → (found ≡ some a → C)
    → C
some_or-elim e none h k = cc
some_or-elim e (some b) h k = k (ap some cc)

pub IsCurrent-of_get :
    (id : Text) (tasks : Tasks) {task : CurrentTask}
    → IsProjection tasks
    → get_key id tasks ≡ some task
    → IsCurrent task tasks
IsCurrent-of_get id tasks {task} p e =
    let (same, sorted) = All-get_key IsEntry id tasks p e in
    record { stands = subst (λ x. get_key x tasks ≡ some task) (sym same) e; sorted = sorted }

resolve_target-IsCurrent :
    (scope : Scope) (issue : IssueReference) (target : TaskTarget) (tasks : Tasks)
    {task : CurrentTask}
    → IsProjection tasks
    → resolve_target scope issue target tasks ≡ ok task
    → IsCurrent task tasks
unfolding resolve_target
resolve_target-IsCurrent scope issue (existing id) tasks {task} p h =
    fail_if-elim (not (has scope.initial_ids id)) missing_task h (λ q h.
      >>=-elim (some_or missing_task (get_key id tasks)) h (λ found q h.
        fail_if-elim (not (text_eq (issue_key found.issue) (issue_key issue))) scope_mismatch h
          (λ r h.
            let same : found ≡ task = cc in
            some_or-elim missing_task (get_key id tasks) q
              (λ e. IsCurrent-of_get id tasks p (e ∙ ap some same)))))
resolve_target-IsCurrent scope issue (added key) tasks p h =
    >>=-elim (some_or missing_task (get_key (alias_key issue key) scope.allocations)) h (λ id q h.
      some_or-elim missing_task (get_key id tasks) h (λ e. IsCurrent-of_get id tasks p e))

pub resolve-IsCurrent :
    (scope : Scope) (reference : TaskReference) (tasks : Tasks) {task : CurrentTask}
    → IsProjection tasks
    → resolve scope reference tasks ≡ ok task
    → IsCurrent task tasks
unfolding resolve
resolve-IsCurrent scope reference tasks p h =
    resolve_target-IsCurrent scope reference.issue reference.task tasks p h

pub same_status_refl : (s : TaskStatus) → same_status s s ≡ true
same_status_refl todo = refl
same_status_refl doing = refl
same_status_refl done = refl
same_status_refl cancelled = refl

pub same_reason_refl : (r : Option Text) → same_reason r r ≡ true
unfolding same_reason
same_reason_refl none = refl
same_reason_refl (some s) = text_eq_refl s

pub equal_ids_iff : (s t : List Text) → equal_ids s t ≡ true → s ≡ t
equal_ids_iff [] [] h = refl
equal_ids_iff [] (b ∷ t) h = cc
equal_ids_iff (a ∷ s) [] h = cc
equal_ids_iff (a ∷ s) (b ∷ t) h = elim (Bool-cases (text_eq a b)) [
  | inl e ↦
      let q = (text_eq_iff a b).0 e in let r = equal_ids_iff s t (ground arith) in rw (q, r) refl
  | inr e ↦ ground arith
]

pub equal_ids_refl : (s : List Text) → equal_ids s s ≡ true
equal_ids_refl [] = refl
equal_ids_refl (a ∷ s) = rw (text_eq_refl a) (equal_ids_refl s)

-- Nothing recorded.
pub Logged-refl : (w : Working) → IsProjection w.tasks → Logged w w
unfolding replay
Logged-refl w p = record {
  recorded = [];
  appended = sym (append-nil w.events);
  replayed = refl;
  projects = p;
}

on_tasks-some :
    (f : Tasks → Option Tasks) (found : Option Tasks) {tasks : Tasks}
    → found ≡ some tasks
    → on_tasks f found ≡ f tasks
on_tasks-some f found h = ap (on_tasks f) h

replay-append :
    (events later : List TaskEvent) (tasks : Tasks) {next : Tasks}
    → replay events tasks ≡ some next
    → replay (events ++ later) tasks ≡ replay later next
unfolding replay
replay-append [] later tasks h = ap (replay later) (some_inj h)
replay-append (event ∷ events) later tasks h = elim (Option-cases (replay_event event tasks)) [
  | inl e ↦ let n = sym (ap (on_tasks (replay events)) e) ∙ h in cc
  | inr (middle, e) ↦
      on_tasks-some (replay (events ++ later)) (replay_event event tasks) e
      ∙ replay-append events later middle (sym (ap (on_tasks (replay events)) e) ∙ h)
]

pub Logged-trans : {u v w : Working} → Logged u v → Logged v w → Logged u w
Logged-trans {u} {v} {w} a b = record {
  recorded = a.recorded ++ b.recorded;
  appended =
      b.appended
      ∙ ap (λ events. events ++ b.recorded) a.appended
      ∙ append_assoc u.events a.recorded b.recorded;
  replayed = replay-append a.recorded b.recorded u.tasks a.replayed ∙ b.replayed;
  projects = b.projects;
}
