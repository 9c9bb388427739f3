-- ===== src/Tasks/Replay.antt =====
-- The events of a transition as an audit trail: a replay of them on tasks, that refuses an event whose
-- issue or whose value before it is not the task's.
pub mod Logged
pub mod Steps
pub mod Applied
pub mod Whole
use dotconfig.Base.{
  ◌&&◌, Option, none, some, is_some, List, [], ◌∷◌, map, Text, text_eq, if◌then◌else◌, get_key,
  set_key, ◌≡◌, sort_texts, All,
}
use dotconfig.Issues.{issue_key}
use dotconfig.Tasks.{
  Tasks, CurrentTask, same_status, EditChange, text_change, depends_on_change, TaskEvent, event_add,
  event_edit, event_status, event_block, event_transfer, frozen_task,
}
use dotconfig.Tasks.Operations.{equal_ids, same_reason}

unfoldable pub replay_change : EditChange → CurrentTask → Option CurrentTask
unfolding text_eq
replay_change (text_change before after) task =
    if text_eq task.text before then some (record task { text = after }) else none
replay_change (depends_on_change before after) task =
    if equal_ids task.depends_on before then some (record task { depends_on = after }) else none

abbrev pub on_task : (CurrentTask → Option CurrentTask) → Option CurrentTask → Option CurrentTask
on_task f none = none
on_task f (some task) = f task

unfoldable pub replay_changes : List EditChange → CurrentTask → Option CurrentTask
unfolding replay_change
replay_changes [] task = some task
replay_changes (change ∷ changes) task =
    on_task (replay_changes changes) (replay_change change task)

-- The replay of an event on the task that it names.
unfoldable pub replay_on : TaskEvent → CurrentTask → Option CurrentTask
unfolding replay_changes issue_key text_eq same_reason
replay_on (event_add i added) task = none
replay_on (event_edit i issue id first rest) task =
    if text_eq (issue_key task.issue) (issue_key issue)
    then replay_changes (first ∷ rest) task
    else none
replay_on (event_status i issue id before after) task =
    if text_eq (issue_key task.issue) (issue_key issue) && same_status task.status before
    then some (record task { status = after })
    else none
replay_on (event_block i issue id before after) task =
    if text_eq (issue_key task.issue) (issue_key issue) && same_reason task.blocker before
    then some (record task { blocker = after })
    else none
replay_on (event_transfer i issue id split_from) task =
    if text_eq (issue_key task.issue) (issue_key split_from)
    then some (record task { issue = issue })
    else none

abbrev pub replaced : Text → Tasks → Option CurrentTask → Option Tasks
replaced id tasks none = none
replaced id tasks (some task) = some (set_key id task tasks)

abbrev pub replay_at : Text → TaskEvent → Tasks → Option Tasks
replay_at id event tasks = replaced id tasks (on_task (replay_on event) (get_key id tasks))

-- A task is only added under an identity that is free.
unfoldable pub replay_event : TaskEvent → Tasks → Option Tasks
unfolding replay_on get_key set_key
replay_event (event_add i task) tasks =
    if is_some (get_key task.id tasks) then none else some (set_key task.id task tasks)
replay_event (event_edit i issue id first rest) tasks =
    replay_at id (event_edit i issue id first rest) tasks
replay_event (event_status i issue id before after) tasks =
    replay_at id (event_status i issue id before after) tasks
replay_event (event_block i issue id before after) tasks =
    replay_at id (event_block i issue id before after) tasks
replay_event (event_transfer i issue id split_from) tasks =
    replay_at id (event_transfer i issue id split_from) tasks

abbrev pub on_tasks : (Tasks → Option Tasks) → Option Tasks → Option Tasks
on_tasks f none = none
on_tasks f (some tasks) = f tasks

unfoldable pub replay : List TaskEvent → Tasks → Option Tasks
unfolding replay_event
replay [] tasks = some tasks
replay (event ∷ events) tasks = on_tasks (replay events) (replay_event event tasks)

-- A task stands under its identity, with its dependencies in order.
abbrev pub IsEntry : Text × CurrentTask → Type 0
IsEntry (id, task) = (task.id ≡ id) × (sort_texts task.depends_on ≡ task.depends_on)

abbrev pub IsProjection : Tasks → Type 0
IsProjection tasks = All IsEntry tasks

-- The tasks of a snapshot by their identities.
unfoldable pub projection : List CurrentTask → Tasks
unfolding frozen_task
projection tasks = map (λ task. (task.id, frozen_task task)) tasks
