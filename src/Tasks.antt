-- ===== src/Tasks.antt =====
-- ai/pi/extensions/issue-tasks/transition.ts: the types of a batch of changes to the tasks of some issues.
-- An identity of a task is its text, a revision a number from 0 on; Object.freeze is left out.
pub mod Graph
pub mod Snapshot
pub mod Operations
pub mod Prepare
pub mod Replay
pub mod Authority
mod Tests
use dotconfig.Base.{ℕ, Bool, true, false, Option, List, Text, Result, sort_texts}
use dotconfig.Issues.{IssueReference}

pub data TaskStatus : Type 0 where
  todo doing done cancelled : TaskStatus

pub data TaskTransitionError : Type 0 where
  corrupt_state scope_mismatch missing_task invalid_allocation unauthorized cycle revision_exhausted
        capacity :
      TaskTransitionError

pub record CurrentTask : Type 0 where
  pub issue : IssueReference
  pub id : Text
  pub text : Text
  pub status : TaskStatus
  pub blocker : Option Text
  pub depends_on : List Text

pub record DependencyNode : Type 0 where
  pub id : Text
  pub depends_on : List Text

pub record IssueTaskRevision : Type 0 where
  pub issue : IssueReference
  pub revision : ℕ

-- `"stored"` and `"new"`
pub data CandidateKind : Type 0 where
  is_stored is_new : CandidateKind

-- An `IssueCandidate`, and a `PreparedIssueChange`.
pub record IssueCandidate : Type 0 where
  pub kind : CandidateKind
  pub state : IssueTaskRevision

pub record TaskSnapshot : Type 0 where
  pub issues : List IssueCandidate
  pub tasks : List CurrentTask
  pub external : List DependencyNode

pub record TaskIdAllocation : Type 0 where
  pub issue : IssueReference
  pub key : Text
  pub id : Text

pub data Cancellation : Type 0 where
  forbidden owner_authorized : Cancellation

pub record TaskMutationContext : Type 0 where
  pub cancellation : Cancellation
  pub additions : List TaskIdAllocation

-- mutations.ts
pub data TaskTarget : Type 0 where
  existing : Text → TaskTarget
  added : Text → TaskTarget

pub record TaskReference : Type 0 where
  pub issue : IssueReference
  pub task : TaskTarget

pub data TaskMutation : Type 0 where
  op_add : IssueReference → Text → Text → List TaskReference → TaskMutation
  op_edit : TaskReference → Option Text → Option (List TaskReference) → TaskMutation
  op_status : TaskReference → TaskStatus → TaskMutation
  op_block : TaskReference → Option Text → TaskMutation
  op_transfer : TaskReference → IssueReference → TaskMutation

pub record TaskMutationBatch : Type 0 where
  pub issues : List IssueReference
  pub operations : List TaskMutation

-- The value before and the value after.
pub data EditChange : Type 0 where
  text_change : Text → Text → EditChange
  depends_on_change : List Text → List Text → EditChange

-- Each event starts with the index of its operation. The changes of an edit are a first one and others.
pub data TaskEvent : Type 0 where
  event_add : ℕ → CurrentTask → TaskEvent
  event_edit : ℕ → IssueReference → Text → EditChange → List EditChange → TaskEvent
  event_status : ℕ → IssueReference → Text → TaskStatus → TaskStatus → TaskEvent
  event_block : ℕ → IssueReference → Text → Option Text → Option Text → TaskEvent
  event_transfer : ℕ → IssueReference → Text → IssueReference → TaskEvent

pub data ChangedField : Type 0 where
  text_field depends_on_field status_field blocker_field issue_field : ChangedField

pub record TaskChangeSummary : Type 0 where
  pub issue : IssueReference
  pub id : Text
  pub revision : ℕ
  pub fields : List ChangedField

pub record PreparedTaskChanges : Type 0 where
  pub issues : List IssueCandidate
  pub tasks : List CurrentTask
  pub events : List TaskEvent
  pub changed : List TaskChangeSummary

abbrev pub Outcome : Type 0 → Type 0
Outcome A = Result TaskTransitionError A

-- A `Map` from the identities of tasks to the tasks.
abbrev pub Tasks : Type 0
Tasks = List (Text × CurrentTask)

-- A `Map` from identities to those they depend on.
abbrev pub Graph : Type 0
Graph = List (Text × List Text)

abbrev pub max_transition_nodes : ℕ
max_transition_nodes = 10000

abbrev pub max_transition_edges : ℕ
max_transition_edges = 100000

abbrev pub max_transition_text : ℕ
max_transition_text = 8388608

unfoldable pub frozen_task : CurrentTask → CurrentTask
unfolding sort_texts
frozen_task task = record task { depends_on = sort_texts task.depends_on }

abbrev pub same_status : TaskStatus → TaskStatus → Bool
same_status todo todo = true
same_status doing doing = true
same_status done done = true
same_status cancelled cancelled = true
same_status _ _ = false
