-- ===== src/Tasks/Tests.antt =====
-- Runs of transition.ts, and the theorems at a concrete batch.
use dotconfig.Base.{
  ◌≡◌, refl, Option, none, some, List, [], ◌∷◌, Text, codes, text_eq, decimal, text_ltb,
  insert_text, sort_texts, get_key, set_key, IsMap, All, ok, err, arith,
}
use dotconfig.Issues.{IssueReference, issue_key, set_of}
use dotconfig.Tasks.{
  event_status, Graph, CurrentTask, todo, done, cancelled, TaskSnapshot, TaskMutationBatch,
  TaskMutationContext, Cancellation, forbidden, owner_authorized, is_stored, TaskReference,
  TaskMutation, existing, op_add, op_edit, op_status, op_block, text_change, event_add, event_edit,
  event_block, text_field, depends_on_field, status_field, blocker_field, PreparedTaskChanges,
  frozen_task, cycle, unauthorized, missing_task,
}
use dotconfig.Tasks.Graph.{
  no_edges, add_edges, count_edges, ready_nodes, remove_edges, traverse, validate_graph,
}
use dotconfig.Tasks.Graph.Acyclic.{DependsOn}
use dotconfig.Tasks.Graph.Valid.{validate_graph-acyclic}
use dotconfig.Tasks.Graph.Fuel.{traverse-enough}
use dotconfig.Tasks.Snapshot.{
  collect_issues, project_tasks, add_external, alias_key, expected_additions, allocate,
}
use dotconfig.Tasks.Operations.{
  mark, issues_of, put_task, put_node, resolve_target, resolve, resolve_ids, dependencies, add_task,
  edit_changes, put_edit, edit_with, same_reason, apply_operation, apply_operations,
}
use dotconfig.Tasks.Prepare.{
  check_text, collect_changed, advance_issue, advance_issues, get_revision, summarize, conclude,
  run_operations, prepare_task_changes,
}
use dotconfig.Tasks.Replay.Whole.{IsAudited, prepare_task_changes-IsAudited}
use dotconfig.Tasks.Authority.{IsPermitted, prepare_task_changes-IsPermitted}

tasks : Unit {0}
unfolding text_eq decimal text_ltb insert_text sort_texts get_key set_key issue_key set_of
    frozen_task add_edges count_edges ready_nodes remove_edges traverse validate_graph
    collect_issues project_tasks add_external alias_key expected_additions allocate mark issues_of
    put_task put_node resolve_target resolve resolve_ids dependencies add_task edit_changes put_edit
    edit_with same_reason apply_operation apply_operations check_text collect_changed advance_issue
    advance_issues get_revision summarize conclude run_operations prepare_task_changes
tasks = tt

abbrev issue : IssueReference
issue = record { repository = codes "o/r"; number = 1 }

abbrev task : Text → Text → Option Text → List Text → CurrentTask
task id text blocker depends_on = record {
  issue = issue;
  id = id;
  text = text;
  status = todo;
  blocker = blocker;
  depends_on = depends_on;
}

abbrev snapshot : TaskSnapshot
snapshot = record {
  issues = record { kind = is_stored; state = record { issue = issue; revision = 3 } } ∷ [];
  tasks =
      task (codes "a") (codes "A") none (codes "b" ∷ [])
      ∷ task (codes "b") (codes "B") none []
      ∷ [];
  external = [];
}

abbrev the_task : Text → TaskReference
the_task id = record { issue = issue; task = existing id }

abbrev batch : List TaskMutation → TaskMutationBatch
batch operations = record { issues = issue ∷ []; operations = operations }

abbrev three_operations : TaskMutationBatch
three_operations = batch (
    op_edit (the_task (codes "a")) (some (codes "A2")) none
    ∷ op_add issue (codes "n") (codes "N") (the_task (codes "a") ∷ [])
    ∷ op_block (the_task (codes "b")) (some (codes "W"))
    ∷ [])

abbrev context : Cancellation → TaskMutationContext
context cancellation = record {
  cancellation = cancellation;
  additions = record { issue = issue; key = codes "n"; id = codes "c" } ∷ [];
}

abbrev no_additions : Cancellation → TaskMutationContext
no_additions cancellation = record { cancellation = cancellation; additions = [] }

abbrev prepared : PreparedTaskChanges
prepared = record {
  issues = record { kind = is_stored; state = record { issue = issue; revision = 4 } } ∷ [];
  tasks =
      task (codes "a") (codes "A2") none (codes "b" ∷ [])
      ∷ task (codes "c") (codes "N") none (codes "a" ∷ [])
      ∷ task (codes "b") (codes "B") (some (codes "W")) []
      ∷ [];
  events =
      event_edit 0 issue (codes "a") (text_change (codes "A") (codes "A2")) []
      ∷ event_add 1 (task (codes "c") (codes "N") none (codes "a" ∷ []))
      ∷ event_block 2 issue (codes "b") none (some (codes "W"))
      ∷ [];
  changed =
      record { issue = issue; id = codes "a"; revision = 4; fields = text_field ∷ [] }
      ∷ record {
        issue = issue;
        id = codes "c";
        revision = 4;
        fields = text_field ∷ status_field ∷ blocker_field ∷ depends_on_field ∷ [];
      }
      ∷ record { issue = issue; id = codes "b"; revision = 4; fields = blocker_field ∷ [] }
      ∷ [];
}

prepare_test : prepare_task_changes three_operations snapshot (context forbidden) ≡ ok prepared
unfolding tasks
prepare_test = refl

-- A cancellation wants the owner, a reference its task, and the new dependencies no cycle.
refusal_tests :
    (prepare_task_changes
        (batch (op_status (the_task (codes "a")) cancelled ∷ []))
        snapshot
        (no_additions forbidden)
      ≡ err unauthorized)
    × (prepare_task_changes
          (batch (op_status (the_task (codes "z")) done ∷ []))
          snapshot
          (no_additions owner_authorized)
        ≡ err missing_task)
    × (prepare_task_changes
          (batch (op_edit (the_task (codes "b")) none (some (the_task (codes "a") ∷ [])) ∷ []))
          snapshot
          (no_additions forbidden)
        ≡ err cycle)
unfolding tasks
refusal_tests = (refl, refl, refl)

prepare_task_changes-IsAudited_example : IsAudited snapshot.tasks prepared
prepare_task_changes-IsAudited_example =
    prepare_task_changes-IsAudited three_operations snapshot (context forbidden)
      {prepared = prepared} prepare_test

-- A task is done, without the owner.
abbrev done_batch : TaskMutationBatch
done_batch = batch (op_status (the_task (codes "b")) done ∷ [])

abbrev done_task : CurrentTask
done_task = record (task (codes "b") (codes "B") none []) { status = done }

abbrev done_prepared : PreparedTaskChanges
done_prepared = record {
  issues = record { kind = is_stored; state = record { issue = issue; revision = 4 } } ∷ [];
  tasks = done_task ∷ [];
  events = event_status 0 issue (codes "b") todo done ∷ [];
  changed = record { issue = issue; id = codes "b"; revision = 4; fields = status_field ∷ [] } ∷ [];
}

done_test : prepare_task_changes done_batch snapshot (no_additions forbidden) ≡ ok done_prepared
unfolding tasks
done_test = refl

prepare_task_changes-IsPermitted_example : All IsPermitted done_prepared.events
prepare_task_changes-IsPermitted_example =
    prepare_task_changes-IsPermitted done_batch snapshot (no_additions forbidden)
      {prepared = done_prepared} refl done_test

abbrev chain : Graph
chain = (codes "a", codes "b" ∷ []) ∷ (codes "b", codes "c" ∷ []) ∷ (codes "c", []) ∷ []

chain-IsMap : IsMap chain
unfolding tasks
chain-IsMap = (refl, (refl, (refl, tt)))

chain_test : validate_graph chain ≡ ok tt
unfolding tasks
chain_test = refl

validate_graph-acyclic_example : ¬ (DependsOn chain (codes "b") (codes "b"))
validate_graph-acyclic_example = validate_graph-acyclic chain chain-IsMap chain_test (codes "b")

chain_edges :
    count_edges chain 0 (no_edges chain)
    ≡ ok ((codes "a", 0) ∷ (codes "b", 1) ∷ (codes "c", 1) ∷ [])
unfolding tasks
chain_edges = refl

traverse-enough_example :
    traverse 7 chain
      ((codes "a", 0) ∷ (codes "b", 1) ∷ (codes "c", 1) ∷ [])
      (ready_nodes ((codes "a", 0) ∷ (codes "b", 1) ∷ (codes "c", 1) ∷ []))
      0
    ≡ traverse 3 chain
        ((codes "a", 0) ∷ (codes "b", 1) ∷ (codes "c", 1) ∷ [])
        (ready_nodes ((codes "a", 0) ∷ (codes "b", 1) ∷ (codes "c", 1) ∷ []))
        0
traverse-enough_example = traverse-enough chain 7 chain_edges (omega arith)
