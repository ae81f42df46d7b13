-- ===== src/JobService/Tests.antt =====
-- Runs of the job service's model on small inputs, and its theorems at such inputs.
use Prim.Native.String.{String}
use spark_workflow_main.Common.{
  ℕ, ◌≡◌, ◌↔◌, ◌⊎◌, refl, subst, true, false, none, some, List, [], ◌∷◌, map, leb, All,
  if◌then◌else◌, some_inj, arith,
}
use mathlib.Core.List.{Perm}
use spark_workflow_main.Common.Dict.{keys, lookup}
use spark_workflow_main.Common.Eq.{nat_eq, list_eq, list_beq, elem}
use spark_workflow_main.Common.Sort.{IsSorted}
use spark_workflow_main.Common.Text.{lit}
use spark_workflow_main.JobService.{EventKind, Event, running, completed, failed, node, nil}
use spark_workflow_main.JobService.Extract.{extract_child_workflows, history_to_children}
use spark_workflow_main.JobService.Extract.Children.{
  child_run, extract-child_run, IdsAscend, IsLinked, extract-IsLinked,
}
use spark_workflow_main.JobService.Extract.Order.{heads, history_to_children_in_order}
use spark_workflow_main.JobService.Report.{read_events, no_progress, history_to_status}
use spark_workflow_main.JobService.Report.Machines.{
  any_ends, status_of, error_of, verdict, fault, from, last_of, history_to_status-last_closing,
  activity_run, read_events-activity_run,
}
use spark_workflow_main.JobService.Latest.{
  Workflow, ExecutionStatus, note_workflows, note_workflow, note_status, no_info,
  latest_status_info, info_of, latest_workflow_id, lower,
}
use spark_workflow_main.JobService.Latest.Newest.{
  IsOneOf, IsNewest, temporal_statuses, latest-IsNewest, HasTemporalStatus,
  latest_timed_out_missing,
}
use spark_workflow_main.JobService.Tree.{Client, build_history_tree}
use spark_workflow_main.JobService.Tree.Fetched.{Fetches, build_history_tree-IsFetched}
use spark_workflow_main.JobService.Tree.Depth.{IsTree, build_history_tree_bounded}

abbrev event : ℕ → EventKind → Event
event id kind = record { event_id = id; kind = kind }

-- Two children whose events interleave, and an activity.
abbrev events : List Event
events =
    event 1 (EventKind.workflow_started (lit "main"))
    ∷ event 2 (EventKind.child_initiated (lit "a") (lit "Extract"))
    ∷ event 3 (EventKind.child_initiated (lit "b") (lit "Check"))
    ∷ event 4 (EventKind.child_started 3 (lit "b") (lit "r1"))
    ∷ event 5 (EventKind.child_started 2 (lit "a") (lit "r2"))
    ∷ event 6 (EventKind.activity_scheduled (lit "upload") (lit "7"))
    ∷ event 7 (EventKind.child_failed 3 (lit "boom"))
    ∷ event 8 (EventKind.child_completed 2)
    ∷ event 9 (EventKind.activity_completed 6)
    ∷ []

events-IdsAscend : IdsAscend 0 events
events-IdsAscend = omega arith

states_of_events :
    map (λ s. s.status) (heads (history_to_children (node (lit "m") (lit "r") events nil)))
    ≡ completed ∷ failed ∷ []
unfolding history_to_children extract_child_workflows
states_of_events = refl

running_report : status_of (history_to_status (node (lit "m") (lit "r") events nil)) ≡ running
unfolding history_to_status read_events
running_report = refl

extract-child_run_example :
    lookup 3 (extract_child_workflows events).child_workflows ≡ child_run 3 events none
extract-child_run_example = extract-child_run 3 events

extract-IsLinked_example : IsLinked (extract_child_workflows events)
extract-IsLinked_example = extract-IsLinked events events-IdsAscend

history_to_children_in_order_example :
    let x = extract_child_workflows events in
    (ids : List ℕ) × Perm ids (keys x.child_workflows)
    × IsSorted leb ids
    × (map some (heads (history_to_children (node (lit "m") (lit "r") events nil)))
        ≡ map (λ id. lookup id x.child_workflows) ids)
history_to_children_in_order_example = history_to_children_in_order (lit "m") (lit "r") events nil

continued_report :
    status_of (
      history_to_status (
        node
          (lit "m")
          (lit "r")
          (record { event_id = 1; kind = EventKind.workflow_continued_as_new } ∷ [])
          nil))
    ≡ running
unfolding history_to_status read_events
continued_report = refl

history_to_status-last_closing_example :
    let report = history_to_status (node (lit "m") (lit "r") events nil) in
    (status_of report ≡ from (last_of verdict events) running)
    × (error_of report ≡ last_of fault events)
    × ((status_of report ≡ running) ↔ (any_ends events ≡ false))
history_to_status-last_closing_example =
    history_to_status-last_closing (lit "m") (lit "r") events nil

read_events-activity_run_example :
    lookup 6 (read_events no_progress events).activities ≡ activity_run 6 events none
read_events-activity_run_example = read_events-activity_run 6 events

abbrev workflow_at : String → String → ℕ → Workflow
workflow_at id name t = record {
  id = lit id;
  status_name = some (lit name);
  start_time = some t;
  close_time = none;
}

abbrev listed : List Workflow
listed =
    workflow_at "w1" "COMPLETED" 3
    ∷ workflow_at "w2" "TIMED_OUT" 4
    ∷ workflow_at "w3" "COMPLETED" 9
    ∷ workflow_at "w4" "COMPLETED" 5
    ∷ []

latest_completed :
    latest_workflow_id ExecutionStatus.all listed ExecutionStatus.completed ≡ some (lit "w3")
unfolding latest_workflow_id note_workflows note_workflow note_status
latest_completed = refl

latest-IsNewest_example :
    let info =
      info_of ExecutionStatus.completed
        (note_workflows ExecutionStatus.all listed latest_status_info) in
    ((info ≡ no_info) ⊎ IsOneOf ExecutionStatus.all ExecutionStatus.completed listed info)
    × IsNewest ExecutionStatus.all ExecutionStatus.completed listed info
latest-IsNewest_example = latest-IsNewest ExecutionStatus.all ExecutionStatus.completed listed refl

listed-HasTemporalStatus : All HasTemporalStatus listed
listed-HasTemporalStatus = (
  λ name e. subst (λ n. elem (lower n) temporal_statuses ≡ true) (some_inj e) refl,
  (
    λ name e. subst (λ n. elem (lower n) temporal_statuses ≡ true) (some_inj e) refl,
    (
      λ name e. subst (λ n. elem (lower n) temporal_statuses ≡ true) (some_inj e) refl,
      (λ name e. subst (λ n. elem (lower n) temporal_statuses ≡ true) (some_inj e) refl, tt),
    ),
  ),
)

latest_timed_out_missing_example :
    (latest_workflow_id ExecutionStatus.all listed ExecutionStatus.timed_out ≡ none)
    × (latest_workflow_id ExecutionStatus.all listed ExecutionStatus.continued_as_new ≡ none)
latest_timed_out_missing_example =
    latest_timed_out_missing ExecutionStatus.all listed listed-HasTemporalStatus

abbrev started : List Event
started =
    event 4 (EventKind.child_started 3 (lit "b") (lit "r1"))
    ∷ event 5 (EventKind.child_started 2 (lit "a") (lit "r2"))
    ∷ []

-- A client whose workflow "m" starts "a" and "b", and these start nothing.
abbrev client : Client
client = record {
  fetch_history = λ id run. some (if list_beq id (lit "m") then started else []);
  handle_run_id = λ id run. none;
}

build_history_tree_bounded_example :
    IsTree 2 (build_history_tree client (some 2) 3 0 (lit "m") none)
build_history_tree_bounded_example = build_history_tree_bounded client 2 (lit "m") none

build_history_tree-IsFetched_example :
    Fetches client 2 (lit "m") none (build_history_tree client (some 2) 3 0 (lit "m") none)
build_history_tree-IsFetched_example = build_history_tree-IsFetched client 2 (lit "m") none
