-- ===== src/JobService/Report.antt =====
-- `history_to_status` of job_service_service.py: the execution tree of a workflow, from its
-- history and those of its children.
pub mod Machines
use spark_workflow_main.Common.{
  ℕ, Bool, true, false, not, Option, none, some, List, [], ◌∷◌, ◌++◌, leb, filter, if◌then◌else◌,
}
use spark_workflow_main.Common.Eq.{nat_eq, list_eq, elem}
use spark_workflow_main.Common.Text.{Text, lit, is_empty}
use spark_workflow_main.Common.Dict.{Dict, keys, lookup, insert, update}
use spark_workflow_main.Common.Sort.{sorted}
use spark_workflow_main.JobService.{
  EventKind, Event, Status, pending, running, completed, failed, ChildWorkflowState, HistoryNode,
  HistoryNodes, node, nil, cons, id_of,
}
use spark_workflow_main.JobService.Extract.{Extracted, extract_child_workflows}

pub record ActivityState : Type 0 where
  pub name : Text
  pub id : Text
  pub status : Status
  pub error : Option Text

-- The variables of the loop over the events.
pub record Progress : Type 0 where
  pub workflow_name : Text
  pub workflow_status : Status
  pub workflow_error : Option Text
  pub activities : Dict ℕ ActivityState

abbrev pub activity_status : Status → ActivityState → ActivityState
activity_status s a = record a { status = s }

abbrev pub activity_failure : Text → ActivityState → ActivityState
activity_failure message a = record a { status = failed; error = some message }

-- `if scheduled_id in activities: activities[scheduled_id][…] = …`
abbrev pub change_activity : ℕ → (ActivityState → ActivityState) → Progress → Progress
change_activity id f p = record p { activities = update id f p.activities }

abbrev pub close_failed : Text → Progress → Progress
close_failed message p = record p { workflow_status = failed; workflow_error = some message }

abbrev pub on_history_event : ℕ → EventKind → Progress → Progress
on_history_event event_id (EventKind.workflow_started name) p = record p { workflow_name = name }
on_history_event event_id EventKind.workflow_completed p = record p { workflow_status = completed }
on_history_event event_id (EventKind.workflow_failed message) p = close_failed message p
on_history_event event_id (EventKind.workflow_canceled details) p = close_failed details p
on_history_event event_id (EventKind.workflow_terminated reason) p = close_failed reason p
on_history_event event_id EventKind.workflow_timed_out p = close_failed (lit "Workflow timed out") p
on_history_event event_id (EventKind.activity_scheduled name activity_id) p = record p {
  activities =
      insert event_id (record { name = name; id = activity_id; status = pending; error = none })
        p.activities;
}
on_history_event event_id (EventKind.activity_started id) p =
    change_activity id (activity_status running) p
on_history_event event_id (EventKind.activity_completed id) p =
    change_activity id (activity_status completed) p
on_history_event event_id (EventKind.activity_failed id message) p =
    change_activity id (activity_failure message) p
on_history_event event_id (EventKind.activity_timed_out id) p =
    change_activity id (activity_failure (lit "Activity timed out")) p
on_history_event event_id (EventKind.activity_canceled id details) p =
    change_activity id (activity_failure details) p
on_history_event event_id _ p = p

unfoldable pub read_events : Progress → List Event → Progress
read_events p [] = p
read_events p (e ∷ es) = read_events (on_history_event e.event_id e.kind p) es

abbrev pub no_progress : Progress
no_progress = record {
  workflow_name = [];
  workflow_status = running;
  workflow_error = none;
  activities = [];
}

-- The dicts that are returned, by their "type".
mutual
  pub data StatusNode : Type 0 where
    activity : ActivityState → StatusNode
    workflow : (name id : Text) → Status → Option Text → StatusNodes → StatusNode

  pub data StatusNodes : Type 0 where
    no_nodes : StatusNodes
    status_cons : StatusNode → StatusNodes → StatusNodes

abbrev pub child_entry : ChildWorkflowState → StatusNode
child_entry s = workflow s.workflow_type s.workflow_id s.status s.error no_nodes

abbrev pub child_entries : Dict ℕ ChildWorkflowState → Dict ℕ StatusNode
child_entries [] = []
child_entries ((eid, s) ∷ d) = (eid, child_entry s) ∷ child_entries d

-- `if child_status.get("error")`: an error that is empty does not replace the one that stands.
abbrev pub newer_error : Option Text → Option Text → Option Text
newer_error none old = old
newer_error (some e) old = if is_empty e then old else some e

-- A child whose history was fetched reports its own status, error and children.
abbrev pub merge_child : StatusNode → StatusNode → StatusNode
merge_child (workflow _ _ status error children) (workflow name id _ old _) =
    workflow name id status (newer_error error old) children
merge_child _ entry = entry

abbrev pub report_child : Extracted → Text → StatusNode → Dict ℕ StatusNode → Dict ℕ StatusNode
report_child x child_id child_status d = elim (lookup child_id x.child_wf_id_to_initiated) [
  | none ↦ d
  | some initiated_id ↦ update initiated_id (merge_child child_status) d
]

-- `sorted(set(activities.keys()) | set(child_wf_dicts.keys()))`
abbrev pub all_ids : Dict ℕ ActivityState → Dict ℕ StatusNode → List ℕ
all_ids a c = sorted leb (keys a ++ filter (λ id. not (elem id (keys a))) (keys c))

abbrev pub child_at : Dict ℕ StatusNode → ℕ → StatusNodes → StatusNodes
child_at c id rest = elim (lookup id c) [ none ↦ rest | some entry ↦ status_cons entry rest ]

abbrev pub activity_at : Dict ℕ ActivityState → ℕ → StatusNodes → StatusNodes
activity_at a id rest = elim (lookup id a) [ none ↦ rest | some s ↦ status_cons (activity s) rest ]

abbrev pub all_children : Dict ℕ ActivityState → Dict ℕ StatusNode → List ℕ → StatusNodes
all_children a c [] = no_nodes
all_children a c (id ∷ ids) = activity_at a id (child_at c id (all_children a c ids))

unfoldable mutual
  pub history_to_status : HistoryNode → StatusNode
  history_to_status (node workflow_id run_id events children) =
      let p = read_events no_progress events in
      let x = extract_child_workflows events in
      let c = report_children x children (child_entries x.child_workflows) in
      workflow p.workflow_name workflow_id p.workflow_status p.workflow_error
        (all_children p.activities c (all_ids p.activities c))

  -- `for child_node in node.children: …`
  pub report_children : Extracted → HistoryNodes → Dict ℕ StatusNode → Dict ℕ StatusNode
  report_children x nil d = d
  report_children x (cons child rest) d =
      report_children x rest (report_child x (id_of child) (history_to_status child) d)
