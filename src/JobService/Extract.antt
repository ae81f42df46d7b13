-- ===== src/JobService/Extract.antt =====
-- `_extract_child_workflows` and `_history_to_children` of job_service_service.py.
pub mod Children
pub mod Order
use spark_workflow_main.Common.{ℕ, Option, none, some, List, [], ◌∷◌, leb, if◌then◌else◌}
use spark_workflow_main.Common.Eq.{nat_eq, list_eq}
use spark_workflow_main.Common.Text.{Text, lit}
use spark_workflow_main.Common.Dict.{Dict, keys, lookup, insert, update}
use spark_workflow_main.Common.Sort.{sorted}
use spark_workflow_main.JobService.{
  EventKind, Event, Status, pending, running, completed, failed, ChildWorkflowState, HistoryNode,
  HistoryNodes, node, nil, cons, id_of,
}

-- The two dicts that are built: by the id of the initiating event, and from workflow ids to it.
pub record Extracted : Type 0 where
  pub child_workflows : Dict ℕ ChildWorkflowState
  pub child_wf_id_to_initiated : Dict Text ℕ

abbrev pub set_status : Status → ChildWorkflowState → ChildWorkflowState
set_status s c = record c { status = s }

abbrev pub set_failed : Text → ChildWorkflowState → ChildWorkflowState
set_failed message c = record c { status = failed; error = some message }

abbrev pub initiated_state : Text → Text → ChildWorkflowState
initiated_state workflow_id workflow_type = record {
  workflow_id = workflow_id;
  workflow_type = workflow_type;
  status = pending;
  error = none;
}

-- `if initiated_id in child_workflows: child_workflows[initiated_id][…] = …`
abbrev pub change : ℕ → (ChildWorkflowState → ChildWorkflowState) → Extracted → Extracted
change id f x = record x { child_workflows = update id f x.child_workflows }

abbrev pub on_event : ℕ → EventKind → Extracted → Extracted
on_event event_id (EventKind.child_initiated wf_id wf_type) x = record {
  child_workflows = insert event_id (initiated_state wf_id wf_type) x.child_workflows;
  child_wf_id_to_initiated = insert wf_id event_id x.child_wf_id_to_initiated;
}
on_event event_id (EventKind.child_started id _ _) x = change id (set_status running) x
on_event event_id (EventKind.child_completed id) x = change id (set_status completed) x
on_event event_id (EventKind.child_failed id message) x = change id (set_failed message) x
on_event event_id (EventKind.child_canceled id details) x = change id (set_failed details) x
on_event event_id (EventKind.child_timed_out id) x =
    change id (set_failed (lit "Child workflow timed out")) x
on_event event_id (EventKind.child_terminated id) x =
    change id (set_failed (lit "Child workflow terminated")) x
on_event event_id _ x = x

unfoldable pub extract_from : Extracted → List Event → Extracted
extract_from x [] = x
extract_from x (e ∷ es) = extract_from (on_event e.event_id e.kind x) es

unfoldable pub extract_child_workflows : List Event → Extracted
unfolding extract_from
extract_child_workflows events =
    extract_from (record { child_workflows = []; child_wf_id_to_initiated = [] }) events

mutual
  pub data ChildWorkflowInfo : Type 0 where
    info : ChildWorkflowState → ChildWorkflowInfos → ChildWorkflowInfo

  pub data ChildWorkflowInfos : Type 0 where
    none_left : ChildWorkflowInfos
    info_cons : ChildWorkflowInfo → ChildWorkflowInfos → ChildWorkflowInfos

-- `child_states[initiated_id]["children"] = grandchildren`, in a dict of its own.
abbrev pub Grandchildren : Type 0
Grandchildren = Dict ℕ ChildWorkflowInfos

abbrev pub attach : Extracted → Text → ChildWorkflowInfos → Grandchildren → Grandchildren
attach x child_id grandchildren g = elim (lookup child_id x.child_wf_id_to_initiated) [
  | none ↦ g
  | some initiated_id ↦ elim (lookup initiated_id x.child_workflows) [
    | none ↦ g
    | some _ ↦ insert initiated_id grandchildren g
  ]
]

-- `[ChildWorkflowInfo(**child_states[eid]) for eid in sorted(child_states.keys())]`
abbrev pub infos_of : Extracted → Grandchildren → List ℕ → ChildWorkflowInfos
infos_of x g [] = none_left
infos_of x g (eid ∷ eids) = elim (lookup eid x.child_workflows) [
  | none ↦ infos_of x g eids
  | some state ↦
      info_cons (info state (elim (lookup eid g) [ none ↦ none_left | some children ↦ children ]))
        (infos_of x g eids)
]

unfoldable mutual
  pub history_to_children : HistoryNode → ChildWorkflowInfos
  history_to_children (node workflow_id run_id events children) =
      let x = extract_child_workflows events in
      infos_of x (grandchildren_of x children []) (sorted leb (keys x.child_workflows))

  -- `for child_node in node.children: …`
  pub grandchildren_of : Extracted → HistoryNodes → Grandchildren → Grandchildren
  grandchildren_of x nil g = g
  grandchildren_of x (cons child rest) g =
      grandchildren_of x rest (attach x (id_of child) (history_to_children child) g)
