-- ===== src/JobService/Tree.antt =====
-- `build_history_tree` of job_service_service.py. The Temporal client is a parameter: what
-- `handle.fetch_history` returns for a workflow and a run, or `none` where it raises, and the
-- run id of the handle. The recursion takes fuel; a run with too little is told apart.
pub mod Depth
pub mod Fetched
use spark_workflow_main.Common.{
  ℕ, zero, suc, ◌+◌, Bool, true, false, Option, none, some, List, [], ◌∷◌, leb, if◌then◌else◌,
}
use spark_workflow_main.Common.Text.{Text, lit, is_empty}
use spark_workflow_main.JobService.{EventKind, Event, HistoryNode, HistoryNodes, node, nil, cons}

pub record Client : Type 0 where
  pub fetch_history : Text → Option Text → Option (List Event)
  pub handle_run_id : Text → Option Text → Option Text

pub data Outcome (A : Type 0) : Type 0 where
  done : A → Outcome A
  raised : Outcome A
  out_of_fuel : Outcome A

infixl 5 ◌>>=◌
abbrev pub ◌>>=◌ : {A B : Type 0} → Outcome A → (A → Outcome B) → Outcome B
done a >>= f = f a
raised >>= f = raised
out_of_fuel >>= f = out_of_fuel

-- `a or b` on an optional text
abbrev pub text_or : Option Text → Text → Text
text_or none other = other
text_or (some t) other = if is_empty t then other else t

-- `handle.run_id or run_id or "unknown"`
abbrev pub run_id_of : Client → Text → Option Text → Text
run_id_of c workflow_id run_id =
    text_or (c.handle_run_id workflow_id run_id) (text_or run_id (lit "unknown"))

-- `max_depth is not None and _current_depth >= max_depth`
abbrev pub is_deep : Option ℕ → ℕ → Bool
is_deep none current_depth = false
is_deep (some max_depth) current_depth = leb max_depth current_depth

-- The child execution of an event, if it names one.
abbrev pub started_child : EventKind → Option (Text × Text)
started_child (EventKind.child_started _ workflow_id run_id) =
    if is_empty workflow_id then none else some (workflow_id, run_id)
started_child _ = none

-- `for ev in wf_history.events: …`, with the call on a child
unfoldable pub build_children :
    (Text → Text → Outcome HistoryNode) → List Event → Outcome HistoryNodes
build_children build [] = done nil
build_children build (e ∷ es) = elim (started_child e.kind) [
  | none ↦ build_children build es
  | some (child_id, child_run) ↦ do
    child_node ← build child_id child_run
    rest ← build_children build es
    done (cons child_node rest)
]

-- What follows the fetch of the history.
unfoldable pub build_node :
    Client
    → Bool
    → (Text → Text → Outcome HistoryNode)
    → Text
    → Option Text
    → List Event
    → Outcome HistoryNode
build_node c deep build workflow_id run_id events =
    let run = run_id_of c workflow_id run_id in
    if deep
    then done (node workflow_id run events nil)
    else (build_children build events >>= λ children. done (node workflow_id run events children))

unfoldable pub build_history_tree :
    Client → Option ℕ → ℕ → ℕ → Text → Option Text → Outcome HistoryNode
build_history_tree c max_depth zero current_depth workflow_id run_id = out_of_fuel
build_history_tree c max_depth (suc fuel) current_depth workflow_id run_id =
    elim (c.fetch_history workflow_id run_id) [
      | none ↦ raised
      | some wf_history ↦
          build_node c (is_deep max_depth current_depth)
            (λ child_id child_run.
              build_history_tree c max_depth fuel (current_depth + 1) child_id (some child_run))
            workflow_id run_id wf_history
    ]
