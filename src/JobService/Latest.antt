-- ===== src/JobService/Latest.antt =====
-- The latest workflow of each status, which `get_workflows` of job_service_service.py selects while
-- it walks the list of workflows (the inner loop and `is_effective_status`).
pub mod Selection
pub mod Newest
use spark_workflow_main.Common.{
  ℕ, ◌+◌, ◌-◌, Bool, true, false, Option, none, some, List, [], ◌∷◌, ◌&&◌, ◌||◌, ltb, leb, ◌==◌,
  map, if◌then◌else◌,
}
use spark_workflow_main.Common.Eq.{list_beq, nat_eq}
use spark_workflow_main.Common.Text.{Text, lit, is_empty}

pub data ExecutionStatus : Type 0 where
  completed running failed canceled terminated timed_out continued_as_new all : ExecutionStatus

-- The values of the enumeration.
abbrev pub value : ExecutionStatus → Text
value completed = lit "Completed"
value running = lit "Running"
value failed = lit "Failed"
value canceled = lit "Canceled"
value terminated = lit "Terminated"
value timed_out = lit "TimedOut"
value continued_as_new = lit "ContinuedAsNew"
value all = lit "all"

-- `s.lower()`; the status names are ASCII.
abbrev pub lower : Text → Text
lower [] = []
lower (c ∷ s) = (if leb b'A' c && leb c b'Z' then c + 32 else c) ∷ lower s

-- What the loop reads of a workflow: `status.name`, and times as numbers.
pub record Workflow : Type 0 where
  pub id : Text
  pub status_name : Option Text
  pub start_time : Option ℕ
  pub close_time : Option ℕ

pub record StatusInfo : Type 0 where
  pub time : Option ℕ
  pub workflow_id : Option Text

abbrev pub index : ExecutionStatus → ℕ
index completed = 0
index running = 1
index failed = 2
index canceled = 3
index terminated = 4
index timed_out = 5
index continued_as_new = 6
index all = 7

abbrev pub same : ExecutionStatus → ExecutionStatus → Bool
same a b = index a == index b

abbrev pub is_effective_status : ExecutionStatus → ExecutionStatus → Bool
is_effective_status execution_status enum_value =
    same execution_status all || same execution_status enum_value

-- `workflow.close_time or workflow.start_time`
abbrev pub timestamp : Workflow → Option ℕ
timestamp w = elim w.close_time [ none ↦ w.start_time | some t ↦ some t ]

-- `if current_time is None or ts > current_time`
abbrev pub newer : ℕ → Text → StatusInfo → StatusInfo
newer ts id info =
    let taken : StatusInfo = record { time = some ts; workflow_id = some id } in
    elim info.time [
      | none ↦ taken
      | some current_time ↦ if ltb current_time ts then taken else info
    ]

abbrev pub LatestInfo : Type 0
LatestInfo = List (ExecutionStatus × StatusInfo)

-- The loop over `latest_status_info.keys()`, with its `break`.
unfoldable pub note_status : ExecutionStatus → Text → ℕ → Text → LatestInfo → LatestInfo
note_status execution_status status_lower ts id [] = []
note_status execution_status status_lower ts id ((status_enum, info) ∷ rest) =
    if list_beq status_lower (lower (value status_enum))
      && is_effective_status execution_status status_enum
    then (status_enum, newer ts id info) ∷ rest
    else (status_enum, info) ∷ note_status execution_status status_lower ts id rest

-- What one workflow does: `if not ts: continue`, then `if status_str`.
unfoldable pub note_workflow : ExecutionStatus → Workflow → LatestInfo → LatestInfo
note_workflow execution_status w latest = elim (timestamp w) [
  | none ↦ latest
  | some ts ↦ elim w.status_name [
    | none ↦ latest
    | some name ↦
        if is_empty name then latest else note_status execution_status (lower name) ts w.id latest
  ]
]

abbrev pub no_info : StatusInfo
no_info = record { time = none; workflow_id = none }

abbrev pub latest_status_info : LatestInfo
latest_status_info =
    map (λ s. (s, no_info))
      (running ∷ completed ∷ failed ∷ canceled ∷ terminated ∷ timed_out ∷ continued_as_new ∷ [])

unfoldable pub note_workflows : ExecutionStatus → List Workflow → LatestInfo → LatestInfo
note_workflows execution_status [] latest = latest
note_workflows execution_status (w ∷ ws) latest =
    note_workflows execution_status ws (note_workflow execution_status w latest)

-- `latest_status_info[status_enum]`
abbrev pub info_of : ExecutionStatus → LatestInfo → StatusInfo
info_of s [] = no_info
info_of s ((k, info) ∷ rest) = if same s k then info else info_of s rest

-- `latest_status_info[status_enum]["workflow_id"]` at the end, for the fields of the response.
unfoldable pub latest_workflow_id : ExecutionStatus → List Workflow → ExecutionStatus → Option Text
latest_workflow_id execution_status workflows s =
    (info_of s (note_workflows execution_status workflows latest_status_info)).workflow_id
