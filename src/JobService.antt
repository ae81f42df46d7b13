-- ===== src/JobService.antt =====
-- The Temporal job service: 02-backend/temporal_job_service/src/services/job_service_service.py
-- and the schemas of src/models/schemas/job_service_schemas.py.
pub mod Latest
pub mod Extract
pub mod Report
pub mod Tree
mod Tests
use spark_workflow_main.Common.{ℕ, Option, List}
use spark_workflow_main.Common.Text.{Text}

-- An event of a workflow's history, by its type and the attributes that the service reads. Times
-- and the other event types of Temporal do not matter to it.
pub data EventKind : Type 0 where
  workflow_started : (name : Text) → EventKind
  workflow_completed : EventKind
  workflow_failed : (message : Text) → EventKind
  workflow_canceled : (details : Text) → EventKind
  workflow_terminated : (reason : Text) → EventKind
  workflow_timed_out : EventKind
  workflow_continued_as_new : EventKind
  activity_scheduled : (name activity_id : Text) → EventKind
  activity_started : (scheduled_event_id : ℕ) → EventKind
  activity_completed : (scheduled_event_id : ℕ) → EventKind
  activity_failed : (scheduled_event_id : ℕ) (message : Text) → EventKind
  activity_timed_out : (scheduled_event_id : ℕ) → EventKind
  activity_canceled : (scheduled_event_id : ℕ) (details : Text) → EventKind
  child_initiated : (workflow_id workflow_type : Text) → EventKind
  child_started : (initiated_event_id : ℕ) (workflow_id run_id : Text) → EventKind
  child_completed : (initiated_event_id : ℕ) → EventKind
  child_failed : (initiated_event_id : ℕ) (message : Text) → EventKind
  child_canceled : (initiated_event_id : ℕ) (details : Text) → EventKind
  child_timed_out : (initiated_event_id : ℕ) → EventKind
  child_terminated : (initiated_event_id : ℕ) → EventKind
  other_event : EventKind

pub record Event : Type 0 where
  pub event_id : ℕ
  pub kind : EventKind

-- The values of TemporalStatus that the histories give rise to.
pub data Status : Type 0 where
  pending running completed failed : Status

pub record ChildWorkflowState : Type 0 where
  pub workflow_id : Text
  pub workflow_type : Text
  pub status : Status
  pub error : Option Text

mutual
  pub data HistoryNode : Type 0 where
    node : (workflow_id run_id : Text) → List Event → HistoryNodes → HistoryNode

  pub data HistoryNodes : Type 0 where
    nil : HistoryNodes
    cons : HistoryNode → HistoryNodes → HistoryNodes

abbrev pub id_of : HistoryNode → Text
id_of (node workflow_id run_id events children) = workflow_id
