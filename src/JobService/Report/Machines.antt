-- ===== src/JobService/Report/Machines.antt =====
-- What the loop over the events of a history reports.
use spark_workflow_main.Common.{
  ℕ, ◌≡◌, ◌↔◌, ◌≢◌, ◌⊎◌, refl, sym, ap, ◌∙◌, Bool, true, false, ◌||◌, ◌&&◌, not, Option, none, some,
  List, [], ◌∷◌, ◌==◌, if◌then◌else◌, inl, inr, arith,
}
use spark_workflow_main.Common.Eq.{nat_eq}
use spark_workflow_main.Common.Text.{Text, lit}
use spark_workflow_main.Common.Dict.{lookup, lookup-insert, lookup-update}
use spark_workflow_main.JobService.{
  EventKind, Event, HistoryNodes, node, Status, pending, running, completed, failed,
}
use spark_workflow_main.JobService.Report.{
  ActivityState, Progress, activity_status, activity_failure, change_activity, on_history_event,
  read_events, no_progress, StatusNode, activity, workflow, history_to_status,
}

-- Temporal's closing events of a workflow. Continued as new is one of them.
abbrev pub closes : EventKind → Bool
closes EventKind.workflow_completed = true
closes (EventKind.workflow_failed _) = true
closes (EventKind.workflow_canceled _) = true
closes (EventKind.workflow_terminated _) = true
closes EventKind.workflow_timed_out = true
closes EventKind.workflow_continued_as_new = true
closes _ = false

abbrev pub continues : EventKind → Bool
continues EventKind.workflow_continued_as_new = true
continues _ = false

-- Whether the history holds a closing event other than continued as new.
abbrev pub any_ends : List Event → Bool
any_ends [] = false
any_ends (e ∷ es) = closes e.kind && not (continues e.kind) || any_ends es

-- What a closing event says of the workflow: its status, and its error where it failed.
abbrev pub verdict : EventKind → Option Status
verdict EventKind.workflow_completed = some completed
verdict (EventKind.workflow_failed _) = some failed
verdict (EventKind.workflow_canceled _) = some failed
verdict (EventKind.workflow_terminated _) = some failed
verdict EventKind.workflow_timed_out = some failed
verdict _ = none

abbrev pub fault : EventKind → Option Text
fault (EventKind.workflow_failed message) = some message
fault (EventKind.workflow_canceled details) = some details
fault (EventKind.workflow_terminated reason) = some reason
fault EventKind.workflow_timed_out = some (lit "Workflow timed out")
fault _ = none

abbrev pub or_earlier : {A : Type 0} → Option A → Option A → Option A
or_earlier none o = o
or_earlier (some a) o = some a

abbrev pub from : {A : Type 0} → Option A → A → A
from none a = a
from (some b) a = b

-- The answer of the last event of a history that has one, sought from its end.
abbrev pub last_of : {A : Type 0} → (EventKind → Option A) → List Event → Option A
last_of f [] = none
last_of f (e ∷ es) = or_earlier (last_of f es) (f e.kind)

-- A closing event other than continued as new sets another status than `running`; every other
-- event keeps the status.
on_history_event-status :
    (event_id : ℕ) (k : EventKind) (p : Progress)
    → (closes k && not (continues k) ≡ true)
        × ((on_history_event event_id k p).workflow_status ≢ running)
      ⊎ (closes k && not (continues k) ≡ false)
        × ((on_history_event event_id k p).workflow_status ≡ p.workflow_status)
on_history_event-status event_id EventKind.workflow_completed p = inl (refl, λ e. cc)
on_history_event-status event_id (EventKind.workflow_failed _) p = inl (refl, λ e. cc)
on_history_event-status event_id (EventKind.workflow_canceled _) p = inl (refl, λ e. cc)
on_history_event-status event_id (EventKind.workflow_terminated _) p = inl (refl, λ e. cc)
on_history_event-status event_id EventKind.workflow_timed_out p = inl (refl, λ e. cc)
on_history_event-status event_id _ p = inr (refl, refl)

read_events-closed :
    (events : List Event) (p : Progress)
    → p.workflow_status ≢ running
    → (read_events p events).workflow_status ≢ running
unfolding read_events
read_events-closed [] p h = h
read_events-closed (e ∷ es) p h =
    read_events-closed es (on_history_event e.event_id e.kind p)
      (elim (on_history_event-status e.event_id e.kind p) [
        | inl (_, moved) ↦ moved
        | inr (_, kept) ↦ λ r. h (sym kept ∙ r)
      ])

read_events-open :
    (events : List Event) (p : Progress)
    → p.workflow_status ≡ running
    → ((read_events p events).workflow_status ≡ running) ↔ (any_ends events ≡ false)
unfolding read_events
read_events-open [] p h = (λ _. refl, λ _. h)
read_events-open (e ∷ es) p h = elim (on_history_event-status e.event_id e.kind p) [
  | inl (closing, moved) ↦ (
    λ r. absurd (read_events-closed es (on_history_event e.event_id e.kind p) moved r),
    λ none_closes. absurd (ground arith),
  )
  | inr (other, kept) ↦
      rw other (read_events-open es (on_history_event e.event_id e.kind p) (kept ∙ h))
]

or_earlier-from :
    {A : Type 0}
    → (o : Option A) (k : Option A) (a : A) → from (or_earlier o k) a ≡ from o (from k a)
or_earlier-from none k a = refl
or_earlier-from (some b) k a = refl

or_earlier-kept :
    {A : Type 0}
    → (o k a : Option A) → or_earlier (or_earlier o k) a ≡ or_earlier o (or_earlier k a)
or_earlier-kept none k a = refl
or_earlier-kept (some b) k a = refl

on_history_event-verdict :
    (event_id : ℕ) (k : EventKind) (p : Progress)
    → (on_history_event event_id k p).workflow_status ≡ from (verdict k) p.workflow_status
on_history_event-verdict event_id EventKind.workflow_completed p = refl
on_history_event-verdict event_id (EventKind.workflow_failed _) p = refl
on_history_event-verdict event_id (EventKind.workflow_canceled _) p = refl
on_history_event-verdict event_id (EventKind.workflow_terminated _) p = refl
on_history_event-verdict event_id EventKind.workflow_timed_out p = refl
on_history_event-verdict event_id _ p = refl

on_history_event-fault :
    (event_id : ℕ) (k : EventKind) (p : Progress)
    → (on_history_event event_id k p).workflow_error ≡ or_earlier (fault k) p.workflow_error
on_history_event-fault event_id (EventKind.workflow_failed _) p = refl
on_history_event-fault event_id (EventKind.workflow_canceled _) p = refl
on_history_event-fault event_id (EventKind.workflow_terminated _) p = refl
on_history_event-fault event_id EventKind.workflow_timed_out p = refl
on_history_event-fault event_id _ p = refl

read_events-verdict :
    (events : List Event) (p : Progress)
    → (read_events p events).workflow_status ≡ from (last_of verdict events) p.workflow_status
unfolding read_events
read_events-verdict [] p = refl
read_events-verdict (e ∷ es) p =
    read_events-verdict es (on_history_event e.event_id e.kind p)
    ∙ ap (from (last_of verdict es)) (on_history_event-verdict e.event_id e.kind p)
    ∙ sym (or_earlier-from (last_of verdict es) (verdict e.kind) p.workflow_status)

read_events-fault :
    (events : List Event) (p : Progress)
    → (read_events p events).workflow_error ≡ or_earlier (last_of fault events) p.workflow_error
unfolding read_events
read_events-fault [] p = refl
read_events-fault (e ∷ es) p =
    read_events-fault es (on_history_event e.event_id e.kind p)
    ∙ ap (or_earlier (last_of fault es)) (on_history_event-fault e.event_id e.kind p)
    ∙ sym (or_earlier-kept (last_of fault es) (fault e.kind) p.workflow_error)

or_earlier-none : {A : Type 0} → (o : Option A) → or_earlier o none ≡ o
or_earlier-none none = refl
or_earlier-none (some a) = refl

abbrev pub status_of : StatusNode → Status
status_of (activity a) = a.status
status_of (workflow _ _ s _ _) = s

abbrev pub error_of : StatusNode → Option Text
error_of (activity a) = a.error
error_of (workflow _ _ _ e _) = e

-- history_to_status reports the status of the last event of the history that completes, fails,
-- cancels, terminates or times out the workflow, and running where there is none; its error is
-- that of the last of these events that is not a completion, if there is one. So the workflow is
-- reported as running exactly when the history holds no closing event but continued as new: a
-- workflow that has continued as new, and is closed, is reported as running.
pub history_to_status-last_closing :
    (workflow_id run_id : Text) (events : List Event) (children : HistoryNodes)
    → let report = history_to_status (node workflow_id run_id events children) in
      (status_of report ≡ from (last_of verdict events) running)
      × (error_of report ≡ last_of fault events)
      × ((status_of report ≡ running) ↔ (any_ends events ≡ false))
unfolding history_to_status
history_to_status-last_closing workflow_id run_id events children = (
  read_events-verdict events no_progress,
  read_events-fault events no_progress ∙ or_earlier-none (last_of fault events),
  read_events-open events no_progress refl,
)

abbrev pub changed : (ActivityState → ActivityState) → Option ActivityState → Option ActivityState
changed f none = none
changed f (some s) = some (f s)

abbrev pub on_activity :
    ℕ → ℕ → (ActivityState → ActivityState) → Option ActivityState → Option ActivityState
on_activity id target f o = if id == target then changed f o else o

-- The state machine of one activity, scheduled by event `id`.
abbrev pub activity_step : ℕ → ℕ → EventKind → Option ActivityState → Option ActivityState
activity_step id event_id (EventKind.activity_scheduled name activity_id) o =
    if id == event_id
    then some (record { name = name; id = activity_id; status = pending; error = none })
    else o
activity_step id event_id (EventKind.activity_started target) o =
    on_activity id target (activity_status running) o
activity_step id event_id (EventKind.activity_completed target) o =
    on_activity id target (activity_status completed) o
activity_step id event_id (EventKind.activity_failed target message) o =
    on_activity id target (activity_failure message) o
activity_step id event_id (EventKind.activity_timed_out target) o =
    on_activity id target (activity_failure (lit "Activity timed out")) o
activity_step id event_id (EventKind.activity_canceled target details) o =
    on_activity id target (activity_failure details) o
activity_step id event_id _ o = o

abbrev pub activity_run : ℕ → List Event → Option ActivityState → Option ActivityState
activity_run id [] o = o
activity_run id (e ∷ es) o = activity_run id es (activity_step id e.event_id e.kind o)

change_activity-lookup :
    (id target : ℕ) (f : ActivityState → ActivityState) (p : Progress)
    → lookup id (change_activity target f p).activities
      ≡ on_activity id target f (lookup id p.activities)
change_activity-lookup id target f p =
    lookup-update target id f p.activities ∙ same (lookup target p.activities) refl
  where
    same :
        (o : Option ActivityState)
        → lookup target p.activities ≡ o
        → (if id == target
            then elim o [ none ↦ none | some v ↦ some (f v) ]
            else lookup id p.activities)
          ≡ on_activity id target f (lookup id p.activities)
    same none e = ground (arith, e)
    same (some v) e = ground (arith, e)

on_history_event-lookup :
    (id event_id : ℕ) (k : EventKind) (p : Progress)
    → lookup id (on_history_event event_id k p).activities
      ≡ activity_step id event_id k (lookup id p.activities)
on_history_event-lookup id event_id (EventKind.activity_scheduled name activity_id) p =
    lookup-insert event_id id _ p.activities
on_history_event-lookup id event_id (EventKind.activity_started t) p =
    change_activity-lookup id t _ p
on_history_event-lookup id event_id (EventKind.activity_completed t) p =
    change_activity-lookup id t _ p
on_history_event-lookup id event_id (EventKind.activity_failed t m) p =
    change_activity-lookup id t _ p
on_history_event-lookup id event_id (EventKind.activity_timed_out t) p =
    change_activity-lookup id t _ p
on_history_event-lookup id event_id (EventKind.activity_canceled t d) p =
    change_activity-lookup id t _ p
on_history_event-lookup id event_id _ p = refl

read_events-lookup :
    (id : ℕ) (events : List Event) (p : Progress)
    → lookup id (read_events p events).activities ≡ activity_run id events (lookup id p.activities)
unfolding read_events
read_events-lookup id [] p = refl
read_events-lookup id (e ∷ es) p =
    read_events-lookup id es (on_history_event e.event_id e.kind p)
    ∙ ap (activity_run id es) (on_history_event-lookup id e.event_id e.kind p)

-- The state that is read for an activity is that of its own state machine, run over the history:
-- the events of other activities and of child workflows do not touch it.
pub read_events-activity_run :
    (id : ℕ) (events : List Event)
    → lookup id (read_events no_progress events).activities ≡ activity_run id events none
read_events-activity_run id events = read_events-lookup id events no_progress
