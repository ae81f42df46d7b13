-- ===== src/JobService/Extract/Children.antt =====
-- What the extraction of child workflows guarantees.
use spark_workflow_main.Common.{
  ℕ, ◌+◌, ◌≤◌, ◌<◌, ◌≡◌, refl, sym, ap, ◌∙◌, false, Option, none, some, List, [], ◌∷◌, ◌==◌,
  if◌then◌else◌, Bool-cases, Option-cases, some_inj, ==_refl, ==_iff, ne_test, inl, inr, arith,
}
use spark_workflow_main.Common.Eq.{nat_eq, list_eq, list_beq, list_beq_iff}
use spark_workflow_main.Common.Text.{Text, lit}
use spark_workflow_main.Common.Dict.{lookup, lookup-insert, lookup-update}
use spark_workflow_main.JobService.{EventKind, Event, running, completed, ChildWorkflowState}
use spark_workflow_main.JobService.Extract.{
  Extracted, set_status, set_failed, initiated_state, change, on_event, extract_from,
  extract_child_workflows,
}

abbrev pub changed :
    (ChildWorkflowState → ChildWorkflowState)
    → Option ChildWorkflowState
    → Option ChildWorkflowState
changed f none = none
changed f (some s) = some (f s)

abbrev pub on_child :
    ℕ
    → ℕ
    → (ChildWorkflowState → ChildWorkflowState)
    → Option ChildWorkflowState
    → Option ChildWorkflowState
on_child id target f o = if id == target then changed f o else o

-- The state machine of one child, initiated by event `id`: it reads no event of another child.
abbrev pub child_step : ℕ → ℕ → EventKind → Option ChildWorkflowState → Option ChildWorkflowState
child_step id event_id (EventKind.child_initiated wf_id wf_type) o =
    if id == event_id then some (initiated_state wf_id wf_type) else o
child_step id event_id (EventKind.child_started target _ _) o =
    on_child id target (set_status running) o
child_step id event_id (EventKind.child_completed target) o =
    on_child id target (set_status completed) o
child_step id event_id (EventKind.child_failed target message) o =
    on_child id target (set_failed message) o
child_step id event_id (EventKind.child_canceled target details) o =
    on_child id target (set_failed details) o
child_step id event_id (EventKind.child_timed_out target) o =
    on_child id target (set_failed (lit "Child workflow timed out")) o
child_step id event_id (EventKind.child_terminated target) o =
    on_child id target (set_failed (lit "Child workflow terminated")) o
child_step id event_id _ o = o

abbrev pub child_run : ℕ → List Event → Option ChildWorkflowState → Option ChildWorkflowState
child_run id [] o = o
child_run id (e ∷ es) o = child_run id es (child_step id e.event_id e.kind o)

change-lookup :
    (id target : ℕ) (f : ChildWorkflowState → ChildWorkflowState) (x : Extracted)
    → lookup id (change target f x).child_workflows
      ≡ on_child id target f (lookup id x.child_workflows)
change-lookup id target f x =
    lookup-update target id f x.child_workflows ∙ same (lookup target x.child_workflows) refl
  where
    same :
        (o : Option ChildWorkflowState)
        → lookup target x.child_workflows ≡ o
        → (if id == target
            then elim o [ none ↦ none | some v ↦ some (f v) ]
            else lookup id x.child_workflows)
          ≡ on_child id target f (lookup id x.child_workflows)
    same none e = ground (arith, e)
    same (some v) e = ground (arith, e)

on_event-lookup :
    (id event_id : ℕ) (k : EventKind) (x : Extracted)
    → lookup id (on_event event_id k x).child_workflows
      ≡ child_step id event_id k (lookup id x.child_workflows)
on_event-lookup id event_id (EventKind.child_initiated wf_id wf_type) x =
    lookup-insert event_id id (initiated_state wf_id wf_type) x.child_workflows
on_event-lookup id event_id (EventKind.child_started target _ _) x = change-lookup id target _ x
on_event-lookup id event_id (EventKind.child_completed target) x = change-lookup id target _ x
on_event-lookup id event_id (EventKind.child_failed target message) x = change-lookup id target _ x
on_event-lookup id event_id (EventKind.child_canceled target d) x = change-lookup id target _ x
on_event-lookup id event_id (EventKind.child_timed_out target) x = change-lookup id target _ x
on_event-lookup id event_id (EventKind.child_terminated target) x = change-lookup id target _ x
on_event-lookup id event_id _ x = refl

extract_from-lookup :
    (id : ℕ) (events : List Event) (x : Extracted)
    → lookup id (extract_from x events).child_workflows
      ≡ child_run id events (lookup id x.child_workflows)
unfolding extract_from
extract_from-lookup id [] x = refl
extract_from-lookup id (e ∷ es) x =
    extract_from-lookup id es (on_event e.event_id e.kind x)
    ∙ ap (child_run id es) (on_event-lookup id e.event_id e.kind x)

-- The state that is extracted for a child is that of its own state machine, run over the history:
-- pending when initiated, then running, completed or failed by the events that name its
-- initiating event, however the events of other children interleave.
pub extract-child_run :
    (id : ℕ) (events : List Event)
    → lookup id (extract_child_workflows events).child_workflows ≡ child_run id events none
unfolding extract_child_workflows
extract-child_run id events = extract_from-lookup id events _

-- Event ids grow along a history, as Temporal numbers them.
abbrev pub IdsAscend : ℕ → List Event → Type 0
IdsAscend n [] = Unit
IdsAscend n (e ∷ es) = (n ≤ e.event_id) × IdsAscend (e.event_id + 1) es

-- Each workflow id leads to the state of a child with that workflow id.
abbrev pub IsLinked : Extracted → Type 0
IsLinked x =
    (wf_id : Text) (id : ℕ)
    → lookup wf_id x.child_wf_id_to_initiated ≡ some id
    → (s : ChildWorkflowState) × (lookup id x.child_workflows ≡ some s) × (s.workflow_id ≡ wf_id)

-- All states belong to events below `n`.
abbrev IsBelow : ℕ → Extracted → Type 0
IsBelow n x = (id : ℕ) (s : ChildWorkflowState) → lookup id x.child_workflows ≡ some s → id < n

record Inv (n : ℕ) (x : Extracted) : Type 0 where
  linked : IsLinked x
  below : IsBelow n x

-- A change keeps the workflow id of every state, and adds no state.
abbrev KeepsId : (ChildWorkflowState → ChildWorkflowState) → Type 0
KeepsId f = (s : ChildWorkflowState) → (f s).workflow_id ≡ s.workflow_id

change-Inv :
    (n target : ℕ) (f : ChildWorkflowState → ChildWorkflowState) (x : Extracted)
    → KeepsId f
    → Inv n x
    → Inv n (change target f x)
change-Inv n target f x keeps inv = record {
  linked = λ wf_id id e.
      let (s, at, named) = inv.linked wf_id id e in
      elim (Bool-cases (id == target)) [
        | inl same ↦ (f s, change-lookup id target f x ∙ rw (same, at), keeps s ∙ named)
        | inr other ↦ (s, change-lookup id target f x ∙ rw other at, named)
      ];
  below = λ id s e. elim (Option-cases (lookup id x.child_workflows)) [
    | inl gone ↦ absurd (none_stays id gone s (sym (change-lookup id target f x) ∙ e))
    | inr (s', at) ↦ inv.below id s' at
  ];
}
  where
    none_stays :
        (id : ℕ)
        → lookup id x.child_workflows ≡ none
        → (s : ChildWorkflowState) → on_child id target f (lookup id x.child_workflows) ≡ some s
        → ⊥
    none_stays id gone s = rw gone (λ h. ground arith)

Inv-later : (m n : ℕ) (x : Extracted) → m ≤ n → Inv m x → Inv n x
Inv-later m n x le inv = record {
  linked = inv.linked;
  below = λ id s e. omega (arith, inv.below id s e);
}

initiated-Inv :
    (n event_id : ℕ) (wf_id wf_type : Text) (x : Extracted)
    → n ≤ event_id
    → Inv n x
    → Inv (event_id + 1) (on_event event_id (EventKind.child_initiated wf_id wf_type) x)
initiated-Inv n event_id wf_id wf_type x le inv = record {
  linked = λ w id e. elim (Bool-cases (list_beq w wf_id)) [
    | inl same ↦
        let at : some event_id ≡ some id =
          sym (lookup-insert wf_id w event_id x.child_wf_id_to_initiated ∙ rw same) ∙ e in
        (
          initiated_state wf_id wf_type,
          lookup-insert event_id id (initiated_state wf_id wf_type) x.child_workflows
              ∙ rw (sym (some_inj at), ==_refl event_id),
          sym ((list_beq_iff w wf_id).0 same),
        )
    | inr other ↦
        let at : lookup w x.child_wf_id_to_initiated ≡ some id =
          sym (lookup-insert wf_id w event_id x.child_wf_id_to_initiated ∙ rw other) ∙ e in
        let (s, known, named) = inv.linked w id at in
        let apart : (id == event_id) ≡ false =
          ne_test id event_id (omega (arith, inv.below id s known)) in
        (
          s,
          lookup-insert event_id id (initiated_state wf_id wf_type) x.child_workflows
              ∙ rw apart known,
          named,
        )
  ];
  below = λ id s e. elim (Bool-cases (id == event_id)) [
    | inl same ↦ omega (arith, (==_iff id event_id).0 same)
    | inr other ↦
        let at : lookup id x.child_workflows ≡ some s =
          sym
            (lookup-insert event_id id (initiated_state wf_id wf_type) x.child_workflows ∙ rw other)
          ∙ e in
        omega (arith, inv.below id s at)
  ];
}

on_event-Inv :
    (n event_id : ℕ) (k : EventKind) (x : Extracted)
    → n ≤ event_id
    → Inv n x
    → Inv (event_id + 1) (on_event event_id k x)
on_event-Inv n event_id (EventKind.child_initiated wf_id wf_type) x le inv =
    initiated-Inv n event_id wf_id wf_type x le inv
on_event-Inv n event_id (EventKind.child_started target _ _) x le inv =
    Inv-later n (event_id + 1) _ (omega arith) (change-Inv n target _ x (λ s. refl) inv)
on_event-Inv n event_id (EventKind.child_completed target) x le inv =
    Inv-later n (event_id + 1) _ (omega arith) (change-Inv n target _ x (λ s. refl) inv)
on_event-Inv n event_id (EventKind.child_failed target m) x le inv =
    Inv-later n (event_id + 1) _ (omega arith) (change-Inv n target _ x (λ s. refl) inv)
on_event-Inv n event_id (EventKind.child_canceled target d) x le inv =
    Inv-later n (event_id + 1) _ (omega arith) (change-Inv n target _ x (λ s. refl) inv)
on_event-Inv n event_id (EventKind.child_timed_out target) x le inv =
    Inv-later n (event_id + 1) _ (omega arith) (change-Inv n target _ x (λ s. refl) inv)
on_event-Inv n event_id (EventKind.child_terminated target) x le inv =
    Inv-later n (event_id + 1) _ (omega arith) (change-Inv n target _ x (λ s. refl) inv)
on_event-Inv n event_id _ x le inv = Inv-later n (event_id + 1) x (omega arith) inv

extract_from-IsLinked :
    (n : ℕ) (events : List Event) (x : Extracted)
    → IdsAscend n events
    → Inv n x
    → IsLinked (extract_from x events)
unfolding extract_from
extract_from-IsLinked n [] x up inv = inv.linked
extract_from-IsLinked n (e ∷ es) x up inv =
    extract_from-IsLinked (e.event_id + 1) es (on_event e.event_id e.kind x) up.1
      (on_event-Inv n e.event_id e.kind x up.0 inv)

-- On a history whose event ids grow, the two dicts fit together: a workflow id that the second
-- one knows leads to an event id under which the first one holds a child of that workflow id.
pub extract-IsLinked :
    (events : List Event) → IdsAscend 0 events → IsLinked (extract_child_workflows events)
unfolding extract_child_workflows
extract-IsLinked events up =
    extract_from-IsLinked 0 events _ up
      (record { linked = λ wf_id id e. absurd (cc); below = λ id s e. absurd (cc) })
