-- ===== src/JobService/Extract/Order.antt =====
-- The order in which `_history_to_children` lists the child workflows.
use spark_workflow_main.Common.{
  ℕ, ◌≡◌, refl, ap, some, List, [], ◌∷◌, map, leb, ◌==◌, All, Bool-cases, inl, inr, arith,
}
use mathlib.Core.List.{Perm}
use spark_workflow_main.Common.Eq.{nat_eq}
use spark_workflow_main.Common.Dict.{Dict, keys, lookup}
use spark_workflow_main.Common.Sort.{
  insert_sorted, sorted, IsSorted, sorted-perm, sorted-IsSorted, leb_total,
}
use spark_workflow_main.Common.Text.{Text}
use spark_workflow_main.JobService.{Event, ChildWorkflowState, HistoryNodes, node}
use spark_workflow_main.JobService.Extract.{
  Extracted, extract_child_workflows, ChildWorkflowInfos, info, none_left, info_cons, Grandchildren,
  infos_of, history_to_children, grandchildren_of,
}

-- The states of the listed children, without their own children.
abbrev pub heads : ChildWorkflowInfos → List ChildWorkflowState
heads none_left = []
heads (info_cons (info s _) rest) = s ∷ heads rest

abbrev IsKnown : Dict ℕ ChildWorkflowState → ℕ → Type 0
IsKnown d id = (s : ChildWorkflowState) × (lookup id d ≡ some s)

All-weaken :
    (id : ℕ) (v : ChildWorkflowState) (d : Dict ℕ ChildWorkflowState) (l : List ℕ)
    → All (IsKnown d) l
    → All (IsKnown ((id, v) ∷ d)) l
All-weaken id v d [] h = tt
All-weaken id v d (k ∷ l) h = (
  elim (Bool-cases (k == id)) [ inl same ↦ (v, rw same) | inr other ↦ (h.0.0, rw other h.0.1) ],
  All-weaken id v d l h.1,
)

keys-IsKnown : (d : Dict ℕ ChildWorkflowState) → All (IsKnown d) (keys d)
keys-IsKnown [] = tt
keys-IsKnown ((id, v) ∷ d) = ((v, ground arith), All-weaken id v d (keys d) (keys-IsKnown d))

All-insert_sorted :
    (P : ℕ → Type 0) (x : ℕ) (l : List ℕ) → P x → All P l → All P (insert_sorted leb x l)
All-insert_sorted P x [] p h = (p, tt)
All-insert_sorted P x (y ∷ l) p h = elim (Bool-cases (leb x y)) [
  | inl first ↦ rw first (p, h)
  | inr later ↦ rw later (h.0, All-insert_sorted P x l p h.1)
]

All-sorted : (P : ℕ → Type 0) (l : List ℕ) → All P l → All P (sorted leb l)
All-sorted P [] h = tt
All-sorted P (x ∷ l) h = All-insert_sorted P x (sorted leb l) h.0 (All-sorted P l h.1)

heads-infos_of :
    (x : Extracted) (g : Grandchildren) (ids : List ℕ)
    → All (IsKnown x.child_workflows) ids
    → map some (heads (infos_of x g ids)) ≡ map (λ id. lookup id x.child_workflows) ids
heads-infos_of x g [] h = refl
heads-infos_of x g (id ∷ ids) (k, h) =
    rw (k.1, infos_of) (ap (λ l. some k.0 ∷ l) (heads-infos_of x g ids h))

-- The children of a workflow are listed once for each initiating event that was extracted, in
-- the ascending order of the event ids, each with the state extracted for it.
pub history_to_children_in_order :
    (workflow_id run_id : Text) (events : List Event) (children : HistoryNodes)
    → let x = extract_child_workflows events in
      (ids : List ℕ) × Perm ids (keys x.child_workflows)
      × IsSorted leb ids
      × (map some (heads (history_to_children (node workflow_id run_id events children)))
          ≡ map (λ id. lookup id x.child_workflows) ids)
unfolding history_to_children
history_to_children_in_order workflow_id run_id events children =
    let x = extract_child_workflows events in
    let ids = sorted leb (keys x.child_workflows) in
    (
      ids,
      sorted-perm leb (keys x.child_workflows),
      sorted-IsSorted leb leb_total (keys x.child_workflows),
      heads-infos_of x (grandchildren_of x children []) ids (
          All-sorted (IsKnown x.child_workflows) (keys x.child_workflows)
            (keys-IsKnown x.child_workflows)),
    )
