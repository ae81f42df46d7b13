-- ===== src/JobService/Latest/Newest.antt =====
-- The selected workflow is the newest of its status, and two statuses are never selected.
use spark_workflow_main.Common.{
  ℕ, ◌≤◌, ◌≡◌, ◌⊎◌, refl, sym, ap, ◌∙◌, subst, true, false, Option, none, some, List, [], ◌∷◌, ltb,
  All, Bool-cases, Option-cases, inl, inr, arith,
}
use spark_workflow_main.Common.Eq.{elem, list_beq, list_beq_iff, list_eq, nat_eq}
use spark_workflow_main.Common.Text.{Text, lit, is_empty}
use spark_workflow_main.JobService.Latest.{
  ExecutionStatus, timed_out, continued_as_new, lower, Workflow, StatusInfo, timestamp, newer,
  note_workflows, no_info, latest_status_info, info_of, latest_workflow_id,
}
use spark_workflow_main.JobService.Latest.Selection.{
  has, label, chosen, counts_for, take_newer, latest_of, note_workflows-info,
}

abbrev pub Any {ℓ} : {A : Type ℓ} → (A → Type 0) → List A → Type 0
Any P [] = ⊥
Any P (x ∷ xs) = P x ⊎ Any P xs

-- The time that is kept is no earlier than `t`.
abbrev pub IsAtLeast : ℕ → StatusInfo → Type 0
IsAtLeast t info = (t' : ℕ) × (info.time ≡ some t') × (t ≤ t')

newer-ge_new : (ts : ℕ) (id : Text) (info : StatusInfo) → IsAtLeast ts (newer ts id info)
newer-ge_new ts id info = elim (Option-cases info.time) [
  | inl unset ↦ (ts, rw (unset, newer), omega arith)
  | inr (t, set) ↦ elim (Bool-cases (ltb t ts)) [
    | inl less ↦ (ts, rw (set, less, newer), omega arith)
    | inr more ↦ (t, rw (set, more, newer) set, ground arith)
  ]
]

newer-ge_old :
    (t ts : ℕ) (id : Text) (info : StatusInfo) → IsAtLeast t info → IsAtLeast t (newer ts id info)
newer-ge_old t ts id info (t', set, le) = elim (Bool-cases (ltb t' ts)) [
  | inl less ↦ (ts, rw (set, less, newer), ground arith)
  | inr more ↦ (t', rw (set, more, newer) set, le)
]

newer-cases :
    (ts : ℕ) (id : Text) (info : StatusInfo)
    → (newer ts id info ≡ info)
      ⊎ (newer ts id info ≡ record { time = some ts; workflow_id = some id })
newer-cases ts id info = elim (Option-cases info.time) [
  | inl unset ↦ inr (rw (unset, newer))
  | inr (t, set) ↦ elim (Bool-cases (ltb t ts)) [
    | inl less ↦ inr (rw (set, less, newer))
    | inr more ↦ inl (ground arith)
  ]
]

module _ (f s : ExecutionStatus) where
  latest_of-ge_old :
      (t : ℕ) (ws : List Workflow) (info : StatusInfo)
      → IsAtLeast t info
      → IsAtLeast t (latest_of f s ws info)
  latest_of-ge_old t [] info h = h
  latest_of-ge_old t (w ∷ ws) info h = latest_of-ge_old t ws _ (step (counts_for f s w))
    where
      step : (o : Option ℕ) → IsAtLeast t (take_newer f o w.id info)
      step none = h
      step (some ts) = newer-ge_old t ts w.id info h

  -- No workflow that counts for the status is later than what was kept.
  abbrev pub IsNewest : List Workflow → StatusInfo → Type 0
  IsNewest ws info = All (λ w. (ts : ℕ) → counts_for f s w ≡ some ts → IsAtLeast ts info) ws

  latest_of-IsNewest :
      (ws : List Workflow) (info : StatusInfo) → IsNewest ws (latest_of f s ws info)
  latest_of-IsNewest [] info = tt
  latest_of-IsNewest (w ∷ ws) info = (
    λ ts c.
        latest_of-ge_old ts ws _ (
          subst (λ o. IsAtLeast ts (take_newer f o w.id info)) (sym c) (newer-ge_new ts w.id info)),
    latest_of-IsNewest ws _,
  )

  -- What was kept is one of the workflows that count.
  abbrev pub IsOneOf : List Workflow → StatusInfo → Type 0
  IsOneOf ws info =
      Any
        (λ w.
          (ts : ℕ) × (counts_for f s w ≡ some ts)
          × (info ≡ record { time = some ts; workflow_id = some w.id }))
        ws

  latest_of-origin :
      (ws : List Workflow) (info : StatusInfo)
      → (latest_of f s ws info ≡ info) ⊎ IsOneOf ws (latest_of f s ws info)
  latest_of-origin [] info = inl refl
  latest_of-origin (w ∷ ws) info =
      elim (latest_of-origin ws (take_newer f (counts_for f s w) w.id info)) [
        | inr later ↦ inr (inr later)
        | inl kept ↦ elim (Option-cases (counts_for f s w)) [
          | inl skipped ↦ inl (kept ∙ ap (λ o. take_newer f o w.id info) skipped)
          | inr (ts, counted) ↦ elim (newer-cases ts w.id info) [
            | inl old ↦ inl (kept ∙ ap (λ o. take_newer f o w.id info) counted ∙ old)
            | inr new ↦
                inr (inl (ts, counted, kept ∙ ap (λ o. take_newer f o w.id info) counted ∙ new))
          ]
        ]
      ]

  -- For each of the seven statuses, what the walk keeps is nothing or one of the workflows that
  -- count for the status, and it is no earlier than any of them.
  pub latest-IsNewest :
      (ws : List Workflow)
      → has s latest_status_info ≡ true
      → let info = info_of s (note_workflows f ws latest_status_info) in
        ((info ≡ no_info) ⊎ IsOneOf ws info) × IsNewest ws info
  latest-IsNewest ws h =
      subst (λ i. ((i ≡ no_info) ⊎ IsOneOf ws i) × IsNewest ws i)
        (sym (note_workflows-info f s ws latest_status_info h ∙ ap (latest_of f s ws) start))
        (latest_of-origin ws no_info, latest_of-IsNewest ws no_info)
    where
      start : info_of s latest_status_info ≡ no_info
      start = ground arith

-- The literals of TemporalStatus, which the response checks the lower-case status name against.
abbrev pub temporal_statuses : List Text
temporal_statuses =
    lit "running"
    ∷ lit "completed"
    ∷ lit "failed"
    ∷ lit "canceled"
    ∷ lit "terminated"
    ∷ lit "timed_out"
    ∷ lit "continued_as_new"
    ∷ lit "pending"
    ∷ []

abbrev pub HasTemporalStatus : Workflow → Type 0
HasTemporalStatus w =
    (name : Text) → w.status_name ≡ some name → elem (lower name) temporal_statuses ≡ true

module _ (f s : ExecutionStatus) (foreign : elem (label s) temporal_statuses ≡ false) where
  not_chosen :
      (name : Text) → elem (lower name) temporal_statuses ≡ true → chosen f s (lower name) ≡ false
  not_chosen name h = elim (Bool-cases (list_beq (lower name) (label s))) [
    | inr other ↦ rw other
    | inl same ↦ absurd (
        cc (
          sym (ap (λ t. elem t temporal_statuses) ((list_beq_iff (lower name) (label s)).0 same))
              ∙ h,
          foreign,
        ))
  ]

  not_counted : (w : Workflow) → HasTemporalStatus w → counts_for f s w ≡ none
  not_counted w h = elim (Option-cases (timestamp w)) [
    | inl no_time ↦ rw (no_time, counts_for)
    | inr (ts, timed) ↦ elim (Option-cases w.status_name) [
      | inl no_name ↦ rw (timed, no_name, counts_for)
      | inr (name, named) ↦ elim (Bool-cases (is_empty name)) [
        | inl empty ↦ rw (timed, named, empty, counts_for)
        | inr full ↦ rw (timed, named, full, not_chosen name (h name named), counts_for)
      ]
    ]
  ]

  nothing_kept :
      (ws : List Workflow) (info : StatusInfo)
      → All HasTemporalStatus ws
      → latest_of f s ws info ≡ info
  nothing_kept [] info h = refl
  nothing_kept (w ∷ ws) info (first, rest) =
      ap (λ o. latest_of f s ws (take_newer f o w.id info)) (not_counted w first)
      ∙ nothing_kept ws info rest

-- Whatever workflows Temporal lists, with status names that the response accepts, no latest
-- timed-out and no latest continued-as-new workflow is ever reported: the code compares
-- "timed_out" with "timedout", and "continued_as_new" with "continuedasnew".
pub latest_timed_out_missing :
    (execution_status : ExecutionStatus) (ws : List Workflow)
    → All HasTemporalStatus ws
    → (latest_workflow_id execution_status ws timed_out ≡ none)
      × (latest_workflow_id execution_status ws continued_as_new ≡ none)
unfolding latest_workflow_id
latest_timed_out_missing f ws h = (
  ap (λ (i : StatusInfo). i.workflow_id)
      (note_workflows-info f timed_out ws latest_status_info refl
        ∙ nothing_kept f timed_out refl ws no_info h),
  ap (λ (i : StatusInfo). i.workflow_id)
      (note_workflows-info f continued_as_new ws latest_status_info refl
        ∙ nothing_kept f continued_as_new refl ws no_info h),
)
