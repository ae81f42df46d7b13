-- ===== src/JobService/Latest/Selection.antt =====
-- Which workflow is selected for a status.
use spark_workflow_main.Common.{
  ℕ, ◌≡◌, ◌⊎◌, refl, sym, ap, ◌∙◌, subst, Bool, true, false, Option, none, some, List, [], ◌∷◌,
  ◌&&◌, ◌||◌, if◌then◌else◌, Bool-cases, Option-cases, ==_refl, inl, inr, arith,
}
use spark_workflow_main.Common.Eq.{list_beq, list_beq_iff, nat_eq}
use spark_workflow_main.Common.Text.{Text, is_empty}
use spark_workflow_main.JobService.Latest.{
  ExecutionStatus, completed, running, failed, canceled, terminated, timed_out, continued_as_new,
  all, value, lower, index, same, is_effective_status, Workflow, StatusInfo, timestamp, newer,
  LatestInfo, note_status, note_workflow, note_workflows, info_of,
}

abbrev pub label : ExecutionStatus → Text
label s = lower (value s)

-- The values of the enumeration differ in lower case too.
label-same : (a b : ExecutionStatus) → list_beq (label a) (label b) ≡ same a b
label-same completed completed = refl
label-same completed _ = refl
label-same running completed = refl
label-same running _ = refl
label-same failed completed = refl
label-same failed _ = refl
label-same canceled completed = refl
label-same canceled _ = refl
label-same terminated completed = refl
label-same terminated _ = refl
label-same timed_out completed = refl
label-same timed_out _ = refl
label-same continued_as_new completed = refl
label-same continued_as_new _ = refl
label-same all completed = refl
label-same all _ = refl

same-eq : (a b : ExecutionStatus) → same a b ≡ true → a ≡ b
same-eq completed completed h = cc
same-eq completed _ h = cc
same-eq running completed h = cc
same-eq running _ h = cc
same-eq failed completed h = cc
same-eq failed _ h = cc
same-eq canceled completed h = cc
same-eq canceled _ h = cc
same-eq terminated completed h = cc
same-eq terminated _ h = cc
same-eq timed_out completed h = cc
same-eq timed_out _ h = cc
same-eq continued_as_new completed h = cc
same-eq continued_as_new _ h = cc
same-eq all completed h = cc
same-eq all _ h = cc

-- The workflow counts for a status: it has a time, its name in lower case is the status's value in
-- lower case, and the status is asked for.
abbrev pub counts : ExecutionStatus → ExecutionStatus → Text → Bool
counts execution_status s name =
    list_beq (lower name) (label s) && is_effective_status execution_status s

abbrev pub has : ExecutionStatus → LatestInfo → Bool
has s [] = false
has s ((k, info) ∷ rest) = same s k || has s rest

and_left : (a b : Bool) → (a && b) ≡ true → a ≡ true
and_left a b h = ground arith

-- Two statuses with one label are one.
label_unique :
    (a b : ExecutionStatus) (t : Text)
    → list_beq t (label a) ≡ true
    → list_beq t (label b) ≡ true
    → same a b ≡ true
label_unique a b t h k =
    sym (label-same a b)
    ∙ (list_beq_iff (label a) (label b)).1
        (sym ((list_beq_iff t (label a)).0 h) ∙ (list_beq_iff t (label b)).0 k)

module _ (f : ExecutionStatus) where
  abbrev pub chosen : ExecutionStatus → Text → Bool
  chosen s t = list_beq t (label s) && is_effective_status f s

  not_chosen :
      (s k : ExecutionStatus) (t : Text) → chosen k t ≡ true → same s k ≡ false → chosen s t ≡ false
  not_chosen s k t c o = elim (Bool-cases (list_beq t (label s))) [
    | inl fits ↦ absurd (cc (label_unique s k t fits (and_left _ _ c)))
    | inr fails ↦ rw fails
  ]

  note_status-info :
      (s : ExecutionStatus) (t : Text) (ts : ℕ) (id : Text) (l : LatestInfo)
      → info_of s (note_status f t ts id l)
        ≡ (if chosen s t && has s l then newer ts id (info_of s l) else info_of s l)
  unfolding note_status
  note_status-info s t ts id [] = ground arith
  note_status-info s t ts id ((k, info) ∷ rest) = elim (Bool-cases (same s k)) [
    | inl found ↦
        subst
          (λ (k' : ExecutionStatus). info_of s (note_status f t ts id ((k', info) ∷ rest)) ≡ (
            if chosen s t && has s ((k', info) ∷ rest)
            then newer ts id (info_of s ((k', info) ∷ rest))
            else info_of s ((k', info) ∷ rest)))
          (same-eq s k found) (here (==_refl (index s)) (Bool-cases (chosen s t)))
    | inr other ↦ elsewhere other (note_status-info s t ts id rest) (Bool-cases (chosen k t))
  ]
    where
      here :
          same s s ≡ true
          → (chosen s t ≡ true) ⊎ (chosen s t ≡ false)
          → info_of s (note_status f t ts id ((s, info) ∷ rest)) ≡ (
              if chosen s t && has s ((s, info) ∷ rest)
              then newer ts id (info_of s ((s, info) ∷ rest))
              else info_of s ((s, info) ∷ rest))
      here r (inl c) = rw (c, r)
      here r (inr c) = rw (c, r)

      elsewhere :
          same s k ≡ false
          → info_of s (note_status f t ts id rest)
            ≡ (if chosen s t && has s rest then newer ts id (info_of s rest) else info_of s rest)
          → (chosen k t ≡ true) ⊎ (chosen k t ≡ false)
          → info_of s (note_status f t ts id ((k, info) ∷ rest)) ≡ (
              if chosen s t && has s ((k, info) ∷ rest)
              then newer ts id (info_of s ((k, info) ∷ rest))
              else info_of s ((k, info) ∷ rest))
      elsewhere o ih (inl c) = rw (c, o, not_chosen s k t c o)
      elsewhere o ih (inr c) = rw (c, o) ih

  note_status-has :
      (s : ExecutionStatus) (t : Text) (ts : ℕ) (id : Text) (l : LatestInfo)
      → has s (note_status f t ts id l) ≡ has s l
  unfolding note_status
  note_status-has s t ts id [] = refl
  note_status-has s t ts id ((k, info) ∷ rest) = elim (Bool-cases (chosen k t)) [
    | inl c ↦ rw c
    | inr c ↦ rw c (ap (λ b. same s k || b) (note_status-has s t ts id rest))
  ]

  -- A workflow counts for a status: it has a time, and its status name, which is not empty, is the
  -- status's value up to case, and the status is asked for.
  abbrev pub counts_for : ExecutionStatus → Workflow → Option ℕ
  counts_for s w = elim (timestamp w) [
    | none ↦ none
    | some ts ↦ elim w.status_name [
      | none ↦ none
      | some name ↦ if is_empty name then none else if chosen s (lower name) then some ts else none
    ]
  ]

  -- The reference for one status: the first workflow of the latest time.
  abbrev pub take_newer : Option ℕ → Text → StatusInfo → StatusInfo
  take_newer none id info = info
  take_newer (some ts) id info = newer ts id info

  abbrev pub latest_of : ExecutionStatus → List Workflow → StatusInfo → StatusInfo
  latest_of s [] info = info
  latest_of s (w ∷ ws) info = latest_of s ws (take_newer (counts_for s w) w.id info)

  note_workflow-info :
      (s : ExecutionStatus) (w : Workflow) (l : LatestInfo)
      → has s l ≡ true
      → (info_of s (note_workflow f w l) ≡ take_newer (counts_for s w) w.id (info_of s l))
        × (has s (note_workflow f w l) ≡ true)
  unfolding note_workflow
  note_workflow-info s w l h = elim (Option-cases (timestamp w)) [
    | inl no_time ↦ rw (no_time, note_workflow, counts_for) (refl, h)
    | inr (ts, timed) ↦ elim (Option-cases w.status_name) [
      | inl no_name ↦ rw (timed, no_name, note_workflow, counts_for) (refl, h)
      | inr (name, named) ↦ elim (Bool-cases (is_empty name)) [
        | inl empty ↦ rw (timed, named, empty, note_workflow, counts_for) (refl, h)
        | inr full ↦ elim (Bool-cases (chosen s (lower name))) [
          | inl c ↦
              rw (timed, named, full, c, note_workflow, counts_for)
                (
                  note_status-info s (lower name) ts w.id l ∙ rw (c, h),
                  note_status-has s (lower name) ts w.id l ∙ h,
                )
          | inr c ↦
              rw (timed, named, full, c, note_workflow, counts_for)
                (
                  note_status-info s (lower name) ts w.id l ∙ rw c,
                  note_status-has s (lower name) ts w.id l ∙ h,
                )
        ]
      ]
    ]
  ]

  pub note_workflows-info :
      (s : ExecutionStatus) (ws : List Workflow) (l : LatestInfo)
      → has s l ≡ true
      → info_of s (note_workflows f ws l) ≡ latest_of s ws (info_of s l)
  unfolding note_workflows
  note_workflows-info s [] l h = refl
  note_workflows-info s (w ∷ ws) l h =
      let (same_info, still) = note_workflow-info s w l h in
      note_workflows-info s ws (note_workflow f w l) still ∙ ap (latest_of s ws) same_info
