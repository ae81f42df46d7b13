-- ===== src/Fcs/Types/Deleted.antt =====
-- What `delete_custom_document_type` leaves.
use spark_workflow_main.Common.{
  ℕ, ◌≡◌, refl, sym, subst, Bool, true, false, ◌&&◌, Option, none, some, List, [], ◌∷◌, All, ◌==◌,
  filter, arith, Bool-cases, inl, inr,
}
use spark_workflow_main.Common.Database.{
  one_passes, Result, ok, raised, one_or_none, forbidden, update_where, any, Result-cases, ok_inj,
  raised_absurd,
}
use spark_workflow_main.Fcs.{DocumentType, Document, Store}
use spark_workflow_main.Fcs.Tables.{is_id}
use spark_workflow_main.Fcs.Reading.{assigned_to}
use spark_workflow_main.Fcs.Types.{
  is_live, find_live, mark_deleted, clear_ai, clear_human_of, human_assigned, release,
  delete_custom_document_type, is_custom,
}

pub find_live-IsLive :
    (p id : ℕ) (s : Store) (t : DocumentType) → find_live p id s ≡ ok t → is_live p id t ≡ true
unfolding find_live
find_live-IsLive p id s t h =
    elim (Result-cases (one_or_none (filter (is_live p id) s.document_types))) [
      | inl (e, failed) ↦ raised_absurd (rw failed at h)
      | inr (none, found) ↦ raised_absurd (rw found at h)
      | inr (some row, found) ↦
          subst (λ r. is_live p id r ≡ true) (ok_inj (rw found at h))
            (one_passes (is_live p id) s.document_types row found)
    ]

-- A document that stands with no type of this project and id, by the agent or by a user.
abbrev pub IsReleased : ℕ → ℕ → Document → Type 0
IsReleased p id d =
    (((d.project_id == p) && is_id id d.ai_suggested_required_document_type_id) ≡ false)
    × (((d.project_id == p) && is_id id d.human_required_document_type_id) ≡ false)

is_id-none : (b : Bool) (id : ℕ) → (b && is_id id none) ≡ false
is_id-none true id = refl
is_id-none false id = refl

apart_from :
    (p id q tid tp : ℕ) (ai : Option ℕ)
    → tid ≡ id
    → tp ≡ p
    → (is_id tid ai && (q == tp)) ≡ false
    → ((q == p) && is_id id ai) ≡ false
apart_from p id q tid tp none here own apart = is_id-none (q == p) id
apart_from p id q tid tp (some other) here own apart = ground arith

ai_cleared :
    (p id : ℕ) (t : DocumentType) (documents : List Document)
    → is_live p id t ≡ true
    → All
        (λ d. ((d.project_id == p) && is_id id d.ai_suggested_required_document_type_id) ≡ false)
        (update_where (assigned_to t) clear_ai documents)
ai_cleared p id t [] h = tt
ai_cleared p id t (d ∷ documents) h =
    let here : t.id ≡ id = ground arith in
    let own : t.project_id ≡ p = ground arith in
    elim (Bool-cases (assigned_to t d)) [
      | inl assigned ↦
          rw assigned (is_id-none (d.project_id == p) id, ai_cleared p id t documents h)
      | inr apart ↦ rw apart (
        apart_from p id d.project_id t.id t.project_id d.ai_suggested_required_document_type_id here
            own apart,
        ai_cleared p id t documents h,
      )
    ]

human_cleared :
    (p id : ℕ) (documents : List Document)
    → All
        (λ d. ((d.project_id == p) && is_id id d.ai_suggested_required_document_type_id) ≡ false)
        documents
    → All (IsReleased p id) (update_where (human_assigned p id) clear_human_of documents)
human_cleared p id [] h = tt
human_cleared p id (d ∷ documents) h = elim (Bool-cases (human_assigned p id d)) [
  | inl assigned ↦
      rw assigned ((h.0, is_id-none (d.project_id == p) id), human_cleared p id documents h.1)
  | inr apart ↦ rw apart ((h.0, apart), human_cleared p id documents h.1)
]

not_live :
    (p id : ℕ) (types : List DocumentType)
    → any (is_live p id) (update_where (λ u. u.id == id) mark_deleted types) ≡ false
not_live p id [] = refl
not_live p id (u ∷ types) = ground (arith, not_live p id types)

release_lem :
    (p id : ℕ) (t : DocumentType) (s : Store)
    → is_live p id t ≡ true
    → All (IsReleased p id) (release p id t s).documents
      × (any (is_live p id) (release p id t s).document_types ≡ false)
release_lem p id t s h =
    let here : t.id ≡ id = ground arith in
    (
      human_cleared p id (update_where (assigned_to t) clear_ai s.documents)
          (ai_cleared p id t s.documents h),
      subst
          (λ x.
            any (is_live p id) (update_where (λ u. u.id == x) mark_deleted s.document_types)
            ≡ false)
          (sym here) (not_live p id s.document_types),
    )

pub guarded :
    (allowed : Bool) (new after : Store)
    → (elim allowed as (λ _. Result Store) [ false ↦ raised forbidden | true ↦ ok new ]) ≡ ok after
    → new ≡ after
guarded true new after h = ok_inj h
guarded false new after h = raised_absurd h

-- After delete_custom_document_type has succeeded, no document of the project is assigned to the
-- type, by the agent or by a user, and the type is not there for a further change of it.
pub delete_custom_document_type-releases :
    (p id : ℕ) (s after : Store)
    → delete_custom_document_type p id s ≡ ok after
    → All (IsReleased p id) after.documents × (any (is_live p id) after.document_types ≡ false)
unfolding delete_custom_document_type
delete_custom_document_type-releases p id s after h = elim (Result-cases (find_live p id s)) [
  | inl (e, failed) ↦ raised_absurd (rw failed at h)
  | inr (t, found) ↦
      subst (λ x. All (IsReleased p id) x.documents × (any (is_live p id) x.document_types ≡ false))
        (guarded (is_custom t.origin) (release p id t s) after (rw found at h))
        (release_lem p id t s (find_live-IsLive p id s t found))
]
