-- ===== src/Fcs/Results/Deletion.antt =====
-- What `delete_all_for_project` leaves, on rows whose foreign keys hold.
use spark_workflow_main.Common.{
  ℕ, ◌≡◌, ◌≢◌, refl, sym, ap, ap₂, ◌∙◌, subst, true, false, not, ◌&&◌, Option, List, [], ◌∷◌, map,
  All, ◌==◌, filter, arith, Bool-cases, inl, inr,
}
use spark_workflow_main.Common.Database.{is_none}
use spark_workflow_main.Fcs.{DocumentType, Document, Store}
use spark_workflow_main.Fcs.Tables.{type_exists, cascades, clear_human}
use spark_workflow_main.Fcs.Results.{is_unassigned, is_type_of, delete_all_for_project}
use spark_workflow_main.Fcs.Results.Cascade.{
  IsAssigned, IsOwnHuman, of_project, All-filter, All-map, human_kept, cascade_test, cascade_own,
  cascade_other,
}

module _ (p : ℕ) (types : List DocumentType) where
  abbrev gone : List DocumentType
  gone = filter (is_type_of p) types

  abbrev remain : List Document → List Document
  remain documents =
      map (clear_human gone)
        (filter (λ d. not (cascades gone d)) (filter (λ d. not (is_unassigned p d)) documents))

  own_removed :
      (q : ℕ) (ai : Option ℕ)
      → type_exists q ai types ≡ true
      → not ((q == p) && is_none ai) ≡ true
      → not (cascade_test gone q ai) ≡ true
      → (q == p) ≡ false
  own_removed q ai exists assigned stays = elim (Bool-cases (q == p)) [
    | inr other ↦ other
    | inl own ↦
        let same : q ≡ p = ground arith in
        let here : type_exists p ai types ≡ true =
          subst (λ r. type_exists r ai types ≡ true) same exists in
        let known : is_none ai ≡ false = ground arith in
        let cascade : cascade_test gone q ai ≡ true =
          subst (λ r. cascade_test gone r ai ≡ true) (sym same)
            (cascade_own p types ai here known) in
        ground arith
  ]

  remain-clears :
      (documents : List Document)
      → All (IsAssigned types) documents
      → All (λ d. of_project p d ≡ false) (remain documents)
  remain-clears documents h =
      All-map (λ d. of_project p d ≡ false) (λ d. of_project p d ≡ false) (clear_human gone)
        (filter (λ d. not (cascades gone d)) (filter (λ d. not (is_unassigned p d)) documents))
        (λ d other. other)
        (All-filter (λ d. IsAssigned types d × (not (is_unassigned p d) ≡ true))
          (λ d. of_project p d ≡ false) (λ d. not (cascades gone d))
          (filter (λ d. not (is_unassigned p d)) documents)
          (λ d k stays.
            own_removed d.project_id d.ai_suggested_required_document_type_id k.0 k.1 stays)
          (All-filter (IsAssigned types)
            (λ d. IsAssigned types d × (not (is_unassigned p d) ≡ true))
            (λ d. not (is_unassigned p d)) documents (λ d k stays. (k, stays)) h))

  types_gone :
      (ts : List DocumentType)
      → All (λ t. is_type_of p t ≡ false) (filter (λ t. not (is_type_of p t)) ts)
  types_gone [] = tt
  types_gone (t ∷ ts) = elim (Bool-cases (is_type_of p t)) [
    | inl own ↦ rw own (types_gone ts)
    | inr other ↦ rw other (other, types_gone ts)
  ]

  types_kept :
      (q : ℕ) (ts : List DocumentType)
      → q ≢ p
      → filter (is_type_of q) (filter (λ t. not (is_type_of p t)) ts) ≡ filter (is_type_of q) ts
  types_kept q [] ne = refl
  types_kept q (t ∷ ts) ne = ground (arith, types_kept q ts ne)

  remain_stays :
      (d : Document) (documents : List Document)
      → is_unassigned p d ≡ false
      → cascades gone d ≡ false
      → remain (d ∷ documents) ≡ clear_human gone d ∷ remain documents
  remain_stays d documents unassigned cascade = rw (unassigned, cascade) refl

  remain_unassigned :
      (d : Document) (documents : List Document)
      → is_unassigned p d ≡ true
      → remain (d ∷ documents) ≡ remain documents
  remain_unassigned d documents unassigned = rw unassigned refl

  remain_cascade :
      (d : Document) (documents : List Document)
      → is_unassigned p d ≡ false
      → cascades gone d ≡ true
      → remain (d ∷ documents) ≡ remain documents
  remain_cascade d documents unassigned cascade = rw (unassigned, cascade) refl

  filter_in :
      (q : ℕ) (d : Document) (documents : List Document)
      → of_project q d ≡ true
      → filter (of_project q) (d ∷ documents) ≡ d ∷ filter (of_project q) documents
  filter_in q d documents own = rw own refl

  filter_out :
      (q : ℕ) (d : Document) (documents : List Document)
      → of_project q d ≡ false
      → filter (of_project q) (d ∷ documents) ≡ filter (of_project q) documents
  filter_out q d documents other = rw other refl

  filter-remain :
      (q : ℕ) (d : Document) (documents : List Document)
      → of_project q d ≡ false
      → filter (of_project q) (remain (d ∷ documents)) ≡ filter (of_project q) (remain documents)
  filter-remain q d documents other = elim (Bool-cases (is_unassigned p d)) [
    | inl unassigned ↦ ap (filter (of_project q)) (remain_unassigned d documents unassigned)
    | inr assigned ↦ elim (Bool-cases (cascades gone d)) [
      | inl cascade ↦ ap (filter (of_project q)) (remain_cascade d documents assigned cascade)
      | inr kept ↦
          ap (filter (of_project q)) (remain_stays d documents assigned kept)
          ∙ filter_out q (clear_human gone d) (remain documents) other
    ]
  ]

  whole : (d : Document) → d.project_id ≢ p → IsOwnHuman types d → clear_human gone d ≡ d
  whole d apart h =
      ap (λ x. record d { human_required_document_type_id = x })
        (human_kept p d.project_id types d.human_required_document_type_id apart h)

  remain-keeps :
      (q : ℕ) (documents : List Document)
      → q ≢ p
      → All (IsOwnHuman types) documents
      → filter (of_project q) (remain documents) ≡ filter (of_project q) documents
  remain-keeps q [] ne h = refl
  remain-keeps q (d ∷ documents) ne h = elim (Bool-cases (of_project q d)) [
    | inl own ↦
        let same : d.project_id ≡ q = ground arith in
        let other : (d.project_id == p) ≡ false = ground arith in
        let apart : d.project_id ≢ p = λ eq. ne (sym same ∙ eq) in
        let assigned : is_unassigned p d ≡ false = rw other refl in
        let kept : cascades gone d ≡ false =
          cascade_other p d.project_id types d.ai_suggested_required_document_type_id apart in
        ap (filter (of_project q)) (remain_stays d documents assigned kept)
        ∙ filter_in q (clear_human gone d) (remain documents) own
        ∙ ap₂ (λ x xs. x ∷ xs) (whole d apart h.0) (remain-keeps q documents ne h.1)
        ∙ sym (filter_in q d documents own)
    | inr other ↦
        filter-remain q d documents other
        ∙ remain-keeps q documents ne h.1
        ∙ sym (filter_out q d documents other)
  ]

-- Where the foreign keys hold and no user's assignment leads into another project,
-- delete_all_for_project leaves no document and no document type of the project, deletes no
-- category, and leaves the documents and types of every other project as they are.
pub delete_all_for_project-clears :
    (p q : ℕ) (s : Store)
    → q ≢ p
    → All (IsAssigned s.document_types) s.documents
    → All (IsOwnHuman s.document_types) s.documents
    → All (λ d. of_project p d ≡ false) (delete_all_for_project p s).1.documents
      × (All (λ t. is_type_of p t ≡ false) (delete_all_for_project p s).1.document_types
          × ((filter (of_project q) (delete_all_for_project p s).1.documents
                ≡ filter (of_project q) s.documents)
              × ((filter (is_type_of q) (delete_all_for_project p s).1.document_types
                    ≡ filter (is_type_of q) s.document_types)
                  × ((delete_all_for_project p s).1.categories ≡ s.categories))))
unfolding delete_all_for_project
delete_all_for_project-clears p q s ne assigned own = (
  remain-clears p s.document_types s.documents assigned,
  (
    types_gone p s.document_types s.document_types,
    (
      remain-keeps p s.document_types q s.documents ne own,
      (types_kept p s.document_types q s.document_types ne, refl),
    ),
  ),
)
