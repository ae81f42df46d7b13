-- ===== src/Fcs/Types/Recreated.antt =====
-- A deleted type keeps its name: uq_document_type_project_name covers the rows that are marked.
use spark_workflow_main.Common.{
  ℕ, suc, ◌≡◌, refl, subst, Bool, true, ◌&&◌, none, some, List, [], ◌∷◌, ◌==◌, filter, arith,
  Bool-cases, inl, inr,
}
use spark_workflow_main.Common.Eq.{list_eq, nat_eq, beq_refl}
use spark_workflow_main.Common.Text.{Text}
use spark_workflow_main.Common.Database.{
  first_found, Error, ok, raised, one_or_none, integrity_error, update_where, any, Result-cases,
  raised_absurd, ok_inj,
}
use spark_workflow_main.Fcs.{DocumentType, Store}
use spark_workflow_main.Fcs.Tables.{type_clash, insert_type, same_text}
use spark_workflow_main.Fcs.Types.{
  is_live, find_live, mark_deleted, release, delete_custom_document_type, get_custom_category,
  create_custom_document_type, custom_type, is_custom,
}
use spark_workflow_main.Fcs.Types.Deleted.{guarded}

abbrev is_named : ℕ → Text → DocumentType → Bool
is_named p name t = (p == t.project_id) && same_text name t.name

named_there :
    (p id : ℕ) (types : List DocumentType) (t : DocumentType)
    → one_or_none (filter (is_live p id) types) ≡ ok (some t)
    → any (is_named p t.name) types ≡ true
named_there p id [] t h = cc
named_there p id (u ∷ types) t h = elim (Bool-cases (is_live p id u)) [
  | inr other ↦ let rest = named_there p id types t (rw other at h) in ground arith
  | inl live ↦
      let same : u ≡ t = first_found u t (filter (is_live p id) types) (rw live at h) in
      let name : same_text t.name u.name ≡ true =
        subst (λ x. same_text x.name u.name ≡ true) same (beq_refl u.name) in
      let own : (p == u.project_id) ≡ true = ground arith in ground arith
]

named_kept :
    (p id : ℕ) (name : Text) (types : List DocumentType)
    → any (is_named p name) types ≡ true
    → any (is_named p name) (update_where (λ u. u.id == id) mark_deleted types) ≡ true
named_kept p id name [] h = h
named_kept p id name (u ∷ types) h = ground (arith, named_kept p id name types)

named_clash :
    (new : DocumentType) (types : List DocumentType)
    → any (is_named new.project_id new.name) types ≡ true
    → any (type_clash new) types ≡ true
named_clash new [] h = h
named_clash new (u ∷ types) h = ground (arith, named_clash new types)

insert_type-clash :
    (new : DocumentType) (s : Store)
    → any (type_clash new) s.document_types ≡ true
    → insert_type new s ≡ raised integrity_error
unfolding insert_type
insert_type-clash new s h = rw h refl

found_row :
    (p id : ℕ) (s : Store) (t : DocumentType)
    → find_live p id s ≡ ok t
    → one_or_none (filter (is_live p id) s.document_types) ≡ ok (some t)
unfolding find_live
found_row p id s t h = elim (Result-cases (one_or_none (filter (is_live p id) s.document_types))) [
  | inl (e, failed) ↦ raised_absurd (rw failed at h)
  | inr (none, found) ↦ raised_absurd (rw found at h)
  | inr (some row, found) ↦
      subst (λ r. one_or_none (filter (is_live p id) s.document_types) ≡ ok (some r))
        (ok_inj (rw found at h)) found
]

-- Where a row of the project has the name, deleted or not, no custom type of that name is made.
create-name_taken :
    (uuid4 now : ℕ → ℕ) (p : ℕ) (name : Text) (s : Store)
    → any (is_named p name) s.document_types ≡ true
    → (e : Error) × (create_custom_document_type uuid4 now p name s ≡ raised e)
unfolding create_custom_document_type
create-name_taken uuid4 now p name s h = elim (Result-cases (get_custom_category p s)) [
  | inl (e, failed) ↦ (e, rw failed refl)
  | inr (category, found) ↦
      let new = custom_type uuid4 now p category.id name s.drawn in
      let clash = named_clash new s.document_types h in
      (
        integrity_error,
        rw (found, insert_type-clash new (record s { drawn = suc s.drawn }) clash) refl,
      )
]

-- After delete_custom_document_type has deleted a type of the project, create_custom_document_type
-- raises for a type of the same name in the project, whatever UUIDs and times are given out.
pub create_custom_document_type-deleted :
    (uuid4 now : ℕ → ℕ) (p id : ℕ) (s after : Store) (t : DocumentType)
    → find_live p id s ≡ ok t
    → delete_custom_document_type p id s ≡ ok after
    → (e : Error) × (create_custom_document_type uuid4 now p t.name after ≡ raised e)
unfolding delete_custom_document_type
create_custom_document_type-deleted uuid4 now p id s after t found h =
    subst (λ x. (e : Error) × (create_custom_document_type uuid4 now p t.name x ≡ raised e))
      (guarded (is_custom t.origin) (release p id t s) after (rw found at h))
      (create-name_taken uuid4 now p t.name (release p id t s) (
        named_kept p t.id t.name s.document_types
          (named_there p id s.document_types t (found_row p id s t found))))
