-- ===== src/Fcs/Results/Cascade.antt =====
-- What the foreign keys make go with the document types of a project.
use spark_workflow_main.Common.{
  ℕ, ◌≡◌, ◌≢◌, refl, sym, Bool, true, false, ◌&&◌, Option, none, some, List, [], ◌∷◌, map, All,
  ◌==◌, filter, arith, Bool-cases, inl, inr,
}
use spark_workflow_main.Common.Database.{any, is_none}
use spark_workflow_main.Fcs.{DocumentType, Document}
use spark_workflow_main.Fcs.Tables.{is_id, type_exists, cleared}
use spark_workflow_main.Fcs.Results.{is_type_of}

-- The foreign key of a document to the type that it is assigned to.
abbrev pub IsAssigned : List DocumentType → Document → Type 0
IsAssigned types d = type_exists d.project_id d.ai_suggested_required_document_type_id types ≡ true

-- A user's assignment leads to no type of another project.
abbrev pub IsOwnHuman : List DocumentType → Document → Type 0
IsOwnHuman types d =
    All (λ t. is_id t.id d.human_required_document_type_id ≡ true → t.project_id ≡ d.project_id)
      types

abbrev pub of_project : ℕ → Document → Bool
of_project project_id d = d.project_id == project_id

pub All-filter {ℓ} :
    {A : Type ℓ} (P Q : A → Type 0) (q : A → Bool) (xs : List A)
    → ((x : A) → P x → q x ≡ true → Q x)
    → All P xs
    → All Q (filter q xs)
All-filter P Q q [] f h = tt
All-filter P Q q (x ∷ xs) f h = elim (Bool-cases (q x)) [
  | inl holds ↦ rw holds (f x h.0 holds, All-filter P Q q xs f h.1)
  | inr fails ↦ rw fails (All-filter P Q q xs f h.1)
]

pub All-map {ℓ} :
    {A : Type ℓ} (P Q : A → Type 0) (f : A → A) (xs : List A)
    → ((x : A) → P x → Q (f x))
    → All P xs
    → All Q (map f xs)
All-map P Q f [] k h = tt
All-map P Q f (x ∷ xs) k h = (k x h.0, All-map P Q f xs k h.1)

pub any_gone :
    (p id : ℕ) (types : List DocumentType)
    → any (λ row. (row.id == id) && (row.project_id == p)) types ≡ true
    → any (λ row. (row.id == id) && (row.project_id == p)) (filter (is_type_of p) types) ≡ true
any_gone p id [] h = h
any_gone p id (t ∷ types) h = ground (arith, any_gone p id types)

pub any_other :
    (p q id : ℕ) (types : List DocumentType)
    → q ≢ p
    → any (λ row. (row.id == id) && (row.project_id == q)) (filter (is_type_of p) types) ≡ false
any_other p q id [] ne = refl
any_other p q id (t ∷ types) ne = ground (arith, any_other p q id types ne)

pub human_kept :
    (p q : ℕ) (types : List DocumentType) (human : Option ℕ)
    → q ≢ p
    → All (λ t. is_id t.id human ≡ true → t.project_id ≡ q) types
    → cleared (filter (is_type_of p) types) human ≡ human
human_kept p q types none ne h = refl
human_kept p q [] (some id) ne h = refl
human_kept p q (t ∷ types) (some id) ne h =
    ground (arith, human_kept p q types (some id) ne h.1, h.0)

abbrev pub cascade_test : List DocumentType → ℕ → Option ℕ → Bool
cascade_test gone q ai = elim ai [
  | none ↦ false
  | some id ↦ any (λ row. (row.id == id) && (row.project_id == q)) gone
]

pub cascade_own :
    (p : ℕ) (types : List DocumentType) (ai : Option ℕ)
    → type_exists p ai types ≡ true
    → is_none ai ≡ false
    → cascade_test (filter (is_type_of p) types) p ai ≡ true
cascade_own p types none h assigned = sym assigned
cascade_own p types (some id) h assigned = any_gone p id types h

pub cascade_other :
    (p q : ℕ) (types : List DocumentType) (ai : Option ℕ)
    → q ≢ p
    → cascade_test (filter (is_type_of p) types) q ai ≡ false
cascade_other p q types none ne = refl
cascade_other p q types (some id) ne = any_other p q id types ne
