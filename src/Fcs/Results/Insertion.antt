-- ===== src/Fcs/Results/Insertion.antt =====
-- The results of one project are inserted beside those of the others.
use spark_workflow_main.Common.{
  ℕ, suc, ◌≡◌, refl, ap, ◌∙◌, Bool, false, Option, none, some, List, [], ◌∷◌, ◌++◌, ◌==◌, filter,
  Bool-cases, Option-cases, inl, inr,
}
use spark_workflow_main.Common.Eq.{list_eq, nat_eq}
use spark_workflow_main.Common.Text.{Text}
use spark_workflow_main.Common.Dict.{Dict, contains, insert}
use spark_workflow_main.Common.Database.{
  Result, ok, raised, ◌>>=◌, one_or_none, integrity_error, AllOk, AllOk-bind, AllOk-if, AllOk-map,
}
use spark_workflow_main.Fcs.{
  Category, DocumentType, Document, Store, AssignedDocument, MatchedDocumentTypeOutput,
  FormalCompletenessCheckResults,
}
use spark_workflow_main.Fcs.Tables.{insert_category, insert_type, insert_document}
use spark_workflow_main.Fcs.Results.{
  is_type_of, truthy, category_of_name, use_or_make, get_or_create, cache_category,
  cache_categories, document_of, insert_documents, type_of, insert_types, bulk_insert_results,
  custom_category_name,
}
use spark_workflow_main.Fcs.Results.Cascade.{of_project}

abbrev pub is_category_of : ℕ → Category → Bool
is_category_of project_id c = c.project_id == project_id

-- Two stores with the same rows of a project.
abbrev pub IsSame : ℕ → Store → Store → Type 0
IsSame q s after =
    (filter (of_project q) after.documents ≡ filter (of_project q) s.documents)
    × ((filter (is_type_of q) after.document_types ≡ filter (is_type_of q) s.document_types)
        × (filter (is_category_of q) after.categories ≡ filter (is_category_of q) s.categories))

pub IsSame-trans : (q : ℕ) (s t u : Store) → IsSame q s t → IsSame q t u → IsSame q s u
IsSame-trans q s t u h k = (k.0 ∙ h.0, (k.1.0 ∙ h.1.0, k.1.1 ∙ h.1.1))

filter_appended :
    {A : Type 0} (p : A → Bool) (xs : List A) (x : A)
    → p x ≡ false
    → filter p (xs ++ x ∷ []) ≡ filter p xs
filter_appended p [] x h = rw h refl
filter_appended p (y ∷ xs) x h = elim (Bool-cases (p y)) [
  | inl holds ↦ rw holds (ap (λ l. y ∷ l) (filter_appended p xs x h))
  | inr fails ↦ rw fails (filter_appended p xs x h)
]

insert_document-IsSame :
    (q : ℕ) (new : Document) (s : Store)
    → (new.project_id == q) ≡ false
    → AllOk (IsSame q s) (insert_document new s)
unfolding insert_document
insert_document-IsSame q new s other =
    AllOk-if (IsSame q s) _ integrity_error (ok (record s { documents = s.documents ++ new ∷ [] }))
      (filter_appended (of_project q) s.documents new other, (refl, refl))

insert_type-IsSame :
    (q : ℕ) (new : DocumentType) (s : Store)
    → (new.project_id == q) ≡ false
    → AllOk (IsSame q s) (insert_type new s)
unfolding insert_type
insert_type-IsSame q new s other =
    AllOk-if (IsSame q s) _ integrity_error
      (ok (record s { document_types = s.document_types ++ new ∷ [] }))
      (refl, (filter_appended (is_type_of q) s.document_types new other, refl))

insert_category-IsSame :
    (q : ℕ) (new : Category) (s : Store)
    → (new.project_id == q) ≡ false
    → AllOk (IsSame q s) (insert_category new s)
unfolding insert_category
insert_category-IsSame q new s other =
    AllOk-if (IsSame q s) _ integrity_error
      (ok (record s { categories = s.categories ++ new ∷ [] }))
      (refl, (refl, filter_appended (is_category_of q) s.categories new other))

-- Two steps one after the other, each with a store in what it gives.
module _ {A B : Type 0} (q : ℕ) (of_a : A → Store) (of_b : B → Store) where
  chain :
      (s : Store) (r : Result A) (f : A → Result B)
      → AllOk (λ a. IsSame q s (of_a a)) r
      → ((a : A) → AllOk (λ b. IsSame q (of_a a) (of_b b)) (f a))
      → AllOk (λ b. IsSame q s (of_b b)) (r >>= f)
  chain s r f h k =
      AllOk-bind (λ a. IsSame q s (of_a a)) (λ b. IsSame q s (of_b b)) r f h
        (λ a first.
          AllOk-map (λ b. IsSame q (of_a a) (of_b b)) (λ b. IsSame q s (of_b b)) (f a)
            (λ b second. IsSame-trans q s (of_a a) (of_b b) first second) (k a))

abbrev itself : Store → Store
itself s = s

abbrev snd : {A : Type 0} → A × Store → Store
snd r = r.1

anything : {A : Type 0} (r : Result A) → AllOk (λ (_ : A). Unit {0}) r
anything (ok a) = tt
anything (raised e) = tt

module _ (uuid4 now : ℕ → ℕ) (p q : ℕ) (other : (p == q) ≡ false) where
  insert_documents-IsSame :
      (type_id : Option ℕ) (docs : List AssignedDocument) (s : Store)
      → AllOk (IsSame q s) (insert_documents uuid4 now p type_id docs s)
  unfolding insert_documents
  insert_documents-IsSame type_id [] s = (refl, (refl, refl))
  insert_documents-IsSame type_id (d ∷ docs) s =
      let drawn : Store = record s { drawn = suc s.drawn } in
      let new = document_of uuid4 now p type_id d (uuid4 s.drawn) in
      chain q itself itself s (insert_document new drawn)
        (λ next. insert_documents uuid4 now p type_id docs next)
        (insert_document-IsSame q new drawn other) (insert_documents-IsSame type_id docs)

  insert_types-IsSame :
      (cache : Dict Text ℕ) (matched : List MatchedDocumentTypeOutput) (s : Store)
      → AllOk (IsSame q s) (insert_types uuid4 now p cache matched s)
  unfolding insert_types
  insert_types-IsSame cache [] s = (refl, (refl, refl))
  insert_types-IsSame cache (m ∷ rest) s =
      let drawn : Store = record s { drawn = suc s.drawn } in
      let new = type_of uuid4 now p cache m s.drawn in
      chain q itself itself s (insert_type new drawn)
        (λ made.
          insert_documents uuid4 now p (some new.id) m.assigned_documents made
          >>= insert_types uuid4 now p cache rest)
        (insert_type-IsSame q new drawn other)
        (λ made.
          chain q itself itself made
            (insert_documents uuid4 now p (some new.id) m.assigned_documents made)
            (insert_types uuid4 now p cache rest)
            (insert_documents-IsSame (some new.id) m.assigned_documents made)
            (insert_types-IsSame cache rest))

  use_or_make-IsSame :
      (name : Text) (s : Store) (found : Option Category)
      → AllOk (λ (r : ℕ × Store). IsSame q s r.1) (use_or_make uuid4 now p name s found)
  use_or_make-IsSame name s (some category) = (refl, (refl, refl))
  use_or_make-IsSame name s none =
      let drawn : Store = record s { drawn = suc s.drawn } in
      let new : Category = record { id = uuid4 s.drawn; project_id = p; name = name } in
      chain q itself snd s (insert_category new drawn) (λ made. ok (new.id, made))
        (insert_category-IsSame q new drawn other) (λ made. (refl, (refl, refl)))

  get_or_create-IsSame :
      (name : Text) (s : Store)
      → AllOk (λ (r : ℕ × Store). IsSame q s r.1) (get_or_create uuid4 now p name s)
  unfolding get_or_create
  get_or_create-IsSame name s =
      let query = one_or_none (filter (category_of_name p name) s.categories) in
      AllOk-bind (λ (_ : Option Category). Unit {0}) (λ (r : ℕ × Store). IsSame q s r.1) query
        (use_or_make uuid4 now p name s) (anything query)
        (λ found _. use_or_make-IsSame name s found)

  cache_category-IsSame :
      (name : Text) (cache : Dict Text ℕ) (s : Store)
      → AllOk (λ r. IsSame q s r.1) (cache_category uuid4 now p name cache s)
  unfolding cache_category
  cache_category-IsSame name cache s = elim (Bool-cases (contains name cache)) [
    | inl known ↦ rw known (refl, (refl, refl))
    | inr fresh ↦ rw fresh (
        chain q snd snd s (get_or_create uuid4 now p name s)
          (λ found. ok (insert name found.0 cache, found.1)) (get_or_create-IsSame name s)
          (λ found. (refl, (refl, refl))))
  ]

  cache_categories-IsSame :
      (matched : List MatchedDocumentTypeOutput) (cache : Dict Text ℕ) (s : Store)
      → AllOk (λ r. IsSame q s r.1) (cache_categories uuid4 now p matched cache s)
  unfolding cache_categories
  cache_categories-IsSame [] cache s = (refl, (refl, refl))
  cache_categories-IsSame (m ∷ rest) cache s =
      elim (Option-cases (truthy m.required_document_type.category)) [
        | inl nameless ↦
            rw (nameless, AllOk, cache_categories) (cache_categories-IsSame rest cache s)
        | inr (name, named) ↦
            rw (named, AllOk, cache_categories)
              (chain q snd snd s (cache_category uuid4 now p name cache s)
                (λ found. cache_categories uuid4 now p rest found.0 found.1)
                (cache_category-IsSame name cache s)
                (λ found. cache_categories-IsSame rest found.0 found.1))
      ]

  pub bulk_insert_results-IsSame :
      (results : FormalCompletenessCheckResults) (s : Store)
      → AllOk (IsSame q s) (bulk_insert_results uuid4 now p results s)
  unfolding bulk_insert_results
  bulk_insert_results-IsSame results s =
      chain q snd itself s (cache_categories uuid4 now p results.matched_document_types [] s)
        (λ cached. cache_category uuid4 now p custom_category_name cached.0 cached.1 >>= λ resolved.
          insert_types uuid4 now p resolved.0 results.matched_document_types resolved.1
          >>= insert_documents uuid4 now p none results.unassigned_documents)
        (cache_categories-IsSame results.matched_document_types [] s)
        (λ cached.
          chain q snd itself cached.1
            (cache_category uuid4 now p custom_category_name cached.0 cached.1)
            (λ resolved.
              insert_types uuid4 now p resolved.0 results.matched_document_types resolved.1
              >>= insert_documents uuid4 now p none results.unassigned_documents)
            (cache_category-IsSame custom_category_name cached.0 cached.1)
            (λ resolved.
              chain q itself itself resolved.1
                (insert_types uuid4 now p resolved.0 results.matched_document_types resolved.1)
                (insert_documents uuid4 now p none results.unassigned_documents)
                (insert_types-IsSame resolved.0 results.matched_document_types resolved.1)
                (insert_documents-IsSame none results.unassigned_documents)))
