-- ===== src/Fcs/Templates/Registration.antt =====
-- A registration lasts: the project type that was registered first decides from then on.
use spark_workflow_main.Common.{
  ℕ, ◌≡◌, refl, sym, ap, ◌∙◌, subst, Bool, true, false, Option, none, some, List, [], ◌∷◌, ◌++◌,
  ==_refl, filter, arith, Bool-cases, inl, inr,
}
use spark_workflow_main.Common.Database.{
  Result, ok, raised, any, Result-cases, ok_inj, raised_absurd, integrity_error,
}
use spark_workflow_main.Fcs.Templates.{
  Templates, PlsAnswer, TemplateDocumentTypeResponse, version_of, registered, offers,
  after_conflict, register_project, fetch_project_type_id, Order, listed,
  get_template_document_types,
}

filter-any_none :
    {A : Type 0} (q : A → Bool) (xs : List A) (x : A)
    → any q xs ≡ false
    → q x ≡ true
    → filter q (xs ++ x ∷ []) ≡ x ∷ []
filter-any_none q [] x h holds = rw holds refl
filter-any_none q (y ∷ xs) x h holds = elim (Bool-cases (q y)) [
  | inl here ↦ ground arith
  | inr other ↦ rw other (filter-any_none q xs x (ground arith) holds)
]

registered_append :
    (p t : ℕ) (s : Templates)
    → any (version_of p) s.versions ≡ false
    → registered p (record s {
      versions = s.versions ++ record { project_id = p; project_type_id = some t } ∷ [];
    })
      ≡ ok (some t)
unfolding registered
registered_append p t s h =
    rw
      (filter-any_none (version_of p) s.versions
        (record { project_id = p; project_type_id = some t }) h (==_refl p))
      refl

conflict_result :
    (existing : Option ℕ) (s : Templates) (r : ℕ × Templates)
    → (elim existing as (λ _. Result (ℕ × Templates)) [
      | none ↦ raised integrity_error
      | some first ↦ ok (first, s)
    ])
      ≡ ok r
    → (existing ≡ some r.0) × (s ≡ r.1)
conflict_result none s r h = raised_absurd h
conflict_result (some first) s r h = (ap (λ x. some x.0) (ok_inj h), ap (λ x. x.1) (ok_inj h))

after_conflict-registered :
    (p : ℕ) (s : Templates) (r : ℕ × Templates)
    → after_conflict p s ≡ ok r
    → registered p r.1 ≡ ok (some r.0)
unfolding after_conflict
after_conflict-registered p s r h = elim (Result-cases (registered p s)) [
  | inl (e, failed) ↦ raised_absurd (rw failed at h)
  | inr (existing, found) ↦
      let (same, store) = conflict_result existing s r (rw found at h) in
      subst (λ x. registered p x ≡ ok (some r.0)) store (found ∙ ap ok same)
]

register_project-registered :
    (p t : ℕ) (s m : Templates) (r : ℕ × Templates)
    → register_project p t s m ≡ ok r
    → registered p r.1 ≡ ok (some r.0)
unfolding register_project
register_project-registered p t s m r h = elim (Bool-cases (any (offers t) s.template_categories)) [
  | inr none_left ↦ raised_absurd (rw (none_left, register_project) at h)
  | inl some_left ↦ elim (Bool-cases (any (version_of p) m.versions)) [
    | inl there ↦ after_conflict-registered p m r (rw (some_left, there, register_project) at h)
    | inr free ↦
        subst (λ x. registered p x.1 ≡ ok (some x.0))
          (ok_inj (rw (some_left, free, register_project) at h)) (registered_append p t m free)
  ]
]

-- What a request leaves behind: a registered type, whose templates it has listed.
module _ (name_order : Order) (p : ℕ) where
  get-registered :
      (pls : Option (ℕ → PlsAnswer)) (others : Templates → Templates) (s : Templates)
      (r : List TemplateDocumentTypeResponse × Templates)
      → get_template_document_types name_order pls others p s ≡ ok r
      → (t : ℕ) × ((registered p r.1 ≡ ok (some t)) × (r.0 ≡ listed name_order t r.1))
  unfolding get_template_document_types
  get-registered pls others s r h = elim (Result-cases (registered p s)) [
    | inl (e, failed) ↦ raised_absurd (rw failed at h)
    | inr (some t, found) ↦
        subst (λ x. (t : ℕ) × ((registered p x.1 ≡ ok (some t)) × (x.0 ≡ listed name_order t x.1)))
          (ok_inj (rw found at h)) (t, (found, refl))
    | inr (none, found) ↦ elim (Result-cases (fetch_project_type_id pls p)) [
      | inl (e, failed) ↦ raised_absurd (rw (found, failed) at h)
      | inr (fetched, answered) ↦ elim (Result-cases (register_project p fetched s (others s))) [
        | inl (e, failed) ↦ raised_absurd (rw (found, answered, failed) at h)
        | inr (done, made) ↦
            subst
              (λ x. (t : ℕ) × ((registered p x.1 ≡ ok (some t)) × (x.0 ≡ listed name_order t x.1)))
              (ok_inj (rw (found, answered, made) at h))
              (done.0, (register_project-registered p fetched s (others s) done made, refl))
      ]
    ]
  ]

-- Once get_template_document_types has answered for a project, also where another request has won
-- the race to register it, the same call on the store that it leaves gives the same list and
-- changes nothing, whatever the project logic service answers by then and whatever other requests
-- would commit meanwhile.
pub get_template_document_types_lasting :
    (name_order : Order) (p : ℕ) (pls later : Option (ℕ → PlsAnswer))
    (others meanwhile : Templates → Templates) (s : Templates)
    (r : List TemplateDocumentTypeResponse × Templates)
    → get_template_document_types name_order pls others p s ≡ ok r
    → get_template_document_types name_order later meanwhile p r.1 ≡ ok r
unfolding get_template_document_types
get_template_document_types_lasting name_order p pls later others meanwhile s r h =
    let (t, (known, same)) = get-registered name_order p pls others s r h in
    rw known (ap (λ l. ok (l, r.1)) (sym same))
