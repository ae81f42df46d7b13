-- ===== src/ShaDiff/Membership.antt =====
-- Membership in sorted, filtered and collected lists of names.
use spark_workflow_main.Common.{
  ◌≡◌, refl, ap, subst, ◌∙◌, inl, inr, Bool, true, ◌&&◌, ◌||◌, Option, some, List, [], ◌∷◌, map,
  filter, Bool-cases, Option-cases, arith,
}
use spark_workflow_main.Common.Eq.{text_is, list_eq, nat_eq, elem, beq_refl, ◌==◌ as ◌=?◌}
use spark_workflow_main.Common.Dict.{Dict, keys, lookup, contains}
use spark_workflow_main.Common.Sort.{sorted, insert_sorted}
use spark_workflow_main.Common.Text.{Text}
use spark_workflow_main.ShaDiff.{text_leb}
use spark_workflow_main.ShaDiff.Diff.{collect_for}

elem-insert_sorted :
    (x y : Text) (l : List Text) → elem x (insert_sorted text_leb y l) ≡ ((x =? y) || elem x l)
elem-insert_sorted x y [] = refl
elem-insert_sorted x y (z ∷ l) = elim (Bool-cases (text_leb y z)) [
  | inl first ↦ rw first refl
  | inr later ↦ rw (later, elem-insert_sorted x y l) (ground arith)
]

pub elem-sorted : (x : Text) (l : List Text) → elem x (sorted text_leb l) ≡ elem x l
elem-sorted x [] = refl
elem-sorted x (y ∷ l) =
    elem-insert_sorted x y (sorted text_leb l) ∙ ap (λ b. (x =? y) || b) (elem-sorted x l)

pub elem-filter :
    (x : Text) (p : Text → Bool) (l : List Text) → elem x (filter p l) ≡ (elem x l && p x)
elem-filter x p [] = refl
elem-filter x p (y ∷ l) = elim (Bool-cases (x =? y)) [
  | inl same ↦
      subst (λ z. elem x (filter p (z ∷ l)) ≡ (elem x (z ∷ l) && p x)) (text_is x y same)
        (ground (arith, beq_refl x, elem-filter x p l))
  | inr other ↦ ground (arith, other, elem-filter x p l)
]

pub elem-keys : {V : Type 0} (x : Text) (d : Dict Text V) → elem x (keys d) ≡ contains x d
elem-keys x [] = refl
elem-keys x ((k, v) ∷ d) = ground (arith, elem-keys x d)

pub present :
    {V : Type 0} (x : Text) (d : Dict Text V)
    → contains x d ≡ true
    → (v : V) × (lookup x d ≡ some v)
present x d h = elim (Option-cases (lookup x d)) [
  | inl missing ↦ ground (arith, h, missing)
  | inr found ↦ found
]

pub collect_for_total :
    {A : Type 0} (f : Text → Option A) (name_of : A → Text) (names : List Text)
    → ((name : Text) → elem name names ≡ true → (a : A) × ((f name ≡ some a) × (name_of a ≡ name)))
    → (l : List A) × ((collect_for f names ≡ some l) × (map name_of l ≡ names))
collect_for_total f name_of [] h = ([], (refl, refl))
collect_for_total f name_of (name ∷ names) h =
    let (a, (found, named)) = h name (rw (beq_refl name) refl) in
    let (l, (rest, others)) =
      collect_for_total f name_of names (λ n there. h n (ground (arith, there))) in
    (a ∷ l, (rw (found, rest) refl, rw (named, others) refl))
