-- ===== src/Chunking/Toc/Parents.antt =====
-- How the dict of children and the dict of parents change together.
use spark_workflow_main.Common.{
  ℕ, ◌≡◌, refl, inl, inr, true, ◌&&◌, ◌||◌, List, [], ◌∷◌, ◌++◌, Bool-cases, if◌then◌else◌, arith,
}
use spark_workflow_main.Common.Eq.{text_is, Eq, list_eq, nat_eq, elem, beq_refl, ◌==◌ as ◌=?◌}
use spark_workflow_main.Common.Dict.{Dict, contains, update, lookup-insert, lookup-update}
use spark_workflow_main.Common.Text.{Text}
use spark_workflow_main.Chunking.Toc.{
  Header, Contents, with_key, with_child, add_under, children_of,
}

children-with_key :
    (key title : Text) (toc : Dict Text (List Text))
    → children_of (with_key key toc) title ≡ children_of toc title
children-with_key key title toc =
    ground (arith, lookup-insert key title [] toc, Eq.same_iff (list_eq {A = ℕ}) title key)

elem-append : (x y : Text) (xs : List Text) → elem x (xs ++ y ∷ []) ≡ (elem x xs || (x =? y))
elem-append x y [] = ground arith
elem-append x y (z ∷ xs) = ground (arith, elem-append x y xs)

elem-with_child :
    (x title : Text) (children : List Text)
    → elem x (with_child title children) ≡ (elem x children || (x =? title))
elem-with_child x title children = elim (Bool-cases (elem title children)) [
  | inr new ↦ rw new (elem-append x title children)
  | inl known ↦ rw known (elim (Bool-cases (x =? title)) [
    | inr other ↦ ground (arith, other)
    | inl same ↦ ground (arith, same, known, text_is x title same)
  ])
]

children-update :
    (key title : Text) (f : List Text → List Text) (toc : Dict Text (List Text))
    → contains key toc ≡ true
    → children_of (update key f toc) title
      ≡ (if title =? key then f (children_of toc key) else children_of toc title)
children-update key title f toc there = ground (arith, lookup-update key title f toc, there)

contains-with_key :
    (key : Text) (toc : Dict Text (List Text)) → contains key (with_key key toc) ≡ true
contains-with_key key toc = ground (arith, lookup-insert key key [] toc, beq_refl key)

-- Adding a header makes it a child of its parent, and adds no other child to any title.
pub elem-add_under :
    (parent title : Text) (lineage : List Header) (s : Contents) (header : Header) (x key : Text)
    → elem x (children_of (add_under parent title lineage s header).toc key)
      ≡ (elem x (children_of s.toc key) || ((key =? parent) && (x =? title)))
elem-add_under parent title lineage s header x key =
    let opened = with_key parent s.toc in
    rw
      (
        children-with_key title key (update parent (with_child title) opened),
        children-update parent key (with_child title) opened (contains-with_key parent s.toc),
        children-with_key parent parent s.toc,
        children-with_key parent key s.toc,
      )
      (elim (Bool-cases (key =? parent)) [
        | inr other ↦ ground (arith, other)
        | inl same ↦
            rw (same, elem-with_child x title (children_of s.toc parent), text_is key parent same)
              refl
      ])
