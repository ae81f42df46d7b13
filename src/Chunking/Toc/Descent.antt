-- ===== src/Chunking/Toc/Descent.antt =====
-- The walks over the contents: down to all descendants, and up to the root.
use spark_workflow_main.Common.{
  ℕ, zero, suc, ◌+◌, ◌≤◌, ◌<◌, ◌≡◌, refl, sym, subst, inl, inr, true, Option, some, List, [], ◌∷◌,
  ◌++◌, All, Bool-cases, Option-cases, arith,
}
use spark_workflow_main.Common.Eq.{text_is, list_eq, nat_eq, elem, beq_refl, ◌==◌ as ◌=?◌}
use spark_workflow_main.Common.Dict.{Dict}
use spark_workflow_main.Common.Text.{Text}
use spark_workflow_main.Chunking.Toc.{children_of, descend, get_all_descendants}

pub elem_first : (x : Text) (xs : List Text) → elem x (x ∷ xs) ≡ true
elem_first x xs = rw (beq_refl x) refl

pub elem_later : (x y : Text) (xs : List Text) → elem x xs ≡ true → elem x (y ∷ xs) ≡ true
elem_later x y xs h = ground (arith, h)

elem_left : (x : Text) (xs ys : List Text) → elem x xs ≡ true → elem x (xs ++ ys) ≡ true
elem_left x [] ys h = ground (arith, h)
elem_left x (y ∷ xs) ys h = ground (arith, h, elem_left x xs ys)

elem_right : (x : Text) (xs ys : List Text) → elem x ys ≡ true → elem x (xs ++ ys) ≡ true
elem_right x [] ys h = h
elem_right x (y ∷ xs) ys h = ground (arith, elem_right x xs ys h)

All-map : {P Q : Text → Type 0} (xs : List Text) → ((x : Text) → P x → Q x) → All P xs → All Q xs
All-map [] f h = tt
All-map (x ∷ xs) f h = (f x h.0, All-map xs f h.1)

descend_total :
    (again : Text → Option (List Text)) (children : List Text)
    → ((child : Text) → elem child children ≡ true → (l : List Text) × (again child ≡ some l))
    → (l : List Text) × (descend again children ≡ some l)
unfolding descend
descend_total again [] h = ([], refl)
descend_total again (child ∷ children) h =
    let below = h child (elem_first child children) in
    let rest = descend_total again children (λ c there. h c (elem_later c child children there)) in
    (child ∷ (below.0 ++ rest.0), rw (below.1, rest.1) refl)

descend_parts :
    (again : Text → Option (List Text)) (first : Text) (children l : List Text)
    → descend again (first ∷ children) ≡ some l
    → (below : List Text) × ((rest : List Text) × ((again first ≡ some below)
          × ((descend again children ≡ some rest) × (first ∷ (below ++ rest) ≡ l))))
unfolding descend
descend_parts again first children l h = elim (Option-cases (again first)) [
  | inl failed ↦ ground (arith, h, failed)
  | inr (below, found) ↦ elim (Option-cases (descend again children)) [
    | inl failed ↦ ground (arith, h, found, failed)
    | inr (rest, others) ↦ (below, (rest, (found, (others, ground (arith, h, found, others)))))
  ]
]

-- What is listed below a child, and the child, is listed.
descend_holds :
    (again : Text → Option (List Text)) (children l : List Text) (child : Text)
    → descend again children ≡ some l
    → elem child children ≡ true
    → (below : List Text) × ((again child ≡ some below)
        × ((elem child l ≡ true) × ((x : Text) → elem x below ≡ true → elem x l ≡ true)))
descend_holds again [] l child h there = absurd (ground (arith, there))
descend_holds again (first ∷ children) l child h there =
    let (below, (rest, (found, (others, whole)))) = descend_parts again first children l h in
    elim (Bool-cases (child =? first)) [
      | inl same ↦ (
        below,
        (
          subst (λ c. again c ≡ some below) (sym (text_is child first same)) found,
          (
            subst (λ m. elem child m ≡ true) whole (rw same refl),
            λ x listed.
                subst (λ m. elem x m ≡ true) whole
                  (elem_later x first (below ++ rest) (elem_left x below rest listed)),
          ),
        ),
      )
      | inr other ↦
          let later =
            descend_holds again children rest child others (ground (arith, there, other)) in
          (
            later.0,
            (
              later.1.0,
              (
                subst (λ m. elem child m ≡ true) whole
                    (elem_later child first (below ++ rest)
                      (elem_right child below rest later.1.1.0)),
                λ x listed.
                    subst (λ m. elem x m ≡ true) whole
                      (elem_later x first (below ++ rest)
                        (elem_right x below rest (later.1.1.1 x listed))),
              ),
            ),
          )
    ]

module _ (toc : Dict Text (List Text)) where
  -- Each title of the path is a child of the one before it.
  abbrev pub IsChain : Text → List Text → Type 0
  IsChain top [] = Unit
  IsChain top (title ∷ path) = (elem title (children_of toc top) ≡ true) × IsChain title path

  pub chain-descendants :
      (fuel : ℕ) (top : Text) (path below : List Text)
      → get_all_descendants fuel toc top ≡ some below
      → IsChain top path
      → All (λ title. elem title below ≡ true) path
  unfolding get_all_descendants
  chain-descendants fuel top [] below h chain = tt
  chain-descendants zero top (title ∷ path) below h chain = absurd (ground (arith, h))
  chain-descendants (suc fuel) top (title ∷ path) below h chain =
      let (listed, (again, (there, inside))) =
        descend_holds (get_all_descendants fuel toc) (children_of toc top) below title h chain.0 in
      (there, All-map path inside (chain-descendants fuel title path listed again chain.1))

  module _ (rank : Text → ℕ) (max_level : ℕ)
      (deeper : (key child : Text)
        → elem child (children_of toc key) ≡ true
        → (rank key < rank child) × (rank child ≤ max_level)) where
    pub descendants_total :
        (fuel : ℕ) (title : Text)
        → 0 < fuel
        → max_level < fuel + rank title
        → (l : List Text) × (get_all_descendants fuel toc title ≡ some l)
    unfolding get_all_descendants
    descendants_total zero title positive enough = absurd (omega arith)
    descendants_total (suc fuel) title positive enough =
        descend_total (get_all_descendants fuel toc) (children_of toc title) (λ child there.
          let below = deeper title child there in
          descendants_total fuel child (omega (arith, below)) (omega (arith, below)))
