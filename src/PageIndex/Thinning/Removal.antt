-- ===== src/PageIndex/Thinning/Removal.antt =====
-- The removal of the marked nodes, from the last index to the first.
use spark_workflow_main.Common.{
  ℕ, zero, suc, ◌+◌, ◌<◌, ◌≡◌, refl, sym, ap, ◌∙◌, Bool, false, ◌||◌, ◌==◌, List, [], ◌∷◌, leb, All,
  Bool-cases, inl, inr, if◌then◌else◌, arith,
}
use spark_workflow_main.Common.Eq.{elem, nat_eq}
use spark_workflow_main.Common.Sort.{sorted, insert_sorted}
use spark_workflow_main.PageIndex.{HeaderNode}
use spark_workflow_main.PageIndex.Thinning.{remove_at, remove_all}
use spark_workflow_main.PageIndex.Thinning.Reference.{Masked, drop_marked}

abbrev pub nodes_of : List Masked → List HeaderNode
nodes_of [] = []
nodes_of ((_, node) ∷ ms) = node ∷ nodes_of ms

-- Whether the node at index `i` is marked, where the list begins at index `k`.
abbrev pub marked_from : ℕ → List Masked → ℕ → Bool
marked_from k [] i = false
marked_from k ((marked, _) ∷ ms) i = if i == k then marked else marked_from (k + 1) ms i

marked_from-suc :
    (j k : ℕ) (ms : List Masked) (i : ℕ) → j ≡ suc k → marked_from j ms (suc i) ≡ marked_from k ms i
marked_from-suc j k [] i e = refl
marked_from-suc j k ((marked, node) ∷ ms) i e =
    ground (arith, e, marked_from-suc (j + 1) (k + 1) ms i (omega (arith, e)))

pub marked_from-below : (k : ℕ) (ms : List Masked) (i : ℕ) → i < k → marked_from k ms i ≡ false
marked_from-below k [] i h = refl
marked_from-below k ((marked, node) ∷ ms) i h =
    ground (arith, h, marked_from-below (k + 1) ms i (omega (arith, h)))

abbrev pub down : ℕ → ℕ → Bool
down a b = leb b a

abbrev pub IsDescending : List ℕ → Type 0
IsDescending [] = Unit
IsDescending (i ∷ is) = All (λ j. j < i) is × IsDescending is

abbrev pub AreDistinct : List ℕ → Type 0
AreDistinct [] = Unit
AreDistinct (i ∷ is) = (elem i is ≡ false) × AreDistinct is

pub elem-insert_sorted :
    (i x : ℕ) (l : List ℕ) → elem i (insert_sorted down x l) ≡ ((i == x) || elem i l)
elem-insert_sorted i x [] = refl
elem-insert_sorted i x (y ∷ l) = elim (Bool-cases (leb y x)) [
  | inl first ↦ rw first refl
  | inr later ↦ rw (later, elem-insert_sorted i x l) (ground arith)
]

pub elem-sorted : (i : ℕ) (l : List ℕ) → elem i (sorted down l) ≡ elem i l
elem-sorted i [] = refl
elem-sorted i (x ∷ l) = rw (elem-insert_sorted i x (sorted down l), elem-sorted i l) refl

All-below : (x y : ℕ) (l : List ℕ) → x < y → All (λ j. j < x) l → All (λ j. j < y) l
All-below x y [] lt h = tt
All-below x y (z ∷ l) lt (here, rest) = (omega (arith, lt, here), All-below x y l lt rest)

All-insert_below :
    (x y : ℕ) (l : List ℕ) → x < y → All (λ j. j < y) l → All (λ j. j < y) (insert_sorted down x l)
All-insert_below x y [] lt h = (lt, tt)
All-insert_below x y (z ∷ l) lt (here, rest) = elim (Bool-cases (leb z x)) [
  | inl first ↦ rw first (lt, (here, rest))
  | inr later ↦ rw later (here, All-insert_below x y l lt rest)
]

insert_sorted-IsDescending :
    (x : ℕ) (l : List ℕ) → elem x l ≡ false → IsDescending l → IsDescending (insert_sorted down x l)
insert_sorted-IsDescending x [] new h = (tt, tt)
insert_sorted-IsDescending x (y ∷ l) new (below, rest) = elim (Bool-cases (leb y x)) [
  | inl first ↦
      let lt : y < x = ground (arith, first, new) in
      rw first ((lt, All-below y x l lt below), (below, rest))
  | inr later ↦
      let lt : x < y = ground (arith, later) in
      let newer : elem x l ≡ false = ground (arith, new) in
      rw later (All-insert_below x y l lt below, insert_sorted-IsDescending x l newer rest)
]

pub sorted-IsDescending : (l : List ℕ) → AreDistinct l → IsDescending (sorted down l)
sorted-IsDescending [] h = tt
sorted-IsDescending (x ∷ l) (new, rest) =
    insert_sorted-IsDescending x (sorted down l) (elem-sorted x l ∙ new)
      (sorted-IsDescending l rest)

-- The indices behind the first node, counted from the next.
abbrev preds : List ℕ → List ℕ
preds [] = []
preds (zero ∷ is) = []
preds (suc i ∷ is) = i ∷ preds is

All-preds : (x : ℕ) (is : List ℕ) → All (λ j. j < suc x) is → All (λ j. j < x) (preds is)
All-preds x [] h = tt
All-preds x (zero ∷ is) h = tt
All-preds x (suc i ∷ is) (here, rest) = (omega (arith, here), All-preds x is rest)

preds-IsDescending : (is : List ℕ) → IsDescending is → IsDescending (preds is)
preds-IsDescending [] h = tt
preds-IsDescending (zero ∷ is) h = tt
preds-IsDescending (suc i ∷ is) (below, rest) = (All-preds i is below, preds-IsDescending is rest)

elem-below_zero : (i : ℕ) (is : List ℕ) → All (λ j. j < 0) is → elem i is ≡ false
elem-below_zero i [] h = refl
elem-below_zero i (j ∷ is) (here, rest) = absurd (omega (arith, here))

elem-preds : (i : ℕ) (is : List ℕ) → IsDescending is → elem i (preds is) ≡ elem (suc i) is
elem-preds i [] h = refl
elem-preds i (zero ∷ is) (below, rest) = sym (ground (arith, elem-below_zero (suc i) is below))
elem-preds i (suc j ∷ is) (below, rest) = ground (arith, elem-preds i is rest)

remove_all-none : (is : List ℕ) → remove_all is [] ≡ []
unfolding remove_all
remove_all-none [] = refl
remove_all-none (i ∷ is) = remove_all-none is

remove_all-cons :
    (is : List ℕ) (node : HeaderNode) (nodes : List HeaderNode)
    → IsDescending is
    → remove_all is (node ∷ nodes)
      ≡ (if elem 0 is then remove_all (preds is) nodes else node ∷ remove_all (preds is) nodes)
unfolding remove_all
remove_all-cons [] node nodes h = refl
remove_all-cons (zero ∷ []) node nodes h = refl
remove_all-cons (zero ∷ i ∷ is) node nodes (below, rest) = absurd (omega (arith, below.0))
remove_all-cons (suc i ∷ is) node nodes (below, rest) =
    remove_all-cons is node (remove_at i nodes) rest
    ∙ ap
        (λ b.
          if b
          then remove_all (preds is) (remove_at i nodes)
          else node ∷ remove_all (preds is) (remove_at i nodes))
        (let same : elem 0 is ≡ elem 0 (suc i ∷ is) = ground arith in same)

pub marked_from-tail :
    (marked : Bool) (node : HeaderNode) (ms : List Masked) (i : ℕ)
    → marked_from 0 ((marked, node) ∷ ms) (suc i) ≡ marked_from 0 ms i
marked_from-tail marked node ms i = ground (arith, marked_from-suc 1 0 ms i refl)

remove_all-marked :
    (ms : List Masked) (is : List ℕ)
    → IsDescending is
    → ((i : ℕ) → elem i is ≡ marked_from 0 ms i)
    → remove_all is (nodes_of ms) ≡ drop_marked ms
remove_all-marked [] is h marks = remove_all-none is
remove_all-marked ((marked, node) ∷ ms) is h marks =
    remove_all-cons is node (nodes_of ms) h
    ∙ rw
        (
          marks 0,
          remove_all-marked ms (preds is) (preds-IsDescending is h)
              (λ i. elem-preds i is h ∙ marks (suc i) ∙ marked_from-tail marked node ms i),
        )
        refl

-- Popping the marked indices from the last to the first leaves the nodes that are not marked.
pub remove_sorted-marked :
    (ms : List Masked) (marks : List ℕ)
    → AreDistinct marks
    → ((i : ℕ) → elem i marks ≡ marked_from 0 ms i)
    → remove_all (sorted down marks) (nodes_of ms) ≡ drop_marked ms
remove_sorted-marked ms marks distinct same =
    remove_all-marked ms (sorted down marks) (sorted-IsDescending marks distinct)
      (λ i. elem-sorted i marks ∙ same i)
