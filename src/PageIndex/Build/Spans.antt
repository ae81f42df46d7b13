-- ===== src/PageIndex/Build/Spans.antt =====
-- The reference description of the tree: the descendants of a header are the longest run of
-- deeper headers that follows it.
use spark_workflow_main.Common.{
  ℕ, zero, suc, ◌+◌, ◌≤◌, ◌≡◌, refl, List, [], ◌∷◌, Bool, ltb, length, take_while, drop_while,
  arith,
}
use spark_workflow_main.PageIndex.{HeaderNode, Forest, inner, nil, cons}
use spark_workflow_main.PageIndex.Build.{node_info}

-- A header and the number that its tree node is created under.
abbrev pub Numbered : Type 0
Numbered = ℕ × HeaderNode

abbrev pub number_from : ℕ → List HeaderNode → List Numbered
number_from c [] = []
number_from c (n ∷ ns) = (c, n) ∷ number_from (c + 1) ns

abbrev pub deeper : ℕ → Numbered → Bool
deeper level (_, n) = ltb level n.level

unfoldable pub forest_within : ℕ → List Numbered → Forest
forest_within zero l = nil
forest_within (suc fuel) [] = nil
forest_within (suc fuel) ((c, n) ∷ rest) =
    cons (inner c (node_info c n) (forest_within fuel (take_while (deeper n.level) rest)))
      (forest_within fuel (drop_while (deeper n.level) rest))

unfoldable pub forest_of : List Numbered → Forest
unfolding forest_within
forest_of l = forest_within (length l) l

pub length-take_while-le :
    (p : Numbered → Bool) (l : List Numbered) → length (take_while p l) ≤ length l
length-take_while-le p [] = omega arith
length-take_while-le p (x ∷ l) = ground (arith, length-take_while-le p l)

pub length-drop_while-le :
    (p : Numbered → Bool) (l : List Numbered) → length (drop_while p l) ≤ length l
length-drop_while-le p [] = omega arith
length-drop_while-le p (x ∷ l) = ground (arith, length-drop_while-le p l)

-- Any fuel that covers the length gives the same forest.
forest_within_enough :
    (f g : ℕ) (l : List Numbered)
    → length l ≤ f
    → length l ≤ g
    → forest_within f l ≡ forest_within g l
unfolding forest_within
forest_within_enough zero zero l h k = refl
forest_within_enough zero (suc g) [] h k = refl
forest_within_enough zero (suc g) (x ∷ l) h k = absurd (omega arith)
forest_within_enough (suc f) zero [] h k = refl
forest_within_enough (suc f) zero (x ∷ l) h k = absurd (omega arith)
forest_within_enough (suc f) (suc g) [] h k = refl
forest_within_enough (suc f) (suc g) ((c, n) ∷ l) h k =
    let p = deeper n.level in
    let a = length-take_while-le p l in
    let b = length-drop_while-le p l in
    let kids = forest_within_enough f g (take_while p l) (omega arith) (omega arith) in
    let sibs = forest_within_enough f g (drop_while p l) (omega arith) (omega arith) in
    λ i. cons (inner c (node_info c n) (kids i)) (sibs i)

pub forest_of-cons :
    (c : ℕ) (n : HeaderNode) (rest : List Numbered)
    → forest_of ((c, n) ∷ rest)
      ≡ cons
          (inner c (node_info c n) (forest_of (take_while (deeper n.level) rest)))
          (forest_of (drop_while (deeper n.level) rest))
unfolding forest_of
forest_of-cons c n rest =
    let p = deeper n.level in
    let a = length-take_while-le p rest in
    let b = length-drop_while-le p rest in
    let kids =
      forest_within_enough (length rest) (length (take_while p rest)) (take_while p rest)
        (omega arith) (omega arith) in
    let sibs =
      forest_within_enough (length rest) (length (drop_while p rest)) (drop_while p rest)
        (omega arith) (omega arith) in
    λ i. cons (inner c (node_info c n) (kids i)) (sibs i)

-- A deeper run lies within a less deep one.
module _ (low high : ℕ) (h : low ≤ high) where
  pub take_while-take_while :
      (l : List Numbered)
      → take_while (deeper high) (take_while (deeper low) l) ≡ take_while (deeper high) l
  take_while-take_while [] = refl
  take_while-take_while ((c, n) ∷ l) = ground (arith, take_while-take_while l)

  pub drop_while-take_while :
      (l : List Numbered)
      → drop_while (deeper high) (take_while (deeper low) l)
        ≡ take_while (deeper low) (drop_while (deeper high) l)
  drop_while-take_while [] = refl
  drop_while-take_while ((c, n) ∷ l) = ground (arith, drop_while-take_while l)

  pub drop_while-drop_while :
      (l : List Numbered)
      → drop_while (deeper low) (drop_while (deeper high) l) ≡ drop_while (deeper low) l
  drop_while-drop_while [] = refl
  drop_while-drop_while ((c, n) ∷ l) = ground (arith, drop_while-drop_while l)
