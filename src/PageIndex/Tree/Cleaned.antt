-- ===== src/PageIndex/Tree/Cleaned.antt =====
-- The cleaned copy of a tree.
use spark_workflow_main.Common.{
  ◌≡◌, refl, subst, ◌⊎◌, inl, inr, Option, none, some, List, [], ◌∷◌, take_while, drop_while, ℕ,
  zero, suc, length,
}
use spark_workflow_main.Common.Options.{◌>>=◌}
use spark_workflow_main.PageIndex.{HeaderNode, NodeInfo, TreeNode, Forest, inner, leaf, nil, cons}
use spark_workflow_main.PageIndex.Tree.{clean_node, clean_tree_for_output}
use spark_workflow_main.PageIndex.Build.{build_tree_from_nodes}
use spark_workflow_main.PageIndex.Build.Spans.{
  Numbered, number_from, deeper, forest_within, forest_of,
}
use spark_workflow_main.PageIndex.Build.Shape.{build_tree-eq-forest_of}

-- The second tree is the first, node by node and with the same nesting, and has the key "nodes"
-- exactly where there are children.
abbrev mutual
  pub IsCopy : TreeNode → TreeNode → Type 0
  IsCopy (inner r info nil) (leaf q copied) = (r ≡ q) × (info ≡ copied)
  IsCopy (inner r info (cons t f)) (inner q copied g) =
      (r ≡ q) × ((info ≡ copied) × AreCopies (cons t f) g)
  IsCopy _ _ = ⊥

  pub AreCopies : Forest → Forest → Type 0
  AreCopies nil nil = Unit
  AreCopies (cons t f) (cons u g) = IsCopy t u × AreCopies f g
  AreCopies _ _ = ⊥

-- Somewhere in the tree the key "nodes" is missing.
abbrev mutual
  pub HasBare : TreeNode → Type 0
  HasBare (inner _ _ f) = HaveBare f
  HasBare (leaf _ _) = Unit

  pub HaveBare : Forest → Type 0
  HaveBare nil = ⊥
  HaveBare (cons t f) = HasBare t ⊎ HaveBare f

abbrev pub IsCleaned : Forest → Option Forest → Type 0
IsCleaned f none = HaveBare f
IsCleaned f (some g) = AreCopies f g

abbrev IsNode : TreeNode → Option TreeNode → Type 0
IsNode t none = HasBare t
IsNode t (some u) = IsCopy t u

cons-IsCleaned :
    (t : TreeNode) (f : Forest) (o : Option TreeNode) (p : Option Forest)
    → IsNode t o
    → IsCleaned f p
    → IsCleaned (cons t f) (o >>= λ u. p >>= λ g. some (cons u g))
cons-IsCleaned t f none p h k = inl h
cons-IsCleaned t f (some u) none h k = inr k
cons-IsCleaned t f (some u) (some g) h k = (h, k)

inner-IsNode :
    (r : ℕ) (info : NodeInfo) (t : TreeNode) (f : Forest) (p : Option Forest)
    → IsCleaned (cons t f) p
    → IsNode (inner r info (cons t f)) (p >>= λ g. some (inner r info g))
inner-IsNode r info t f none h = h
inner-IsNode r info t f (some g) h = (refl, (refl, h))

mutual
  unfolding clean_node

  clean_node-IsNode : (t : TreeNode) → IsNode t (clean_node t)
  clean_node-IsNode (leaf r info) = tt
  clean_node-IsNode (inner r info nil) = (refl, refl)
  clean_node-IsNode (inner r info (cons t f)) =
      inner-IsNode r info t f (clean_tree_for_output (cons t f)) (clean_tree-IsCleaned (cons t f))

  clean_tree-IsCleaned : (f : Forest) → IsCleaned f (clean_tree_for_output f)
  clean_tree-IsCleaned nil = tt
  clean_tree-IsCleaned (cons t f) =
      cons-IsCleaned t f (clean_node t) (clean_tree_for_output f) (clean_node-IsNode t)
        (clean_tree-IsCleaned f)

forest_within-full : (fuel : ℕ) (l : List Numbered) → HaveBare (forest_within fuel l) → ⊥
unfolding forest_within
forest_within-full zero l h = h
forest_within-full (suc fuel) [] h = h
forest_within-full (suc fuel) ((c, n) ∷ l) (inl h) =
    forest_within-full fuel (take_while (deeper n.level) l) h
forest_within-full (suc fuel) ((c, n) ∷ l) (inr h) =
    forest_within-full fuel (drop_while (deeper n.level) l) h

built_full : (nodes : List HeaderNode) → HaveBare (build_tree_from_nodes nodes) → ⊥
unfolding forest_of
built_full nodes h =
    forest_within-full (length (number_from 1 nodes)) (number_from 1 nodes)
      (subst HaveBare (build_tree-eq-forest_of nodes) h)

cleaned_some :
    (f : Forest) (o : Option Forest)
    → IsCleaned f o
    → (HaveBare f → ⊥)
    → (g : Forest) × ((o ≡ some g) × AreCopies f g)
cleaned_some f none h full = absurd (full h)
cleaned_some f (some g) h full = (g, (refl, h))

-- Cleaning raises a KeyError only where some node lacks the key "nodes"; else its copy has the same
-- nodes with the same nesting, and the key exactly where there are children. A tree that
-- build_tree_from_nodes builds lacks the key nowhere, so that its copy is made.
pub clean_tree-IsCopy :
    (f : Forest) (nodes : List HeaderNode)
    → IsCleaned f (clean_tree_for_output f)
      × ((g : Forest) × ((clean_tree_for_output (build_tree_from_nodes nodes) ≡ some g)
            × AreCopies (build_tree_from_nodes nodes) g))
clean_tree-IsCopy f nodes =
    let built = build_tree_from_nodes nodes in
    (
      clean_tree-IsCleaned f,
      cleaned_some built (clean_tree_for_output built) (clean_tree-IsCleaned built)
          (built_full nodes),
    )
