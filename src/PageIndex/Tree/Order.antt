-- ===== src/PageIndex/Tree/Order.antt =====
-- The passes over a tree keep the order of its nodes, which is the order of the headers.
use spark_workflow_main.Common.{
  ℕ, zero, suc, ◌+◌, ◌≤◌, ◌≡◌, refl, sym, ap, ap₂, ◌∙◌, List, [], ◌∷◌, ◌++◌, map, length,
  map-append, take_while, drop_while, Bool, arith,
}
use spark_workflow_main.PageIndex.{HeaderNode, NodeInfo, TreeNode, Forest, inner, cons}
use spark_workflow_main.PageIndex.Tree.{info_of, structure_to_list, structures_to_list}
use spark_workflow_main.PageIndex.Build.{node_info, build_tree_from_nodes}
use spark_workflow_main.PageIndex.Build.Spans.{
  Numbered, number_from, deeper, forest_within, forest_of, length-take_while-le,
  length-drop_while-le,
}
use spark_workflow_main.PageIndex.Build.Shape.{build_tree-eq-forest_of}

-- The dicts of a forest in depth-first order, without their children.
abbrev pub infos : Forest → List NodeInfo
infos f = map info_of (structures_to_list f)

abbrev infos_of_tree : TreeNode → List NodeInfo
infos_of_tree t = map info_of (structure_to_list t)

infos-cons : (t : TreeNode) (f : Forest) → infos (cons t f) ≡ infos_of_tree t ++ infos f
unfolding structures_to_list
infos-cons t f = map-append info_of (structure_to_list t) (structures_to_list f)

take_while-append-drop_while {ℓ} :
    {A : Type ℓ} (p : A → Bool) (l : List A) → take_while p l ++ drop_while p l ≡ l
take_while-append-drop_while p [] = refl
take_while-append-drop_while p (x ∷ l) = ground (arith, take_while-append-drop_while p l)

abbrev infos_of_numbered : List Numbered → List NodeInfo
infos_of_numbered [] = []
infos_of_numbered ((c, n) ∷ l) = node_info c n ∷ infos_of_numbered l

infos_of_numbered-append :
    (a b : List Numbered) → infos_of_numbered (a ++ b) ≡ infos_of_numbered a ++ infos_of_numbered b
infos_of_numbered-append [] b = refl
infos_of_numbered-append ((c, n) ∷ a) b = ap (λ l. node_info c n ∷ l) (infos_of_numbered-append a b)

forest_within-infos :
    (fuel : ℕ) (l : List Numbered)
    → length l ≤ fuel
    → infos (forest_within fuel l) ≡ infos_of_numbered l
unfolding forest_within structures_to_list
forest_within-infos zero [] h = refl
forest_within-infos zero (x ∷ l) h = absurd (omega arith)
forest_within-infos (suc fuel) [] h = refl
forest_within-infos (suc fuel) ((c, n) ∷ l) h =
    let p = deeper n.level in
    let a = length-take_while-le p l in
    let b = length-drop_while-le p l in
    infos-cons (inner c (node_info c n) (forest_within fuel (take_while p l)))
      (forest_within fuel (drop_while p l))
    ∙ ap₂ (λ x y. node_info c n ∷ (x ++ y))
        (forest_within-infos fuel (take_while p l) (omega arith))
        (forest_within-infos fuel (drop_while p l) (omega arith))
    ∙ ap (λ x. node_info c n ∷ x)
        (sym (infos_of_numbered-append (take_while p l) (drop_while p l))
          ∙ ap infos_of_numbered (take_while-append-drop_while p l))

-- Header `i` of the list, numbered from `c` on, as the tree node that it becomes.
abbrev pub node_infos : ℕ → List HeaderNode → List NodeInfo
node_infos c [] = []
node_infos c (n ∷ ns) = node_info c n ∷ node_infos (c + 1) ns

infos_of_number_from :
    (c : ℕ) (ns : List HeaderNode) → infos_of_numbered (number_from c ns) ≡ node_infos c ns
infos_of_number_from c [] = refl
infos_of_number_from c (n ∷ ns) = ap (λ l. node_info c n ∷ l) (infos_of_number_from (c + 1) ns)

-- Listed depth first, the tree that is built holds every header once and in the order of the
-- text, with its title, text and line, under identifiers that count from 1.
pub structure_to_list-build_tree :
    (nodes : List HeaderNode) → infos (build_tree_from_nodes nodes) ≡ node_infos 1 nodes
unfolding forest_of
structure_to_list-build_tree nodes =
    ap infos (build_tree-eq-forest_of nodes)
    ∙ forest_within-infos (length (number_from 1 nodes)) (number_from 1 nodes) (omega arith)
    ∙ infos_of_number_from 1 nodes
