-- ===== src/PageIndex/Build/Shape.antt =====
-- `build_tree_from_nodes` builds the forest of the reference description.
use spark_workflow_main.Common.{
  ℕ, ◌+◌, ◌≤◌, ◌≡◌, refl, sym, ap, ap₂, ◌∙◌, List, [], ◌∷◌, ltb, inl, inr, Bool-cases, ltb→lt,
  lt→ltb, ltb-false, le→ltb, take_while, drop_while, arith,
}
use spark_workflow_main.PageIndex.{HeaderNode, Forest, inner, nil, cons, ◌++ᶠ◌}
use spark_workflow_main.PageIndex.Build.{
  Builder, node_info, add_node, add_nodes, build_tree_from_nodes,
}
use spark_workflow_main.PageIndex.Build.Spans.{
  Numbered, number_from, deeper, forest_of, forest_of-cons, take_while-take_while,
  drop_while-take_while, drop_while-drop_while,
}
use spark_workflow_main.PageIndex.Build.Paths.{
  Frame, node_of, with_kids, fill, append-nilᶠ, append_assocᶠ, shut_frames, shut_roots,
}
use spark_workflow_main.PageIndex.Build.Frames.{
  Represents, new_frame, IsBelowTop, add_node-open, shut, shut-Represents, add_node-shut,
}

-- What becomes of a path of open nodes when the headers `l` are still to come.
abbrev weave : List Frame → Forest → Forest → List Numbered → Forest
weave [] roots sub l = roots ++ᶠ (sub ++ᶠ forest_of l)
weave (f ∷ fs) roots sub l =
    weave fs roots
      (cons (inner f.ref f.info (f.kids ++ᶠ (sub ++ᶠ forest_of (take_while (deeper f.level) l))))
        nil)
      (drop_while (deeper f.level) l)

weave-nil : (fs : List Frame) (roots sub : Forest) → weave fs roots sub [] ≡ fill fs roots sub
unfolding forest_of
weave-nil [] roots sub = ap (λ x. roots ++ᶠ x) (append-nilᶠ sub)
weave-nil (f ∷ fs) roots sub =
    ap (λ x. weave fs roots (cons (inner f.ref f.info (f.kids ++ᶠ x)) nil) []) (append-nilᶠ sub)
    ∙ weave-nil fs roots _

weave-open :
    (c : ℕ) (n : HeaderNode) (rest : List Numbered) (fs : List Frame) (roots : Forest)
    → IsBelowTop n.level fs
    → weave fs roots nil ((c, n) ∷ rest) ≡ weave (new_frame c n ∷ fs) roots nil rest
weave-open c n rest [] roots h = ap (λ x. roots ++ᶠ x) (forest_of-cons c n rest)
weave-open c n rest (f ∷ fs) roots h = rw (lt→ltb f.level n.level h) (
    ap₂ (λ x y. weave fs roots (cons (inner f.ref f.info (f.kids ++ᶠ x)) nil) y)
      (forest_of-cons c n (take_while (deeper f.level) rest) ∙ kids)
      (sym (drop_while-drop_while f.level n.level le rest)))
  where
    le : f.level ≤ n.level
    le = omega arith

    kids :
        cons
          (inner c
            (node_info c n)
            (forest_of (take_while (deeper n.level) (take_while (deeper f.level) rest))))
          (forest_of (drop_while (deeper n.level) (take_while (deeper f.level) rest)))
        ≡ cons
            (inner c (node_info c n) (forest_of (take_while (deeper n.level) rest)))
            (forest_of (take_while (deeper f.level) (drop_while (deeper n.level) rest)))
    kids =
        ap₂ (λ x y. cons (inner c (node_info c n) (forest_of x)) (forest_of y))
          (take_while-take_while f.level n.level le rest)
          (drop_while-take_while f.level n.level le rest)

weave-shut :
    (c : ℕ) (n : HeaderNode) (rest : List Numbered) (f : Frame) (fs : List Frame) (roots : Forest)
    → n.level ≤ f.level
    → weave (f ∷ fs) roots nil ((c, n) ∷ rest)
      ≡ weave (shut_frames f fs) (shut_roots f fs roots) nil ((c, n) ∷ rest)
unfolding forest_of
weave-shut c n rest f [] roots h =
    rw (le→ltb f.level n.level h, append-nilᶠ f.kids) (sym (append_assocᶠ roots _ _))
weave-shut c n rest f (g ∷ fs) roots h =
    rw (le→ltb f.level n.level h, append-nilᶠ f.kids)
      (ap
        (λ x.
          weave fs roots (cons (inner g.ref g.info x) nil)
            (drop_while (deeper g.level) ((c, n) ∷ rest)))
        (sym (append_assocᶠ g.kids _ _)))

abbrev Weaves : List HeaderNode → Type 0
Weaves ns =
    (b : Builder) (fs : List Frame) (roots : Forest)
    → Represents b fs roots
    → (add_nodes b ns).root_nodes ≡ weave fs roots nil (number_from b.node_counter ns)

opened :
    (n : HeaderNode) (ns : List HeaderNode)
    → Weaves ns
    → (b : Builder) (fs : List Frame) (roots : Forest) → Represents b fs roots
    → IsBelowTop n.level fs
    → (add_nodes (add_node b n) ns).root_nodes
      ≡ weave fs roots nil (number_from b.node_counter (n ∷ ns))
unfolding add_node
opened n ns ih b fs roots r h =
    ih (add_node b n) (new_frame b.node_counter n ∷ fs) roots (add_node-open b n fs roots r h)
    ∙ sym (weave-open b.node_counter n (number_from (b.node_counter + 1) ns) fs roots h)

-- The loop of `while stack and …` by recursion on the nodes below the top.
closed_or_opened :
    (n : HeaderNode) (ns : List HeaderNode)
    → Weaves ns
    → (b : Builder) (f : Frame) (fs : List Frame) (roots : Forest) → Represents b (f ∷ fs) roots
    → (add_nodes (add_node b n) ns).root_nodes
      ≡ weave (f ∷ fs) roots nil (number_from b.node_counter (n ∷ ns))
closed_or_opened n ns ih b f [] roots r = elim (Bool-cases (ltb f.level n.level)) [
  | inl below ↦ opened n ns ih b (f ∷ []) roots r (ltb→lt f.level n.level below)
  | inr above ↦
      let le = ltb-false f.level n.level above in
      ap (λ x. (add_nodes x ns).root_nodes) (add_node-shut b n f [] roots r le)
      ∙ opened n ns ih (shut b f []) [] (shut_roots f [] roots) (shut-Represents b f [] roots r) tt
      ∙ sym (weave-shut b.node_counter n (number_from (b.node_counter + 1) ns) f [] roots le)
]
closed_or_opened n ns ih b f (g ∷ fs) roots r = elim (Bool-cases (ltb f.level n.level)) [
  | inl below ↦ opened n ns ih b (f ∷ g ∷ fs) roots r (ltb→lt f.level n.level below)
  | inr above ↦
      let le = ltb-false f.level n.level above in
      ap (λ x. (add_nodes x ns).root_nodes) (add_node-shut b n f (g ∷ fs) roots r le)
      ∙ closed_or_opened n ns ih (shut b f (g ∷ fs)) (with_kids g (g.kids ++ᶠ cons (node_of f) nil))
          fs roots (shut-Represents b f (g ∷ fs) roots r)
      ∙ sym (weave-shut b.node_counter n (number_from (b.node_counter + 1) ns) f (g ∷ fs) roots le)
]

add_nodes-Weaves : (ns : List HeaderNode) → Weaves ns
unfolding add_nodes
add_nodes-Weaves [] b fs roots r = r.roots_are ∙ sym (weave-nil fs roots nil)
add_nodes-Weaves (n ∷ ns) b [] roots r = opened n ns (add_nodes-Weaves ns) b [] roots r tt
add_nodes-Weaves (n ∷ ns) b (f ∷ fs) roots r =
    closed_or_opened n ns (add_nodes-Weaves ns) b f fs roots r

-- The tree that is built is the reference forest of the headers, numbered from 1 in their
-- order: the children of a header are built from the longest run of deeper headers behind it,
-- and what follows that run stands beside it.
pub build_tree-eq-forest_of :
    (nodes : List HeaderNode) → build_tree_from_nodes nodes ≡ forest_of (number_from 1 nodes)
unfolding build_tree_from_nodes forest_of
build_tree-eq-forest_of [] = refl
build_tree-eq-forest_of (n ∷ ns) =
    add_nodes-Weaves (n ∷ ns) (record { stack = []; root_nodes = nil; node_counter = 1 }) [] nil
      (record { stack_is = refl; roots_are = refl; open_path = (omega arith, tt) })
