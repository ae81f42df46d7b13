-- ===== src/PageIndex/Build/Frames.antt =====
-- The builder's state as a path of open nodes, round by round.
use spark_workflow_main.Common.{
  ℕ, ◌+◌, ◌≤◌, ◌<◌, ◌≡◌, refl, ap, ap₂, ◌∙◌, List, [], ◌∷◌, le→leb, arith,
}
use spark_workflow_main.PageIndex.{HeaderNode, TreeNode, Forest, inner, nil, cons, ◌++ᶠ◌}
use spark_workflow_main.PageIndex.Build.{Builder, node_info, pop_deeper, place, add_node}
use spark_workflow_main.PageIndex.Build.Paths.{
  Frame, fill, stack_of, append-nilᶠ, IsOpen, append-fill_top, shut_frames, shut_roots, fill-shut,
  shut-IsOpen,
}

-- The builder's state is the path of open nodes.
pub record Represents (b : Builder) (fs : List Frame) (roots : Forest) : Type 0 where
  pub stack_is : b.stack ≡ stack_of fs
  pub roots_are : b.root_nodes ≡ fill fs roots nil
  pub open_path : IsOpen b.node_counter fs roots

abbrev pub new_frame : ℕ → HeaderNode → Frame
new_frame c n = record { ref = c; info = node_info c n; level = n.level; kids = nil }

-- A round whose header is deeper than the top of the stack opens a node below it.
place-fill :
    (c : ℕ) (t : TreeNode) (fs : List Frame) (roots : Forest)
    → IsOpen c fs roots
    → place (stack_of fs) t (fill fs roots nil) ≡ fill fs roots (cons t nil)
place-fill c t [] roots h = ap (λ x. x ++ᶠ cons t nil) (append-nilᶠ roots)
place-fill c t (f ∷ fs) roots h = append-fill_top c t f fs roots h

abbrev pub IsBelowTop : ℕ → List Frame → Type 0
IsBelowTop level [] = Unit
IsBelowTop level (f ∷ fs) = f.level < level

pop_deeper-stay :
    (level : ℕ) (fs : List Frame)
    → IsBelowTop level fs
    → pop_deeper level (stack_of fs) ≡ stack_of fs
pop_deeper-stay level [] h = refl
pop_deeper-stay level (f ∷ fs) h = ground arith

pub add_node-open :
    (b : Builder) (n : HeaderNode) (fs : List Frame) (roots : Forest)
    → Represents b fs roots
    → IsBelowTop n.level fs
    → Represents (add_node b n) (new_frame b.node_counter n ∷ fs) roots
unfolding add_node
add_node-open b n fs roots r h = record {
  stack_is =
      ap (λ s. (b.node_counter, n.level) ∷ pop_deeper n.level s) r.stack_is
      ∙ ap (λ s. (b.node_counter, n.level) ∷ s) (pop_deeper-stay n.level fs h);
  roots_are =
      ap₂ (λ s x. place (pop_deeper n.level s) t x) r.stack_is r.roots_are
      ∙ ap (λ s. place s t (fill fs roots nil)) (pop_deeper-stay n.level fs h)
      ∙ place-fill b.node_counter t fs roots r.open_path;
  open_path = (omega arith, tt, r.open_path);
}
  where
    t : TreeNode
    t = inner b.node_counter (node_info b.node_counter n) nil

stack_of-shut : (f : Frame) (fs : List Frame) → stack_of (shut_frames f fs) ≡ stack_of fs
stack_of-shut f [] = refl
stack_of-shut f (g ∷ fs) = refl

-- The state in which the top node has been closed.
abbrev pub shut : Builder → Frame → List Frame → Builder
shut b f fs = record b { stack = stack_of (shut_frames f fs) }

pub shut-Represents :
    (b : Builder) (f : Frame) (fs : List Frame) (roots : Forest)
    → Represents b (f ∷ fs) roots
    → Represents (shut b f fs) (shut_frames f fs) (shut_roots f fs roots)
shut-Represents b f fs roots r = record {
  stack_is = refl;
  roots_are = r.roots_are ∙ fill-shut f fs roots;
  open_path = shut-IsOpen b.node_counter f fs roots r.open_path;
}

-- A round whose header is not deeper than the top node closes that node first.
pub add_node-shut :
    (b : Builder) (n : HeaderNode) (f : Frame) (fs : List Frame) (roots : Forest)
    → Represents b (f ∷ fs) roots
    → n.level ≤ f.level
    → add_node b n ≡ add_node (shut b f fs) n
unfolding add_node
add_node-shut b n f fs roots r h = λ i. record {
  stack = (b.node_counter, n.level) ∷ same i;
  root_nodes = place (same i) (inner b.node_counter (node_info b.node_counter n) nil) b.root_nodes;
  node_counter = b.node_counter + 1;
}
  where
    same : pop_deeper n.level b.stack ≡ pop_deeper n.level (stack_of (shut_frames f fs))
    same = ap (pop_deeper n.level) r.stack_is ∙ rw (le→leb n.level f.level h, stack_of-shut f fs)
