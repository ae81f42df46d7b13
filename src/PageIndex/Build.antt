-- ===== src/PageIndex/Build.antt =====
-- `build_tree_from_nodes` of tree_builder.py: a stack of the open nodes by heading level.
pub mod Paths
mod Frames
pub mod Spans
pub mod Shape
use spark_workflow_main.Common.{ℕ, suc, ◌+◌, List, [], ◌∷◌, leb, ◌==◌, if◌then◌else◌}
use spark_workflow_main.Common.Text.{str, zfill}
use spark_workflow_main.PageIndex.{
  HeaderNode, NodeInfo, TreeNode, Forest, inner, leaf, nil, cons, ◌++ᶠ◌,
}

-- The tuples (tree_node, level) of the stack, its top first. A node is named by its identity.
abbrev pub Stack : Type 0
Stack = List (ℕ × ℕ)

pub record Builder : Type 0 where
  pub stack : Stack
  pub root_nodes : Forest
  pub node_counter : ℕ

abbrev pub node_info : ℕ → HeaderNode → NodeInfo
node_info counter node = record {
  title = node.title;
  node_id = zfill 4 (str counter);
  text = node.text;
  line_num = node.line_num;
}

-- `while stack and stack[-1][1] >= current_level: stack.pop()`
abbrev pub pop_deeper : ℕ → Stack → Stack
pop_deeper level [] = []
pop_deeper level ((r, l) ∷ stack) = if leb level l then pop_deeper level stack else (r, l) ∷ stack

-- `parent_node["nodes"].append(tree_node)`: the object named by `r` changes wherever it hangs.
abbrev mutual
  pub append_child : ℕ → TreeNode → TreeNode → TreeNode
  append_child r new (inner q info f) =
      inner q info (append_children r new f ++ᶠ (if q == r then cons new nil else nil))
  append_child r new (leaf q info) = leaf q info

  pub append_children : ℕ → TreeNode → Forest → Forest
  append_children r new nil = nil
  append_children r new (cons t f) = cons (append_child r new t) (append_children r new f)

-- Where a new node hangs: at the top of the stack, or at the root.
abbrev pub place : Stack → TreeNode → Forest → Forest
place [] new roots = roots ++ᶠ cons new nil
place ((parent, _) ∷ _) new roots = append_children parent new roots

-- One round of the loop.
pub add_node : Builder → HeaderNode → Builder
add_node b node =
    let tree_node = inner b.node_counter (node_info b.node_counter node) nil in
    let stack = pop_deeper node.level b.stack in
    record {
      stack = (b.node_counter, node.level) ∷ stack;
      root_nodes = place stack tree_node b.root_nodes;
      node_counter = b.node_counter + 1;
    }

pub add_nodes : Builder → List HeaderNode → Builder
unfolding add_node
add_nodes b [] = b
add_nodes b (node ∷ nodes) = add_nodes (add_node b node) nodes

unfoldable pub build_tree_from_nodes : List HeaderNode → Forest
unfolding add_nodes
build_tree_from_nodes [] = nil
build_tree_from_nodes (node ∷ nodes) =
    (add_nodes (record { stack = []; root_nodes = nil; node_counter = 1 })
      (node ∷ nodes)).root_nodes
