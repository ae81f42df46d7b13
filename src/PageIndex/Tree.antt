-- ===== src/PageIndex/Tree.antt =====
-- `structure_to_list`, `write_node_id` and `clean_tree_for_output` of tree_builder.py: passes over
-- a tree that is built.
pub mod Order
pub mod Ids
pub mod Cleaned
use spark_workflow_main.Common.{ℕ, ◌+◌, Option, none, some, List, [], ◌∷◌, ◌++◌}
use spark_workflow_main.Common.Options.{◌>>=◌}
use spark_workflow_main.Common.Text.{str, zfill}
use spark_workflow_main.PageIndex.{NodeInfo, TreeNode, Forest, inner, leaf, nil, cons}

abbrev pub info_of : TreeNode → NodeInfo
info_of (inner _ info _) = info
info_of (leaf _ info) = info

unfoldable mutual
  pub structure_to_list : TreeNode → List TreeNode
  structure_to_list (inner r info nodes) = inner r info nodes ∷ structures_to_list nodes
  structure_to_list (leaf r info) = leaf r info ∷ []

  pub structures_to_list : Forest → List TreeNode
  structures_to_list nil = []
  structures_to_list (cons t f) = structure_to_list t ++ structures_to_list f

abbrev pub with_id : ℕ → NodeInfo → NodeInfo
with_id node_id info = record info { node_id = zfill 4 (str node_id) }

-- `write_node_id` changes the dicts in place and returns the next free number.
unfoldable mutual
  pub write_node_id : TreeNode → ℕ → TreeNode × ℕ
  write_node_id (inner r info nodes) n =
      let (nodes', n') = write_node_ids nodes (n + 1) in (inner r (with_id n info) nodes', n')
  write_node_id (leaf r info) n = (leaf r (with_id n info), n + 1)

  pub write_node_ids : Forest → ℕ → Forest × ℕ
  write_node_ids nil n = (nil, n)
  write_node_ids (cons t f) n =
      let (t', n') = write_node_id t n in let (f', n'') = write_node_ids f n' in (cons t' f', n'')

-- `none` stands for the KeyError of `node["nodes"]` at a node without that key. The copy has the
-- key only where there are children.
unfoldable mutual
  pub clean_node : TreeNode → Option TreeNode
  clean_node (leaf r info) = none
  clean_node (inner r info nil) = some (leaf r info)
  clean_node (inner r info (cons t f)) = do
    nodes ← clean_tree_for_output (cons t f)
    some (inner r info nodes)

  pub clean_tree_for_output : Forest → Option Forest
  clean_tree_for_output nil = some nil
  clean_tree_for_output (cons t f) = do
    cleaned_node ← clean_node t
    cleaned_nodes ← clean_tree_for_output f
    some (cons cleaned_node cleaned_nodes)
