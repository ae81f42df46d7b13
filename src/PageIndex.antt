-- ===== src/PageIndex.antt =====
-- The PageIndex structure of a document:
-- 05-modulcluster/modul-inhaltsextraktion/src/activities/pageindex_structure/tree_builder.py.
-- This file holds the data; the children hold the passes of the pipeline in their order.
pub mod Markdown
pub mod Tokens
pub mod Thinning
pub mod Tree
pub mod Build
mod Tests
use spark_workflow_main.Common.{ℕ}
use spark_workflow_main.Common.Text.{Text}

-- An entry of the flat node list. Before a pass sets `text` or `text_token_count`, `.get` reads
-- the default, which stands in the field: "" and 0.
pub record HeaderNode : Type 0 where
  pub title : Text
  pub line_num : ℕ
  pub level : ℕ
  pub text : Text
  pub text_token_count : ℕ

-- The keys of a tree node but "nodes".
pub record NodeInfo : Type 0 where
  pub title : Text
  pub node_id : Text
  pub text : Text
  pub line_num : ℕ

-- A tree node with a key "nodes" (`inner`) or without (`leaf`). The number in front is the
-- identity of the dict object, by which the builder's stack refers to it.
mutual
  pub data TreeNode : Type 0 where
    inner : ℕ → NodeInfo → Forest → TreeNode
    leaf : ℕ → NodeInfo → TreeNode

  pub data Forest : Type 0 where
    nil : Forest
    cons : TreeNode → Forest → Forest

infixr 66 ◌++ᶠ◌
abbrev pub ◌++ᶠ◌ : Forest → Forest → Forest
nil ++ᶠ g = g
cons t f ++ᶠ g = cons t (f ++ᶠ g)
