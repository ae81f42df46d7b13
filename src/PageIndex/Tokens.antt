-- ===== src/PageIndex/Tokens.antt =====
-- `count_tokens` and `update_node_list_with_text_token_count` of tree_builder.py. The tokenizer,
-- `_ENCODING.encode` of the package tiktoken, is a parameter: the number of tokens of a text. The
-- special tokens, on which it raises where a text holds them, are left aside.
pub mod Cumulative
use spark_workflow_main.Common.{
  ℕ, zero, suc, ◌+◌, Option, none, some, List, [], ◌∷◌, ◌++◌, leb, length, get_elem?, drop,
  if◌then◌else◌,
}
use spark_workflow_main.Common.Text.{Text, newline, is_empty}
use spark_workflow_main.PageIndex.{HeaderNode}

-- The indices from `i` on, up to the first node that is not deeper than `parent_level`.
abbrev pub scan_children : ℕ → ℕ → List HeaderNode → List ℕ
scan_children i parent_level [] = []
scan_children i parent_level (node ∷ nodes) =
    if leb node.level parent_level then [] else i ∷ scan_children (i + 1) parent_level nodes

-- The same inner function stands in both passes.
unfoldable pub find_all_children : ℕ → ℕ → List HeaderNode → List ℕ
find_all_children parent_index parent_level node_list =
    scan_children (parent_index + 1) parent_level (drop (parent_index + 1) node_list)

-- `result_list[i].get("text", "")`, at an index that is in range
abbrev pub text_at : List HeaderNode → ℕ → Text
text_at l i = elim (get_elem? l i) [ none ↦ [] | some node ↦ node.text ]

-- Change the node at an index.
abbrev pub modify_at : ℕ → (HeaderNode → HeaderNode) → List HeaderNode → List HeaderNode
modify_at i f [] = []
modify_at zero f (node ∷ nodes) = f node ∷ nodes
modify_at (suc i) f (node ∷ nodes) = node ∷ modify_at i f nodes

abbrev pub with_count : ℕ → HeaderNode → HeaderNode
with_count n node = record node { text_token_count = n }

-- `for child_index in children_indices: …`
abbrev pub add_child_texts : List HeaderNode → Text → List ℕ → Text
add_child_texts l total_text [] = total_text
add_child_texts l total_text (child_index ∷ rest) =
    let child_text = text_at l child_index in
    add_child_texts l
      (if is_empty child_text then total_text else total_text ++ newline ∷ child_text) rest

module _ (encoded_length : Text → ℕ) where
  unfoldable pub count_tokens : Text → ℕ
  count_tokens text = if is_empty text then 0 else encoded_length text

  -- One round of the loop.
  unfoldable pub count_at : ℕ → List HeaderNode → List HeaderNode
  count_at i result_list = elim (get_elem? result_list i) [
    | none ↦ result_list
    | some current_node ↦
        let children_indices = find_all_children i current_node.level result_list in
        let total_text = add_child_texts result_list current_node.text children_indices in
        modify_at i (with_count (count_tokens total_text)) result_list
  ]

  -- `for i in range(n - 1, -1, -1)`
  unfoldable pub count_down : ℕ → List HeaderNode → List HeaderNode
  count_down zero result_list = result_list
  count_down (suc i) result_list = count_down i (count_at i result_list)

  unfoldable pub update_node_list_with_text_token_count : List HeaderNode → List HeaderNode
  update_node_list_with_text_token_count node_list = count_down (length node_list) node_list
