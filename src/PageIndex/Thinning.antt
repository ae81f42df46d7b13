-- ===== src/PageIndex/Thinning.antt =====
-- `tree_thinning_for_index` of tree_builder.py: a node with too few tokens takes in the text of
-- its descendants, which are removed. The threshold is a number: with the default None the code
-- raises a TypeError at its first comparison.
pub mod Marks
pub mod Reference
pub mod Removal
pub mod Rounds
pub mod Collected
use spark_workflow_main.Common.{
  ℕ, zero, suc, Bool, not, ◌&&◌, Option, none, some, List, [], ◌∷◌, ◌++◌, leb, ltb, length,
  get_elem?, if◌then◌else◌,
}
use spark_workflow_main.Common.Eq.{elem, nat_eq}
use spark_workflow_main.Common.Sort.{sorted}
use spark_workflow_main.Common.Text.{Text, newline, strip, is_empty, ends_with_newline}
use spark_workflow_main.PageIndex.{HeaderNode}
use spark_workflow_main.PageIndex.Tokens.{find_all_children, text_at, modify_at, count_tokens}

-- The variables of the loop; the set of indices is a list without repetition.
pub record ThinState : Type 0 where
  pub result_list : List HeaderNode
  pub nodes_to_remove : List ℕ

-- `for child_index in sorted(children_indices): …`, on the texts found and the set
unfoldable pub collect : List HeaderNode → List ℕ → List Text → List ℕ → List Text × List ℕ
collect l [] children_texts removed = (children_texts, removed)
collect l (child_index ∷ rest) children_texts removed =
    let child_text = text_at l child_index in
    let texts =
      if is_empty (strip child_text) then children_texts else children_texts ++ child_text ∷ [] in
    let known = elem child_index removed in
    collect l rest (if known then children_texts else texts)
      (if known then removed else child_index ∷ removed)

unfoldable pub merge_texts : Text → List Text → Text
merge_texts merged_text [] = merged_text
merge_texts merged_text (child_text ∷ rest) =
    let apart = not (is_empty merged_text) && not (ends_with_newline merged_text) in
    merge_texts
      ((if apart then merged_text ++ newline ∷ newline ∷ [] else merged_text) ++ child_text) rest

-- `l.pop(i)`
abbrev pub remove_at : ℕ → List HeaderNode → List HeaderNode
remove_at i [] = []
remove_at zero (node ∷ nodes) = nodes
remove_at (suc i) (node ∷ nodes) = node ∷ remove_at i nodes

-- `for index in sorted(nodes_to_remove, reverse=True): result_list.pop(index)`
unfoldable pub remove_all : List ℕ → List HeaderNode → List HeaderNode
remove_all [] l = l
remove_all (i ∷ is) l = remove_all is (remove_at i l)

module _ (encoded_length : Text → ℕ) (min_node_token : ℕ) where
  abbrev pub with_text : Text → HeaderNode → HeaderNode
  with_text text node = record node {
    text = text;
    text_token_count = count_tokens encoded_length text;
  }

  -- The body of `if total_tokens < min_node_token`.
  unfoldable pub absorb : ℕ → HeaderNode → ThinState → ThinState
  absorb i current_node s =
      let children = sorted leb (find_all_children i current_node.level s.result_list) in
      let (children_texts, removed) = collect s.result_list children [] s.nodes_to_remove in
      let merged = merge_texts current_node.text children_texts in
      record {
        result_list =
            if is_empty children_texts
            then s.result_list
            else modify_at i (with_text merged) s.result_list;
        nodes_to_remove = removed;
      }

  -- One round of the loop.
  unfoldable pub thin_at : ℕ → ThinState → ThinState
  thin_at i s = if elem i s.nodes_to_remove then s else elim (get_elem? s.result_list i) [
    | none ↦ s
    | some current_node ↦
        if ltb current_node.text_token_count min_node_token then absorb i current_node s else s
  ]

  -- `for i in range(n - 1, -1, -1)`
  unfoldable pub thin_down : ℕ → ThinState → ThinState
  thin_down zero s = s
  thin_down (suc i) s = thin_down i (thin_at i s)

  unfoldable pub thin_marks : List HeaderNode → ThinState
  thin_marks node_list =
      thin_down (length node_list) (record { result_list = node_list; nodes_to_remove = [] })

  unfoldable pub tree_thinning_for_index : List HeaderNode → List HeaderNode
  tree_thinning_for_index node_list =
      let s = thin_marks node_list in
      remove_all (sorted (λ a b. leb b a) s.nodes_to_remove) s.result_list
