-- ===== src/PageIndex/Tests.antt =====
-- Runs of the PageIndex model on a small text, and its theorems at such inputs.
use Prim.Native.String.{String}
use spark_workflow_main.Common.{ℕ, ◌+◌, ◌≡◌, refl, some, none, List, [], ◌∷◌, ◌++◌, map, length}
use spark_workflow_main.Common.Eq.{nat_eq}
use spark_workflow_main.Common.Text.{
  Text, lit, newline, split, strip, lstrip, rstrip, is_space, str, zfill,
}
use spark_workflow_main.PageIndex.{HeaderNode, NodeInfo, TreeNode, Forest, inner, leaf, nil, cons}
use spark_workflow_main.PageIndex.Markdown.{
  match_header, header_of_line, scan_lines, extract_nodes_from_markdown, fill_texts,
  extract_node_text_content,
}
use spark_workflow_main.PageIndex.Markdown.Lines.{
  IsAscending, AllHeaders, extract_nodes-IsAscending,
}
use spark_workflow_main.PageIndex.Markdown.Sections.{
  NodesAscend, texts, section_texts, all_sections, from_first, extract_node_text_content_total,
}
use spark_workflow_main.PageIndex.Tokens.{
  count_tokens, find_all_children, update_node_list_with_text_token_count,
}
use spark_workflow_main.PageIndex.Tokens.Cumulative.{counted, update_node_list-counted}
use spark_workflow_main.PageIndex.Thinning.{
  collect, merge_texts, absorb, thin_at, thin_down, thin_marks, remove_all, tree_thinning_for_index,
}
use spark_workflow_main.PageIndex.Thinning.Marks.{tree_thinning-thinned}
use spark_workflow_main.PageIndex.Thinning.Reference.{thinned}
use spark_workflow_main.PageIndex.Build.{build_tree_from_nodes, node_info}
use spark_workflow_main.PageIndex.Build.Spans.{number_from, forest_of}
use spark_workflow_main.PageIndex.Build.Shape.{build_tree-eq-forest_of}
use spark_workflow_main.PageIndex.Tree.{write_node_ids, clean_tree_for_output}
use spark_workflow_main.PageIndex.Tree.Order.{infos, node_infos, structure_to_list-build_tree}
use spark_workflow_main.PageIndex.Tree.Ids.{AreNumbered, node_counts, write_node_ids-IsNumbered}
use spark_workflow_main.PageIndex.Tree.Cleaned.{IsCleaned, AreCopies, clean_tree-IsCopy}

abbrev header : String → ℕ → ℕ → String → ℕ → HeaderNode
header title line_num level text count = record {
  title = lit title;
  line_num = line_num;
  level = level;
  text = lit text;
  text_token_count = count;
}

abbrev headers : List HeaderNode
headers =
    header "A" 1 1 "a" 9
    ∷ header "A1" 2 2 "b" 2
    ∷ header "A11" 3 3 "c" 1
    ∷ header "A2" 4 2 "d" 9
    ∷ header "B" 5 1 "e" 1
    ∷ []

abbrev titles : List NodeInfo → List Text
titles l = map (λ i. i.title) l

abbrev roots : Forest → List Text
roots nil = []
roots (cons (inner _ i _) f) = i.title ∷ roots f
roots (cons (TreeNode.leaf _ i) f) = i.title ∷ roots f

roots_of_headers : roots (build_tree_from_nodes headers) ≡ lit "A" ∷ lit "B" ∷ []
unfolding build_tree_from_nodes str zfill
roots_of_headers = refl

abbrev markdown : Text
markdown =
    lit "intro"
    ++ newline ∷ lit "# One"
    ++ newline ∷ lit "x"
    ++ newline ∷ lit "## Two "
    ++ newline ∷ lit "y"

found_lines : map (λ h. h.line_num) (extract_nodes_from_markdown markdown).0 ≡ 2 ∷ 4 ∷ []
unfolding extract_nodes_from_markdown split scan_lines header_of_line match_header strip lstrip
    rstrip is_space
found_lines = refl

abbrev encoded : Text → ℕ
encoded t = length t

thinned_titles :
    map (λ h. h.title) (tree_thinning_for_index encoded 3 headers)
    ≡ lit "A" ∷ lit "A1" ∷ lit "A2" ∷ lit "B" ∷ []
unfolding tree_thinning_for_index thin_marks thin_down thin_at absorb collect merge_texts remove_all
    find_all_children count_tokens strip lstrip rstrip is_space
thinned_titles = refl

build_tree-eq-forest_of_example : build_tree_from_nodes headers ≡ forest_of (number_from 1 headers)
build_tree-eq-forest_of_example = build_tree-eq-forest_of headers

structure_to_list-build_tree_example : infos (build_tree_from_nodes headers) ≡ node_infos 1 headers
structure_to_list-build_tree_example = structure_to_list-build_tree headers

write_node_ids-IsNumbered_example :
    let f = build_tree_from_nodes headers in
    AreNumbered 0 f (write_node_ids f 0).0 × ((write_node_ids f 0).1 ≡ 0 + node_counts f)
write_node_ids-IsNumbered_example = write_node_ids-IsNumbered (build_tree_from_nodes headers) 0

-- A node without the key "nodes" beside one that has it.
abbrev bare : Forest
bare =
    cons (inner 1 (node_info 1 (header "A" 1 1 "a" 9)) nil)
      (cons (leaf 2 (node_info 2 (header "B" 2 1 "b" 9))) nil)

clean_bare : clean_tree_for_output bare ≡ none
unfolding clean_tree_for_output
clean_bare = refl

clean_tree-IsCopy_example :
    IsCleaned bare (clean_tree_for_output bare)
    × ((g : Forest) × ((clean_tree_for_output (build_tree_from_nodes headers) ≡ some g)
          × AreCopies (build_tree_from_nodes headers) g))
clean_tree-IsCopy_example = clean_tree-IsCopy bare headers

extract_nodes-IsAscending_example :
    let (nodes, lines) = extract_nodes_from_markdown markdown in
    IsAscending 1 nodes × AllHeaders 1 lines nodes
extract_nodes-IsAscending_example = extract_nodes-IsAscending markdown

extract_node_text_content_total_example :
    let (nodes, lines) = extract_nodes_from_markdown markdown in
    (all : List HeaderNode) × (extract_node_text_content nodes lines ≡ some (fill_texts all lines))
    × NodesAscend 1 all
    × (texts (fill_texts all lines) ≡ section_texts all lines)
    × (all_sections all lines ≡ from_first all lines)
extract_node_text_content_total_example = extract_node_text_content_total markdown

update_node_list-counted_example :
    update_node_list_with_text_token_count encoded headers ≡ counted encoded headers
update_node_list-counted_example = update_node_list-counted encoded headers

tree_thinning-thinned_example :
    tree_thinning_for_index encoded 3 headers ≡ thinned encoded 3 headers
tree_thinning-thinned_example = tree_thinning-thinned encoded 3 headers
