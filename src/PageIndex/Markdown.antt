-- ===== src/PageIndex/Markdown.antt =====
-- `extract_nodes_from_markdown` and `extract_node_text_content` of tree_builder.py: the headers of
-- a markdown text, and the text of each up to the next.
pub mod Lines
pub mod Sections
use spark_workflow_main.Common.{
  ℕ, suc, ◌+◌, ◌-◌, Option, none, some, Bool, true, false, List, [], ◌∷◌, ◌&&◌, leb, ltb, ◌==◌,
  length, get_elem?, take, drop, take_while, map, min, if◌then◌else◌,
}
use spark_workflow_main.Common.Text.{Text, newline, is_space, lstrip, strip, is_empty, join, split}
use spark_workflow_main.PageIndex.{HeaderNode}

abbrev pub hash : ℕ
hash = 35

abbrev pub count_hashes : Text → ℕ
count_hashes s = length (take_while (λ c. c == hash) s)

abbrev pub starts_with_space : Text → Bool
starts_with_space [] = false
starts_with_space (c ∷ s) = is_space c

-- The second group of `^(#{1,6})\s+(.+)$`, matched against a line that is stripped and so ends in
-- no white space.
unfoldable pub match_header : Text → Option Text
match_header s =
    let level = count_hashes s in
    let rest = drop level s in
    let body = lstrip rest in
    if leb 1 level && (leb level 6 && starts_with_space rest)
    then (if is_empty body then none else some body)
    else none

pub record HeaderLine : Type 0 where
  pub node_title : Text
  pub line_num : ℕ

-- What one line adds to the node list.
unfoldable pub header_of_line : ℕ → Text → List HeaderLine
header_of_line line_num line =
    let stripped_line = strip line in
    if is_empty stripped_line then [] else elim (match_header stripped_line) [
      | none ↦ []
      | some title ↦ record { node_title = strip title; line_num = line_num } ∷ []
    ]

abbrev pub prepend {ℓ} : {A : Type ℓ} → List A → List A → List A
prepend [] ys = ys
prepend (x ∷ xs) ys = x ∷ prepend xs ys

-- `for line_num, line in enumerate(lines, 1)`, from a given number on
unfoldable pub scan_lines : ℕ → List Text → List HeaderLine
scan_lines n [] = []
scan_lines n (line ∷ lines) = prepend (header_of_line n line) (scan_lines (n + 1) lines)

unfoldable pub extract_nodes_from_markdown : Text → List HeaderLine × List Text
extract_nodes_from_markdown markdown_content =
    let lines = split newline markdown_content in (scan_lines 1 lines, lines)

-- The level by `^(#{1,6})` on the line as it stands, not stripped.
abbrev pub raw_level : Text → Option ℕ
raw_level line = let n = count_hashes line in if n == 0 then none else some (min n 6)

-- The first loop; `none` is the IndexError of `markdown_lines[node["line_num"] - 1]`.
unfoldable pub levelled_nodes : List HeaderLine → List Text → Option (List HeaderNode)
levelled_nodes [] lines = some []
levelled_nodes (node ∷ nodes) lines = elim (get_elem? lines (node.line_num - 1)) [
  | none ↦ none
  | some line_content ↦ elim (levelled_nodes nodes lines) [
    | none ↦ none
    | some all_nodes ↦ elim (raw_level line_content) [
      | none ↦ some all_nodes
      | some level ↦ some (
          record {
            title = node.node_title;
            line_num = node.line_num;
            level = level;
            text = [];
            text_token_count = 0;
          }
          ∷ all_nodes)
    ]
  ]
]

-- The line behind the last of a node's section: that of the next node, or the end of the text.
abbrev pub end_line : List HeaderNode → List Text → ℕ
end_line [] lines = length lines
end_line (next ∷ nodes) lines = next.line_num - 1

-- `markdown_lines[start_line:end_line]`
abbrev pub section_lines : HeaderNode → List HeaderNode → List Text → List Text
section_lines node nodes lines =
    let start_line = node.line_num - 1 in
    take (end_line nodes lines - start_line) (drop start_line lines)

-- The second loop.
unfoldable pub fill_texts : List HeaderNode → List Text → List HeaderNode
fill_texts [] lines = []
fill_texts (node ∷ nodes) lines =
    (record node { text = strip (join (newline ∷ []) (section_lines node nodes lines)) })
    ∷ fill_texts nodes lines

unfoldable pub extract_node_text_content : List HeaderLine → List Text → Option (List HeaderNode)
extract_node_text_content node_list markdown_lines =
    elim (levelled_nodes node_list markdown_lines) [
      | none ↦ none
      | some all_nodes ↦ some (fill_texts all_nodes markdown_lines)
    ]
