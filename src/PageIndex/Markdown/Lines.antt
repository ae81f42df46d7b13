-- ===== src/PageIndex/Markdown/Lines.antt =====
-- The headers that are found stand in the text, in order, so their texts can be read.
use spark_workflow_main.Common.{
  ℕ, suc, ◌+◌, ◌-◌, ◌≤◌, ◌≡◌, refl, some, List, [], ◌∷◌, get_elem?, subst, Bool-cases, Option-cases,
  inl, inr, arith,
}
use spark_workflow_main.Common.Text.{Text, newline, split, strip, is_empty}
use spark_workflow_main.PageIndex.Markdown.{
  HeaderLine, match_header, header_of_line, prepend, scan_lines, extract_nodes_from_markdown,
}

-- The header was read off its line, which stands at its number.
abbrev pub IsHeaderAt : ℕ → List Text → HeaderLine → Type 0
IsHeaderAt n lines h =
    (line : Text) × (title : Text) × (get_elem? lines (h.line_num - n) ≡ some line)
    × (match_header (strip line) ≡ some title)
    × (h.node_title ≡ strip title)

-- Line numbers grow, from `n` on.
abbrev pub IsAscending : ℕ → List HeaderLine → Type 0
IsAscending n [] = Unit
IsAscending n (h ∷ hs) = (n ≤ h.line_num) × IsAscending (h.line_num + 1) hs

abbrev pub AllHeaders : ℕ → List Text → List HeaderLine → Type 0
AllHeaders n lines [] = Unit
AllHeaders n lines (h ∷ hs) = IsHeaderAt n lines h × AllHeaders n lines hs

IsAscending-mono : (m n : ℕ) (hs : List HeaderLine) → m ≤ n → IsAscending n hs → IsAscending m hs
IsAscending-mono m n [] le a = tt
IsAscending-mono m n (h ∷ hs) le a = (omega arith, a.1)

-- What a line adds is its header, if it has one.
abbrev OfLine : ℕ → Text → List HeaderLine → Type 0
OfLine n line [] = Unit
OfLine n line (h ∷ hs) =
    (h.line_num ≡ n)
    × ((title : Text) × (match_header (strip line) ≡ some title) × (h.node_title ≡ strip title))
    × (hs ≡ [])

header_of_line-OfLine : (n : ℕ) (line : Text) → OfLine n line (header_of_line n line)
unfolding header_of_line
header_of_line-OfLine n line = elim (Bool-cases (is_empty (strip line))) [
  | inl empty ↦ rw empty tt
  | inr other ↦ elim (Option-cases (match_header (strip line))) [
    | inl plain ↦ rw (other, plain) tt
    | inr (title, e) ↦ rw (other, e) (refl, (title, e, refl), refl)
  ]
]

prepend-IsAscending :
    (n : ℕ) (line : Text) (xs hs : List HeaderLine)
    → OfLine n line xs
    → IsAscending (n + 1) hs
    → IsAscending n (prepend xs hs)
prepend-IsAscending n line [] hs o a = IsAscending-mono n (n + 1) hs (omega arith) a
prepend-IsAscending n line (x ∷ xs) hs (at, _, last) a = rw (at, last) (omega arith, a)

scan_lines-IsAscending : (n : ℕ) (lines : List Text) → IsAscending n (scan_lines n lines)
unfolding scan_lines
scan_lines-IsAscending n [] = tt
scan_lines-IsAscending n (line ∷ lines) =
    prepend-IsAscending n line (header_of_line n line) (scan_lines (n + 1) lines)
      (header_of_line-OfLine n line) (scan_lines-IsAscending (n + 1) lines)

IsHeaderAt-later :
    (n : ℕ) (line : Text) (lines : List Text) (hs : List HeaderLine)
    → IsAscending (n + 1) hs
    → AllHeaders (n + 1) lines hs
    → AllHeaders n (line ∷ lines) hs
IsHeaderAt-later n line lines [] a h = tt
IsHeaderAt-later n line lines (x ∷ hs) a ((l, title, at, m, e), h) = (
  (l, title, subst (λ k. get_elem? (line ∷ lines) k ≡ some l) index at, m, e),
  IsHeaderAt-later n line lines hs (IsAscending-mono (n + 1) (x.line_num + 1) hs (omega arith) a.1)
      h,
)
  where
    index : suc (x.line_num - (n + 1)) ≡ x.line_num - n
    index = omega arith

prepend-AllHeaders :
    (n : ℕ) (line : Text) (lines : List Text) (xs hs : List HeaderLine)
    → OfLine n line xs
    → AllHeaders n (line ∷ lines) hs
    → AllHeaders n (line ∷ lines) (prepend xs hs)
prepend-AllHeaders n line lines [] hs o h = h
prepend-AllHeaders n line lines (x ∷ xs) hs (at, (title, m, e), last) h =
    ((line, title, subst (λ k. get_elem? (line ∷ lines) k ≡ some line) index refl, m, e), rw last h)
  where
    index : 0 ≡ x.line_num - n
    index = omega arith

scan_lines-AllHeaders : (n : ℕ) (lines : List Text) → AllHeaders n lines (scan_lines n lines)
unfolding scan_lines
scan_lines-AllHeaders n [] = tt
scan_lines-AllHeaders n (line ∷ lines) =
    prepend-AllHeaders n line lines (header_of_line n line) (scan_lines (n + 1) lines)
      (header_of_line-OfLine n line)
      (IsHeaderAt-later n line lines (scan_lines (n + 1) lines)
        (scan_lines-IsAscending (n + 1) lines) (scan_lines-AllHeaders (n + 1) lines))

-- The extracted headers stand in the text in ascending order, each at the line of its number,
-- whose stripped text matches the header pattern with the title that is recorded.
pub extract_nodes-IsAscending :
    (md : Text)
    → let (nodes, lines) = extract_nodes_from_markdown md in
      IsAscending 1 nodes × AllHeaders 1 lines nodes
unfolding extract_nodes_from_markdown
extract_nodes-IsAscending md =
    (scan_lines-IsAscending 1 (split newline md), scan_lines-AllHeaders 1 (split newline md))
