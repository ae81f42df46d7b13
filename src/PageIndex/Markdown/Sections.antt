-- ===== src/PageIndex/Markdown/Sections.antt =====
-- The texts of the headers: they can always be read, and they cut the text without a gap.
use spark_workflow_main.Common.{
  ℕ, zero, suc, ◌+◌, ◌-◌, ◌≤◌, ◌<◌, ◌≡◌, refl, sym, ap, ◌∙◌, some, List, [], ◌∷◌, ◌++◌, length,
  take, drop, get_elem?, Option-cases, inl, inr, arith,
}
use spark_workflow_main.Common.Text.{Text, newline, strip, join}
use spark_workflow_main.PageIndex.{HeaderNode}
use spark_workflow_main.PageIndex.Markdown.{
  HeaderLine, raw_level, extract_nodes_from_markdown, levelled_nodes, section_lines, fill_texts,
  extract_node_text_content,
}
use spark_workflow_main.PageIndex.Markdown.Lines.{
  IsAscending, AllHeaders, extract_nodes-IsAscending,
}

abbrev pub NodesAscend : ℕ → List HeaderNode → Type 0
NodesAscend n [] = Unit
NodesAscend n (h ∷ hs) = (n ≤ h.line_num) × NodesAscend (h.line_num + 1) hs

NodesAscend-mono : (m n : ℕ) (hs : List HeaderNode) → m ≤ n → NodesAscend n hs → NodesAscend m hs
NodesAscend-mono m n [] le a = tt
NodesAscend-mono m n (h ∷ hs) le a = (omega arith, a.1)

abbrev pub AllWithin : ℕ → List HeaderNode → Type 0
AllWithin n [] = Unit
AllWithin n (h ∷ hs) = (h.line_num ≤ n) × AllWithin n hs

get_elem?-some-lt {ℓ} :
    {A : Type ℓ} (l : List A) (i : ℕ) (a : A) → get_elem? l i ≡ some a → i < length l
get_elem?-some-lt [] i a h = absurd (cc)
get_elem?-some-lt (x ∷ l) zero a h = omega arith
get_elem?-some-lt (x ∷ l) (suc i) a h = omega (arith, get_elem?-some-lt l i a h)

-- The first loop keeps the order of the headers, and never indexes out of the text.
levelled_nodes_total :
    (n : ℕ) (lines : List Text) (hs : List HeaderLine)
    → 1 ≤ n
    → IsAscending n hs
    → AllHeaders 1 lines hs
    → (all : List HeaderNode) × (levelled_nodes hs lines ≡ some all)
      × NodesAscend n all
      × AllWithin (length lines) all
unfolding levelled_nodes
levelled_nodes_total n lines [] pos a h = ([], refl, tt, tt)
levelled_nodes_total n lines (x ∷ hs) pos a h =
    let (line, title, at, m, e) = h.0 in
    let (all, ok, up, fits) =
      levelled_nodes_total (x.line_num + 1) lines hs (omega arith) a.1 h.1 in
    let here = get_elem?-some-lt lines (x.line_num - 1) line at in
    let first = a.0 in
    elim (Option-cases (raw_level line)) [
      | inl plain ↦ (
        all,
        rw (at, ok, plain, levelled_nodes),
        NodesAscend-mono n (x.line_num + 1) all (omega arith) up,
        fits,
      )
      | inr (level, deep) ↦ (
        record {
          title = x.node_title;
          line_num = x.line_num;
          level = level;
          text = [];
          text_token_count = 0;
        }
            ∷ all,
        rw (at, ok, deep, levelled_nodes),
        (first, up),
        (omega arith, fits),
      )
    ]

-- The lines of all sections, in order.
abbrev pub all_sections : List HeaderNode → List Text → List Text
all_sections [] lines = []
all_sections (h ∷ hs) lines = section_lines h hs lines ++ all_sections hs lines

-- The text from the first header on.
abbrev pub from_first : List HeaderNode → List Text → List Text
from_first [] lines = []
from_first (h ∷ hs) lines = drop (h.line_num - 1) lines

take-append-drop : (k : ℕ) (l : List Text) → take k l ++ drop k l ≡ l
take-append-drop zero l = refl
take-append-drop (suc k) [] = refl
take-append-drop (suc k) (x ∷ l) = ap (λ t. x ∷ t) (take-append-drop k l)

drop-nil : (n : ℕ) → drop {A = Text} n [] ≡ []
drop-nil zero = refl
drop-nil (suc n) = refl

drop-drop : (a k : ℕ) (l : List Text) → drop k (drop a l) ≡ drop (a + k) l
drop-drop zero k l = ap (λ n. drop n l) (omega arith)
drop-drop (suc a) k [] = drop-nil k ∙ sym (drop-nil (suc a + k))
drop-drop (suc a) k (x ∷ l) =
    drop-drop a k l ∙ ap (λ n. drop n (x ∷ l)) (let e : suc (a + k) ≡ suc a + k = omega arith in e)

take-append-drop-from :
    (a b : ℕ) (l : List Text) → a ≤ b → take (b - a) (drop a l) ++ drop b l ≡ drop a l
take-append-drop-from a b l h =
    ap (λ t. take (b - a) (drop a l) ++ t)
      (ap (λ n. drop n l) (let e : b ≡ a + (b - a) = omega arith in e)
        ∙ sym (drop-drop a (b - a) l))
    ∙ take-append-drop (b - a) (drop a l)

drop_all : (l : List Text) → drop (length l) l ≡ []
drop_all [] = refl
drop_all (x ∷ l) = drop_all l

sections_cover :
    (lines : List Text) (hs : List HeaderNode) (n : ℕ)
    → NodesAscend n hs
    → AllWithin (length lines) hs
    → all_sections hs lines ≡ from_first hs lines
sections_cover lines [] n a w = refl
sections_cover lines (h ∷ []) n a w =
    ap (λ t. section_lines h [] lines ++ t) (sym (drop_all lines))
    ∙ take-append-drop-from (h.line_num - 1) (length lines) lines (omega arith)
sections_cover lines (h ∷ k ∷ hs) n a w =
    ap (λ t. section_lines h (k ∷ hs) lines ++ t)
      (sections_cover lines (k ∷ hs) (h.line_num + 1) a.1 w.1)
    ∙ take-append-drop-from (h.line_num - 1) (k.line_num - 1) lines (omega arith)

-- The text of a node is its section, joined and stripped.
abbrev pub section_texts : List HeaderNode → List Text → List Text
section_texts [] lines = []
section_texts (h ∷ hs) lines =
    strip (join (newline ∷ []) (section_lines h hs lines)) ∷ section_texts hs lines

abbrev pub texts : List HeaderNode → List Text
texts [] = []
texts (h ∷ hs) = h.text ∷ texts hs

fill_texts-texts :
    (hs : List HeaderNode) (lines : List Text)
    → texts (fill_texts hs lines) ≡ section_texts hs lines
unfolding fill_texts
fill_texts-texts [] lines = refl
fill_texts-texts (h ∷ hs) lines =
    ap (λ t. strip (join (newline ∷ []) (section_lines h hs lines)) ∷ t) (fill_texts-texts hs lines)

-- On the headers of a text, `extract_node_text_content` raises no IndexError. The headers that it
-- keeps stand in ascending order; each gets the stripped text of its section, and the sections
-- in order are exactly the lines from the first kept header to the end of the text.
pub extract_node_text_content_total :
    (md : Text)
    → let (nodes, lines) = extract_nodes_from_markdown md in
      (all : List HeaderNode) × (extract_node_text_content nodes lines
        ≡ some (fill_texts all lines))
      × NodesAscend 1 all
      × (texts (fill_texts all lines) ≡ section_texts all lines)
      × (all_sections all lines ≡ from_first all lines)
unfolding extract_node_text_content
extract_node_text_content_total md =
    let (nodes, lines) = extract_nodes_from_markdown md in
    let (up, headers) = extract_nodes-IsAscending md in
    let (all, ok, ascend, fits) = levelled_nodes_total 1 lines nodes (omega arith) up headers in
    (
      all,
      rw (ok, extract_node_text_content),
      ascend,
      fill_texts-texts all lines,
      sections_cover lines all 1 ascend fits,
    )
