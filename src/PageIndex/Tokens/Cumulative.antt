-- ===== src/PageIndex/Tokens/Cumulative.antt =====
-- The token count of a node is that of its text and the texts of the deeper run behind it.
use spark_workflow_main.Common.{
  ℕ, zero, suc, ◌+◌, ◌≡◌, refl, sym, ap, ◌∙◌, none, some, List, [], ◌∷◌, ◌++◌, leb, length,
  get_elem?, drop, if◌then◌else◌, Bool-cases, Option-cases, inl, inr, arith,
}
use spark_workflow_main.Common.Text.{Text, newline, is_empty}
use spark_workflow_main.PageIndex.{HeaderNode}
use spark_workflow_main.PageIndex.Tokens.{
  scan_children, find_all_children, text_at, modify_at, with_count, add_child_texts, count_tokens,
  count_at, count_down, update_node_list_with_text_token_count,
}

-- A text followed by the texts of the run of nodes deeper than `level`.
abbrev pub with_deeper : ℕ → Text → List HeaderNode → Text
with_deeper level total [] = total
with_deeper level total (node ∷ nodes) =
    if leb node.level level
    then total
    else with_deeper level (if is_empty node.text then total else total ++ newline ∷ node.text)
        nodes

pub get_elem?-of_drop :
    (l : List HeaderNode) (i : ℕ) (m : HeaderNode) (r : List HeaderNode)
    → drop i l ≡ m ∷ r
    → (get_elem? l i ≡ some m) × (drop (i + 1) l ≡ r)
get_elem?-of_drop [] zero m r h = absurd (cc)
get_elem?-of_drop [] (suc i) m r h = absurd (cc)
get_elem?-of_drop (x ∷ l) zero m r h = (cc, cc)
get_elem?-of_drop (x ∷ l) (suc i) m r h =
    let (a, b) = get_elem?-of_drop l i m r h in
    (a, ap (λ n. drop n (x ∷ l)) (let e : suc i + 1 ≡ suc (i + 1) = omega arith in e) ∙ b)

pub text_at-of_some :
    (l : List HeaderNode) (i : ℕ) (m : HeaderNode) → get_elem? l i ≡ some m → text_at l i ≡ m.text
text_at-of_some l i m e = ap (λ o. elim o as (λ _. Text) [ none ↦ [] | some node ↦ node.text ]) e

add_child_texts-scan :
    (l : List HeaderNode) (level : ℕ) (total : Text) (i : ℕ) (r : List HeaderNode)
    → drop i l ≡ r
    → add_child_texts l total (scan_children i level r) ≡ with_deeper level total r
add_child_texts-scan l level total i [] h = refl
add_child_texts-scan l level total i (m ∷ r) h =
    let (at, rest) = get_elem?-of_drop l i m r h in
    elim (Bool-cases (leb m.level level)) [
      | inl stop ↦ rw stop
      | inr go ↦ rw go (
          ap
            (λ t.
              add_child_texts l (if is_empty t then total else total ++ newline ∷ t)
                (scan_children (i + 1) level r))
            (text_at-of_some l i m at)
          ∙ add_child_texts-scan l level
              (if is_empty m.text then total else total ++ newline ∷ m.text) (i + 1) r rest)
    ]

module _ (encoded_length : Text → ℕ) where
  -- The reference: the count of each node from the node and what stands behind it.
  abbrev pub cumulative_count : HeaderNode → List HeaderNode → ℕ
  cumulative_count node behind =
      count_tokens encoded_length (with_deeper node.level node.text behind)

  abbrev pub counted : List HeaderNode → List HeaderNode
  counted [] = []
  counted (node ∷ nodes) = with_count (cumulative_count node nodes) node ∷ counted nodes

  count_at_zero :
      (node : HeaderNode) (nodes : List HeaderNode)
      → count_at encoded_length 0 (node ∷ nodes)
        ≡ with_count (cumulative_count node nodes) node ∷ nodes
  unfolding count_at find_all_children
  count_at_zero node nodes =
      ap (λ t. with_count (count_tokens encoded_length t) node ∷ nodes)
        (add_child_texts-scan (node ∷ nodes) node.level node.text 1 nodes refl)

  count_at-suc :
      (i : ℕ) (node : HeaderNode) (nodes : List HeaderNode)
      → count_at encoded_length (suc i) (node ∷ nodes) ≡ node ∷ count_at encoded_length i nodes
  unfolding count_at find_all_children
  count_at-suc i node nodes = elim (Option-cases (get_elem? nodes i)) [
    | inl out ↦ rw (out, count_at)
    | inr (m, at) ↦
        rw (at, count_at)
          (ap (λ t. node ∷ modify_at i (with_count (count_tokens encoded_length t)) nodes)
            (add_child_texts-scan (node ∷ nodes) m.level m.text (suc i + 1)
                (drop (suc i + 1) (node ∷ nodes)) refl
              ∙ ap (λ n. with_deeper m.level m.text (drop n (node ∷ nodes)))
                  (let e : suc i + 1 ≡ suc (i + 1) = omega arith in e)
              ∙ sym (add_child_texts-scan nodes m.level m.text (i + 1) (drop (i + 1) nodes) refl)))
  ]

  with_deeper-modify_at :
      (level n : ℕ) (total : Text) (i : ℕ) (l : List HeaderNode)
      → with_deeper level total (modify_at i (with_count n) l) ≡ with_deeper level total l
  with_deeper-modify_at level n total i [] = refl
  with_deeper-modify_at level n total zero (m ∷ l) = refl
  with_deeper-modify_at level n total (suc i) (m ∷ l) =
      ap (λ t. if leb m.level level then total else t)
        (with_deeper-modify_at level n
          (if is_empty m.text then total else total ++ newline ∷ m.text) i l)

  with_deeper-count_at :
      (level : ℕ) (total : Text) (i : ℕ) (l : List HeaderNode)
      → with_deeper level total (count_at encoded_length i l) ≡ with_deeper level total l
  unfolding count_at
  with_deeper-count_at level total i l = elim (Option-cases (get_elem? l i)) [
    | inl out ↦ rw (out, count_at)
    | inr (m, at) ↦ rw (at, count_at) (with_deeper-modify_at level _ total i l)
  ]

  with_deeper-count_down :
      (level : ℕ) (total : Text) (i : ℕ) (l : List HeaderNode)
      → with_deeper level total (count_down encoded_length i l) ≡ with_deeper level total l
  unfolding count_down
  with_deeper-count_down level total zero l = refl
  with_deeper-count_down level total (suc i) l =
      with_deeper-count_down level total i (count_at encoded_length i l)
      ∙ with_deeper-count_at level total i l

  -- The round at index 0 comes last.
  count_down-cons :
      (i : ℕ) (node : HeaderNode) (nodes : List HeaderNode)
      → count_down encoded_length (suc i) (node ∷ nodes)
        ≡ with_count (cumulative_count node nodes) node ∷ count_down encoded_length i nodes
  unfolding count_down
  count_down-cons zero node nodes = count_at_zero node nodes
  count_down-cons (suc i) node nodes =
      ap (λ l. count_down encoded_length (suc i) l) (count_at-suc i node nodes)
      ∙ count_down-cons i node (count_at encoded_length i nodes)
      ∙ ap
          (λ t.
            with_count (count_tokens encoded_length t) node
            ∷ count_down encoded_length i (count_at encoded_length i nodes))
          (with_deeper-count_at node.level node.text i nodes)

  count_down-counted : (l : List HeaderNode) → count_down encoded_length (length l) l ≡ counted l
  unfolding count_down
  count_down-counted [] = refl
  count_down-counted (node ∷ nodes) =
      count_down-cons (length nodes) node nodes
      ∙ ap (λ l. with_count (cumulative_count node nodes) node ∷ l) (count_down-counted nodes)

  -- The pass over the indices from the last to the first gives every node the token count of its
  -- text joined with the non-empty texts of the longest run of deeper nodes behind it, and
  -- changes nothing else.
  pub update_node_list-counted :
      (l : List HeaderNode) → update_node_list_with_text_token_count encoded_length l ≡ counted l
  unfolding update_node_list_with_text_token_count
  update_node_list-counted l = count_down-counted l
