-- ===== src/PageIndex/Thinning/Rounds.antt =====
-- The rounds of the thinning: on a list with one more node in front they are those of the list,
-- at indices one higher, and then the round of the first node.
use spark_workflow_main.Common.{
  ℕ, zero, suc, ◌+◌, ◌≡◌, refl, sym, ap, ◌∙◌, true, false, List, [], ◌∷◌, leb, ltb, map, length,
  get_elem?, drop, Bool-cases, Option-cases, inl, inr, if◌then◌else◌, arith,
}
use spark_workflow_main.Common.Eq.{elem, nat_eq}
use spark_workflow_main.Common.Sort.{sorted, insert_sorted}
use spark_workflow_main.Common.Text.{Text, is_empty}
use spark_workflow_main.PageIndex.{HeaderNode}
use spark_workflow_main.PageIndex.Tokens.{scan_children, find_all_children, modify_at}
use spark_workflow_main.PageIndex.Thinning.{
  ThinState, collect, absorb, thin_at, thin_down, thin_marks, with_text, merge_texts,
}

pub scan_children-suc :
    (j k level : ℕ) (l : List HeaderNode)
    → j ≡ suc k
    → scan_children j level l ≡ map suc (scan_children k level l)
scan_children-suc j k level [] e = refl
scan_children-suc j k level (node ∷ l) e = elim (Bool-cases (leb node.level level)) [
  | inl stop ↦ rw stop refl
  | inr go ↦ rw (go, scan_children-suc (j + 1) (k + 1) level l (omega (arith, e)), e) refl
]

-- The run of children is in ascending order already.
pub sorted-scan_children :
    (k level : ℕ) (l : List HeaderNode)
    → sorted leb (scan_children k level l) ≡ scan_children k level l
sorted-scan_children k level [] = refl
sorted-scan_children k level (node ∷ l) = elim (Bool-cases (leb node.level level)) [
  | inl stop ↦ rw stop refl
  | inr go ↦ rw (go, sorted-scan_children (k + 1) level l) (first l)
]
  where
    first :
        (l : List HeaderNode)
        → insert_sorted leb k (scan_children (k + 1) level l) ≡ k ∷ scan_children (k + 1) level l
    first [] = refl
    first (m ∷ l) = elim (Bool-cases (leb m.level level)) [
      | inl stop ↦ rw stop refl
      | inr go ↦ let le : leb k (k + 1) ≡ true = ground arith in rw (go, le) refl
    ]

sorted_children-suc :
    (i level : ℕ) (node : HeaderNode) (l : List HeaderNode)
    → sorted leb (find_all_children (suc i) level (node ∷ l))
      ≡ map suc (sorted leb (find_all_children i level l))
unfolding find_all_children
sorted_children-suc i level node l =
    sorted-scan_children (suc i + 1) level (drop (suc i + 1) (node ∷ l))
    ∙ ap (λ n. scan_children (suc i + 1) level (drop n (node ∷ l)))
        (let e : suc i + 1 ≡ suc (i + 1) = omega arith in e)
    ∙ scan_children-suc (suc i + 1) (i + 1) level (drop (i + 1) l) (omega arith)
    ∙ ap (map suc) (sym (sorted-scan_children (i + 1) level (drop (i + 1) l)))

pub elem-map-suc : (i : ℕ) (is : List ℕ) → elem (suc i) (map suc is) ≡ elem i is
elem-map-suc i [] = refl
elem-map-suc i (j ∷ is) = ground (arith, elem-map-suc i is)

pub elem-zero-map : (is : List ℕ) → elem 0 (map suc is) ≡ false
elem-zero-map [] = refl
elem-zero-map (j ∷ is) = ground (arith, elem-zero-map is)

abbrev pub later : List Text × List ℕ → List Text × List ℕ
later (texts, marks) = (texts, map suc marks)

pub collect-suc :
    (node : HeaderNode) (l : List HeaderNode) (is : List ℕ) (ts : List Text) (marks : List ℕ)
    → collect (node ∷ l) (map suc is) ts (map suc marks) ≡ later (collect l is ts marks)
unfolding collect
collect-suc node l [] ts marks = refl
collect-suc node l (i ∷ is) ts marks = elim (Bool-cases (elem i marks)) [
  | inl known ↦ rw (collect, elem-map-suc i marks, known) (collect-suc node l is ts marks)
  | inr new ↦ rw (collect, elem-map-suc i marks, new) (collect-suc node l is _ (i ∷ marks))
]

-- A state with one more node in front.
abbrev pub in_front : HeaderNode → ThinState → ThinState
in_front node s = record {
  result_list = node ∷ s.result_list;
  nodes_to_remove = map suc s.nodes_to_remove;
}

module _ (encoded_length : Text → ℕ) (min_node_token : ℕ) where
  -- What the body does with the texts and the marks that it has collected.
  abbrev pub outcome : ℕ → HeaderNode → List HeaderNode → List Text × List ℕ → ThinState
  outcome i node l (texts, marks) = record {
    result_list =
        if is_empty texts
        then l
        else modify_at i (with_text encoded_length min_node_token (merge_texts node.text texts)) l;
    nodes_to_remove = marks;
  }

  absorb-outcome :
      (i : ℕ) (node : HeaderNode) (s : ThinState)
      → absorb encoded_length min_node_token i node s
        ≡ outcome i node s.result_list (
            collect s.result_list
              (sorted leb (find_all_children i node.level s.result_list))
              []
              s.nodes_to_remove)
  unfolding absorb
  absorb-outcome i node s = refl

  outcome-suc :
      (i : ℕ) (front node : HeaderNode) (l : List HeaderNode) (found : List Text × List ℕ)
      → outcome (suc i) node (front ∷ l) (later found) ≡ in_front front (outcome i node l found)
  outcome-suc i front node l ([], marks) = refl
  outcome-suc i front node l (t ∷ ts, marks) = refl

  absorb-suc :
      (i : ℕ) (front node : HeaderNode) (s : ThinState)
      → absorb encoded_length min_node_token (suc i) node (in_front front s)
        ≡ in_front front (absorb encoded_length min_node_token i node s)
  absorb-suc i front node s =
      absorb-outcome (suc i) node (in_front front s)
      ∙ ap
          (λ is.
            outcome (suc i) node (front ∷ s.result_list)
              (collect (front ∷ s.result_list) is [] (map suc s.nodes_to_remove)))
          (sorted_children-suc i node.level front s.result_list)
      ∙ ap (outcome (suc i) node (front ∷ s.result_list)) (
          collect-suc front s.result_list
            (sorted leb (find_all_children i node.level s.result_list)) [] s.nodes_to_remove)
      ∙ outcome-suc i front node s.result_list _
      ∙ ap (in_front front) (sym (absorb-outcome i node s))

  thin_at-suc :
      (i : ℕ) (front : HeaderNode) (s : ThinState)
      → thin_at encoded_length min_node_token (suc i) (in_front front s)
        ≡ in_front front (thin_at encoded_length min_node_token i s)
  unfolding thin_at
  thin_at-suc i front s = elim (Bool-cases (elem i s.nodes_to_remove)) [
    | inl marked ↦ rw (thin_at, elem-map-suc i s.nodes_to_remove, marked) refl
    | inr kept ↦ elim (Option-cases (get_elem? s.result_list i)) [
      | inl out ↦ rw (thin_at, elem-map-suc i s.nodes_to_remove, kept, out) refl
      | inr (node, at) ↦ elim (Bool-cases (ltb node.text_token_count min_node_token)) [
        | inl short ↦
            rw (thin_at, elem-map-suc i s.nodes_to_remove, kept, at, short)
              (absorb-suc i front node s)
        | inr long ↦ rw (thin_at, elem-map-suc i s.nodes_to_remove, kept, at, long) refl
      ]
    ]
  ]

  thin_down-suc :
      (i : ℕ) (front : HeaderNode) (s : ThinState)
      → thin_down encoded_length min_node_token (suc i) (in_front front s)
        ≡ thin_at encoded_length min_node_token 0
            (in_front front (thin_down encoded_length min_node_token i s))
  unfolding thin_down
  thin_down-suc zero front s = refl
  thin_down-suc (suc i) front s =
      ap (thin_down encoded_length min_node_token (suc i)) (thin_at-suc i front s)
      ∙ thin_down-suc i front (thin_at encoded_length min_node_token i s)

  pub thin_marks-cons :
      (node : HeaderNode) (nodes : List HeaderNode)
      → thin_marks encoded_length min_node_token (node ∷ nodes)
        ≡ thin_at encoded_length min_node_token 0
            (in_front node (thin_marks encoded_length min_node_token nodes))
  unfolding thin_marks
  thin_marks-cons node nodes = thin_down-suc (length nodes) node _

  -- The round of a first node that is too short.
  pub thin_at-first :
      (node : HeaderNode) (l : List HeaderNode) (marks : List ℕ)
      → ltb node.text_token_count min_node_token ≡ true
      → thin_at encoded_length min_node_token 0
          (in_front node (record { result_list = l; nodes_to_remove = marks }))
        ≡ outcome 0 node (node ∷ l) (later (collect l (scan_children 0 node.level l) [] marks))
  unfolding thin_at find_all_children
  thin_at-first node l marks short =
      rw (thin_at, elem-zero-map marks, short)
        (absorb-outcome 0 node (in_front node (record { result_list = l; nodes_to_remove = marks }))
          ∙ ap (λ is. outcome 0 node (node ∷ l) (collect (node ∷ l) is [] (map suc marks)))
              (sorted-scan_children 1 node.level l ∙ scan_children-suc 1 0 node.level l refl)
          ∙ ap (outcome 0 node (node ∷ l))
              (collect-suc node l (scan_children 0 node.level l) [] marks))

  pub thin_at-long :
      (node : HeaderNode) (s : ThinState)
      → ltb node.text_token_count min_node_token ≡ false
      → thin_at encoded_length min_node_token 0 (in_front node s) ≡ in_front node s
  unfolding thin_at
  thin_at-long node s long = rw (thin_at, elem-zero-map s.nodes_to_remove, long) refl
