-- ===== src/PageIndex/Thinning/Collected.antt =====
-- The collection of texts and marks over a run of children, and the joining of the texts.
use spark_workflow_main.Common.{
  ℕ, suc, ◌+◌, ◌≤◌, ◌<◌, ◌≡◌, refl, sym, ap, ◌∙◌, Bool, true, false, not, ◌&&◌, ◌||◌, ◌==◌, List,
  [], ◌∷◌, ◌++◌, leb, map, drop, append_assoc, append-nil, Bool-cases, inl, inr, if◌then◌else◌,
  arith,
}
use spark_workflow_main.Common.Eq.{elem, nat_eq}
use spark_workflow_main.Common.Text.{Text, newline, strip, is_empty, ends_with_newline}
use spark_workflow_main.PageIndex.{HeaderNode}
use spark_workflow_main.PageIndex.Tokens.{scan_children}
use spark_workflow_main.PageIndex.Tokens.Cumulative.{get_elem?-of_drop, text_at-of_some}
use spark_workflow_main.PageIndex.Thinning.{collect, merge_texts}
use spark_workflow_main.PageIndex.Thinning.Reference.{
  Masked, mark_run, run_kept, texts_of, joined_texts,
}
use spark_workflow_main.PageIndex.Thinning.Removal.{nodes_of, marked_from, AreDistinct}
use spark_workflow_main.PageIndex.Thinning.Rounds.{elem-map-suc}

pub elem-collect :
    (l : List HeaderNode) (is : List ℕ) (ts : List Text) (marks : List ℕ) (i : ℕ)
    → elem i (collect l is ts marks).1 ≡ (elem i is || elem i marks)
unfolding collect
elem-collect l [] ts marks i = refl
elem-collect l (j ∷ is) ts marks i = elim (Bool-cases (elem j marks)) [
  | inl known ↦ rw (known, collect, elem-collect l is ts marks i) (old j known)
  | inr new ↦ rw (new, collect, elem-collect l is _ (j ∷ marks) i) (ground arith)
]
  where
    old :
        (j : ℕ)
        → elem j marks ≡ true
        → (elem i is || elem i marks) ≡ (((i == j) || elem i is) || elem i marks)
    old j known = elim (Bool-cases (i == j)) [
      | inl same ↦ ground (arith, known, same)
      | inr other ↦ rw other refl
    ]

pub AreDistinct-collect :
    (l : List HeaderNode) (is : List ℕ) (ts : List Text) (marks : List ℕ)
    → AreDistinct marks
    → AreDistinct (collect l is ts marks).1
unfolding collect
AreDistinct-collect l [] ts marks h = h
AreDistinct-collect l (j ∷ is) ts marks h = elim (Bool-cases (elem j marks)) [
  | inl known ↦ rw (known, collect) (AreDistinct-collect l is ts marks h)
  | inr new ↦ rw (new, collect) (AreDistinct-collect l is _ (j ∷ marks) (new, h))
]

pub AreDistinct-map-suc : (is : List ℕ) → AreDistinct is → AreDistinct (map suc is)
AreDistinct-map-suc [] h = tt
AreDistinct-map-suc (i ∷ is) (new, rest) = (elem-map-suc i is ∙ new, AreDistinct-map-suc is rest)

pub marked_from-mark_run :
    (k level : ℕ) (ms : List Masked) (i : ℕ)
    → (elem i (scan_children k level (nodes_of ms)) || marked_from k ms i)
      ≡ marked_from k (mark_run level ms) i
marked_from-mark_run k level [] i = refl
marked_from-mark_run k level ((marked, node) ∷ ms) i = elim (Bool-cases (leb node.level level)) [
  | inl stop ↦ rw stop refl
  | inr go ↦ rw go (ground (arith, marked_from-mark_run (k + 1) level ms i))
]

pub nodes_of-mark_run : (level : ℕ) (ms : List Masked) → nodes_of (mark_run level ms) ≡ nodes_of ms
nodes_of-mark_run level [] = refl
nodes_of-mark_run level ((marked, node) ∷ ms) = elim (Bool-cases (leb node.level level)) [
  | inl stop ↦ rw stop refl
  | inr go ↦ rw go (ap (λ l. node ∷ l) (nodes_of-mark_run level ms))
]

tail_marks :
    (k : ℕ) (marked : Bool) (node : HeaderNode) (ms : List Masked) (marks more : List ℕ)
    → ((i : ℕ) → k ≤ i → elem i marks ≡ marked_from k ((marked, node) ∷ ms) i)
    → ((i : ℕ) → k < i → elem i more ≡ elem i marks)
    → (i : ℕ) → k + 1 ≤ i
    → elem i more ≡ marked_from (k + 1) ms i
tail_marks k marked node ms marks more h same i le =
    let above : (i == k) ≡ false = ground (arith, le) in
    same i (omega (arith, le)) ∙ h i (omega (arith, le)) ∙ rw above refl

-- The texts that are found are those of the nodes of the run that are not marked.
pub collect-texts :
    (l : List HeaderNode) (k level : ℕ) (ms : List Masked) (ts : List Text) (marks : List ℕ)
    → drop k l ≡ nodes_of ms
    → ((i : ℕ) → k ≤ i → elem i marks ≡ marked_from k ms i)
    → (collect l (scan_children k level (nodes_of ms)) ts marks).0
      ≡ ts ++ texts_of (run_kept level ms)
unfolding collect
collect-texts l k level [] ts marks e h = sym (append-nil ts)
collect-texts l k level ((true, node) ∷ ms) ts marks e h =
    elim (Bool-cases (leb node.level level)) [
      | inl stop ↦ rw stop (sym (append-nil ts))
      | inr go ↦
          let (at, rest) = get_elem?-of_drop l k node (nodes_of ms) e in
          let here : elem k marks ≡ true = h k (omega arith) ∙ ground arith in
          rw (go, collect, here)
            (collect-texts l (k + 1) level ms ts marks rest
              (tail_marks k true node ms marks marks h (λ i lt. refl)))
    ]
collect-texts l k level ((false, node) ∷ ms) ts marks e h =
    elim (Bool-cases (leb node.level level)) [
      | inl stop ↦ rw stop (sym (append-nil ts))
      | inr go ↦
          let (at, rest) = get_elem?-of_drop l k node (nodes_of ms) e in
          let here : elem k marks ≡ false = h k (omega arith) ∙ ground arith in
          rw (go, collect, here, text_at-of_some l k node at)
            (collect-texts l (k + 1) level ms _ (k ∷ marks) rest
                (tail_marks k false node ms marks (k ∷ marks) h (λ i lt. ground (arith, lt)))
              ∙ text_added ts (texts_of (run_kept level ms)) node.text)
    ]
  where
    text_added :
        (ts more : List Text) (t : Text)
        → (if is_empty (strip t) then ts else ts ++ t ∷ []) ++ more
          ≡ ts ++ (if is_empty (strip t) then more else t ∷ more)
    text_added ts more t = elim (Bool-cases (is_empty (strip t))) [
      | inl blank ↦ rw blank refl
      | inr some_text ↦ rw some_text (append_assoc ts (t ∷ []) more)
    ]

pub merge_texts-joined_texts :
    (ts : List Text) (text : Text) → merge_texts text ts ≡ joined_texts text ts
unfolding merge_texts joined_texts
merge_texts-joined_texts [] text = refl
merge_texts-joined_texts (t ∷ ts) text =
    merge_texts-joined_texts ts _
    ∙ ap (λ u. joined_texts u ts) (apart (is_empty text) (ends_with_newline text))
  where
    apart :
        (empty ended : Bool)
        → (if not empty && not ended then text ++ newline ∷ newline ∷ [] else text) ++ t
          ≡ text ++ (if empty || ended then [] else newline ∷ newline ∷ []) ++ t
    apart true ended = ap (λ u. u ++ t) (sym (append-nil text))
    apart false true = ap (λ u. u ++ t) (sym (append-nil text))
    apart false false = refl
