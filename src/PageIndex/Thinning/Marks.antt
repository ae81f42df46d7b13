-- ===== src/PageIndex/Thinning/Marks.antt =====
-- The thinning against its reference: the set of marks is the mask of the reference's list.
use spark_workflow_main.Common.{
  ℕ, zero, suc, ◌≡◌, refl, sym, subst, ap, ◌∙◌, false, ◌||◌, List, [], ◌∷◌, leb, ltb, map,
  Bool-cases, inl, inr,
}
use spark_workflow_main.Common.Eq.{elem, nat_eq}
use spark_workflow_main.Common.Sort.{sorted}
use spark_workflow_main.Common.Text.{Text}
use spark_workflow_main.PageIndex.{HeaderNode}
use spark_workflow_main.PageIndex.Tokens.{scan_children}
use spark_workflow_main.PageIndex.Thinning.{
  ThinState, collect, thin_at, thin_down, thin_marks, tree_thinning_for_index, remove_all,
}
use spark_workflow_main.PageIndex.Thinning.Reference.{
  Masked, mark_run, run_kept, texts_of, joining, masked, thinned, drop_marked-masked,
}
use spark_workflow_main.PageIndex.Thinning.Removal.{
  nodes_of, marked_from, marked_from-tail, AreDistinct, remove_sorted-marked,
}
use spark_workflow_main.PageIndex.Thinning.Rounds.{
  elem-map-suc, elem-zero-map, in_front, outcome, thin_marks-cons, thin_at-first, thin_at-long,
}
use spark_workflow_main.PageIndex.Thinning.Collected.{
  elem-collect, AreDistinct-collect, AreDistinct-map-suc, marked_from-mark_run, nodes_of-mark_run,
  collect-texts, merge_texts-joined_texts,
}

module _ (encoded_length : Text → ℕ) (min_node_token : ℕ) where
  outcome-joining :
      (node : HeaderNode) (l : List HeaderNode) (ts : List Text) (marks : List ℕ)
      → outcome encoded_length min_node_token 0 node (node ∷ l) (ts, marks)
        ≡ record { result_list = joining encoded_length node ts ∷ l; nodes_to_remove = marks }
  outcome-joining node l [] marks = refl
  outcome-joining node l (t ∷ ts) marks = rw (merge_texts-joined_texts (t ∷ ts) node.text) refl

  -- The set of marks is the mask, without a repetition.
  abbrev IsMask : List ℕ → List Masked → Type 0
  IsMask marks ms = AreDistinct marks × ((i : ℕ) → elem i marks ≡ marked_from 0 ms i)

  later-IsMask :
      (marks : List ℕ) (node : HeaderNode) (ms : List Masked)
      → IsMask marks ms
      → IsMask (map suc marks) ((false, node) ∷ ms)
  later-IsMask marks node ms (distinct, same) =
      (AreDistinct-map-suc marks distinct, λ i. at_index i)
    where
      at_index : (i : ℕ) → elem i (map suc marks) ≡ marked_from 0 ((false, node) ∷ ms) i
      at_index zero = elem-zero-map marks
      at_index (suc i) = elem-map-suc i marks ∙ same i ∙ sym (marked_from-tail false node ms i)

  collect-IsMask :
      (level : ℕ) (ms : List Masked) (marks : List ℕ)
      → IsMask marks ms
      → IsMask
          (collect (nodes_of ms) (scan_children 0 level (nodes_of ms)) [] marks).1
          (mark_run level ms)
  collect-IsMask level ms marks (distinct, same) = (
    AreDistinct-collect (nodes_of ms) _ [] marks distinct,
    λ i.
        elem-collect (nodes_of ms) (scan_children 0 level (nodes_of ms)) [] marks i
        ∙ ap (λ b. elem i (scan_children 0 level (nodes_of ms)) || b) (same i)
        ∙ marked_from-mark_run 0 level ms i,
  )

  abbrev state_of : List Masked → List ℕ → ThinState
  state_of ms marks = record { result_list = nodes_of ms; nodes_to_remove = marks }

  abbrev Represents : List Masked → ThinState → Type 0
  Represents ms s = (marks : List ℕ) × ((s ≡ state_of ms marks) × IsMask marks ms)

  first-Represents :
      (node : HeaderNode) (nodes : List HeaderNode) (marks : List ℕ)
      → IsMask marks (masked encoded_length min_node_token nodes)
      → Represents (masked encoded_length min_node_token (node ∷ nodes)) (
          thin_at encoded_length min_node_token 0
            (in_front node (state_of (masked encoded_length min_node_token nodes) marks)))
  unfolding masked
  first-Represents node nodes marks h =
      let ms = masked encoded_length min_node_token nodes in
      let found = collect (nodes_of ms) (scan_children 0 node.level (nodes_of ms)) [] marks in
      elim (Bool-cases (ltb node.text_token_count min_node_token)) [
        | inl short ↦
            rw (masked, short)
              (
                map suc found.1,
                (
                  thin_at-first encoded_length min_node_token node (nodes_of ms) marks short
                      ∙ outcome-joining node (nodes_of ms) found.0 (map suc found.1)
                      ∙ rw
                          (
                            collect-texts (nodes_of ms) 0 node.level ms [] marks refl
                                (λ i le. h.1 i),
                            nodes_of-mark_run node.level ms,
                          )
                          refl,
                  later-IsMask found.1
                      (joining encoded_length node (texts_of (run_kept node.level ms)))
                      (mark_run node.level ms) (collect-IsMask node.level ms marks h),
                ),
              )
        | inr long ↦
            rw (masked, long)
              (
                map suc marks,
                (
                  thin_at-long encoded_length min_node_token node (state_of ms marks) long,
                  later-IsMask marks node ms h,
                ),
              )
      ]

  thin_marks-Represents :
      (l : List HeaderNode)
      → Represents
          (masked encoded_length min_node_token l)
          (thin_marks encoded_length min_node_token l)
  unfolding thin_marks thin_down masked
  thin_marks-Represents [] = ([], (none_marked, (tt, λ i. refl)))
    where
      none_marked :
          thin_marks encoded_length min_node_token []
          ≡ record { result_list = []; nodes_to_remove = [] }
      none_marked = refl
  thin_marks-Represents (node ∷ nodes) =
      let (marks, (e, h)) = thin_marks-Represents nodes in
      subst (Represents (masked encoded_length min_node_token (node ∷ nodes)))
        (sym (
          thin_marks-cons encoded_length min_node_token node nodes
          ∙ ap (λ s. thin_at encoded_length min_node_token 0 (in_front node s)) e))
        (first-Represents node nodes marks h)

  -- Thinning gives the list of the reference: from the last node to the first, a node whose token
  -- count is below the threshold takes in what is left of its run of deeper nodes. The texts of
  -- these that are not blank are joined to its own in their order, a blank line between two where
  -- the first is not empty and does not end its line, and counted anew; every other node stays as
  -- it is.
  pub tree_thinning-thinned :
      (l : List HeaderNode)
      → tree_thinning_for_index encoded_length min_node_token l
        ≡ thinned encoded_length min_node_token l
  unfolding tree_thinning_for_index
  tree_thinning-thinned l =
      let (marks, (e, (distinct, same))) = thin_marks-Represents l in
      ap (λ (s : ThinState). remove_all (sorted (λ a b. leb b a) s.nodes_to_remove) s.result_list) e
      ∙ remove_sorted-marked (masked encoded_length min_node_token l) marks distinct same
      ∙ drop_marked-masked encoded_length min_node_token l
