-- ===== src/Chunking/Merging/Kept.antt =====
-- No merge loses, repeats or moves text.
use spark_workflow_main.Common.{
  ℕ, ◌≡◌, refl, sym, ap, subst, ◌∙◌, inl, inr, Bool, true, false, Option, none, some, List, [], ◌∷◌,
  ◌++◌, map, append-nil, Bool-cases,
}
use spark_workflow_main.Common.Dict.{Dict}
use spark_workflow_main.Common.Text.{Text}
use spark_workflow_main.Chunking.Merging.{
  Document, is_sparse, is_header_only_split, into_next, merge_sparse_chunks, with_pending,
  append_to_last, conclude_merge, merge_pending, merge_header_only_parent_chunks, SubChunk,
  is_header_only, put_sub_before, merge_sub_chunks, merge_header_only_sub_chunks, raw_header,
}
use spark_workflow_main.Chunking.Merging.Whole.{whole, whole_two, HasSome, whole_next, whole_within}

abbrev pub contents : List Document → List Text
contents l = map (λ d. d.page_content) l

abbrev pub sub_contents : List SubChunk → List Text
sub_contents l = map (λ c. c.page_content) l

whole-into_next :
    (d : Document) (l : List Document)
    → whole (contents (into_next d l)) ≡ whole (d.page_content ∷ contents l)
whole-into_next d [] = refl
whole-into_next d (e ∷ l) = sym (whole_two d.page_content e.page_content (contents l))

into_next-HasSome : (d : Document) (l : List Document) → HasSome (contents (into_next d l))
into_next-HasSome d [] = tt
into_next-HasSome d (e ∷ l) = tt

contents_moved :
    (result : List Document) (d : Document) (splits : List Document)
    → contents (result ++ d ∷ []) ++ contents splits
      ≡ contents result ++ d.page_content ∷ contents splits
contents_moved [] d splits = refl
contents_moved (e ∷ result) d splits = ap (λ l. e.page_content ∷ l) (contents_moved result d splits)

sub_merged :
    (header : Option Text) (c d : SubChunk) (chunks : List SubChunk)
    → is_header_only header c ≡ true
    → merge_sub_chunks header c (d ∷ chunks) ≡ merge_sub_chunks header (put_sub_before c d) chunks
unfolding merge_sub_chunks
sub_merged header c d chunks h = rw (h, merge_sub_chunks) refl

sub_kept :
    (header : Option Text) (c d : SubChunk) (chunks : List SubChunk)
    → is_header_only header c ≡ false
    → merge_sub_chunks header c (d ∷ chunks) ≡ c ∷ merge_sub_chunks header d chunks
unfolding merge_sub_chunks
sub_kept header c d chunks h = rw (h, merge_sub_chunks) refl

sub_one : (header : Option Text) (c : SubChunk) → merge_sub_chunks header c [] ≡ c ∷ []
unfolding merge_sub_chunks
sub_one header c = refl

merge_sub-HasSome :
    (header : Option Text) (c : SubChunk) (chunks : List SubChunk)
    → HasSome (sub_contents (merge_sub_chunks header c chunks))
merge_sub-HasSome header c [] = rw (sub_one header c) tt
merge_sub-HasSome header c (d ∷ chunks) = elim (Bool-cases (is_header_only header c)) [
  | inl only ↦
      subst (λ l. HasSome (sub_contents l)) (sym (sub_merged header c d chunks only))
        (merge_sub-HasSome header (put_sub_before c d) chunks)
  | inr text ↦ subst (λ l. HasSome (sub_contents l)) (sym (sub_kept header c d chunks text)) tt
]

whole-merge_sub_chunks :
    (header : Option Text) (c : SubChunk) (chunks : List SubChunk)
    → whole (sub_contents (merge_sub_chunks header c chunks))
      ≡ whole (c.page_content ∷ sub_contents chunks)
whole-merge_sub_chunks header c [] = rw (sub_one header c) refl
whole-merge_sub_chunks header c (d ∷ chunks) = elim (Bool-cases (is_header_only header c)) [
  | inl only ↦ rw (sub_merged header c d chunks only) (
      whole-merge_sub_chunks header (put_sub_before c d) chunks
      ∙ sym (whole_two c.page_content d.page_content (sub_contents chunks)))
  | inr text ↦ rw (sub_kept header c d chunks text) (
      whole_next c.page_content (sub_contents (merge_sub_chunks header d chunks))
        (sub_contents (d ∷ chunks)) (whole-merge_sub_chunks header d chunks)
        (merge_sub-HasSome header d chunks) tt)
]

module _ (is_decimal : ℕ → Bool) where
  sparse_merged :
      (d e : Document) (splits : List Document)
      → is_sparse is_decimal d.page_content ≡ true
      → merge_sparse_chunks is_decimal (d ∷ e ∷ splits)
        ≡ into_next d (merge_sparse_chunks is_decimal (e ∷ splits))
  unfolding merge_sparse_chunks
  sparse_merged d e splits h = rw h refl

  sparse_kept :
      (d e : Document) (splits : List Document)
      → is_sparse is_decimal d.page_content ≡ false
      → merge_sparse_chunks is_decimal (d ∷ e ∷ splits)
        ≡ d ∷ merge_sparse_chunks is_decimal (e ∷ splits)
  unfolding merge_sparse_chunks
  sparse_kept d e splits h = rw h refl

  sparse_one : (d : Document) → merge_sparse_chunks is_decimal (d ∷ []) ≡ d ∷ []
  unfolding merge_sparse_chunks
  sparse_one d = refl

  sparse_none : merge_sparse_chunks is_decimal [] ≡ []
  unfolding merge_sparse_chunks
  sparse_none = refl

  merge_sparse-HasSome :
      (d : Document) (splits : List Document)
      → HasSome (contents (merge_sparse_chunks is_decimal (d ∷ splits)))
  merge_sparse-HasSome d [] = rw (sparse_one d) tt
  merge_sparse-HasSome d (e ∷ splits) = elim (Bool-cases (is_sparse is_decimal d.page_content)) [
    | inr full ↦ subst (λ l. HasSome (contents l)) (sym (sparse_kept d e splits full)) tt
    | inl sparse ↦
        subst (λ l. HasSome (contents l)) (sym (sparse_merged d e splits sparse))
          (into_next-HasSome d (merge_sparse_chunks is_decimal (e ∷ splits)))
  ]

  whole-merge_sparse_chunks :
      (splits : List Document)
      → whole (contents (merge_sparse_chunks is_decimal splits)) ≡ whole (contents splits)
  whole-merge_sparse_chunks [] = rw sparse_none refl
  whole-merge_sparse_chunks (d ∷ []) = rw (sparse_one d) refl
  whole-merge_sparse_chunks (d ∷ e ∷ splits) =
      let merged = merge_sparse_chunks is_decimal (e ∷ splits) in
      let rest : whole (d.page_content ∷ contents merged) ≡ whole (contents (d ∷ e ∷ splits)) =
        whole_next d.page_content (contents merged) (contents (e ∷ splits))
          (whole-merge_sparse_chunks (e ∷ splits)) (merge_sparse-HasSome e splits) tt in
      elim (Bool-cases (is_sparse is_decimal d.page_content)) [
        | inr full ↦ rw (sparse_kept d e splits full) rest
        | inl sparse ↦ rw (sparse_merged d e splits sparse) (whole-into_next d merged ∙ rest)
      ]

  abbrev pending_texts : Option Document → List Text
  pending_texts none = []
  pending_texts (some d) = d.page_content ∷ []

  append_to_last-HasSome :
      (d e : Document) (result : List Document) → HasSome (contents (append_to_last d (e ∷ result)))
  append_to_last-HasSome d e [] = tt
  append_to_last-HasSome d e (f ∷ result) = tt

  whole-append_to_last :
      (d : Document) (result : List Document)
      → whole (contents (append_to_last d result)) ≡ whole (contents result ++ d.page_content ∷ [])
  whole-append_to_last d [] = refl
  whole-append_to_last d (e ∷ []) = sym (whole_two e.page_content d.page_content [])
  whole-append_to_last d (e ∷ f ∷ result) =
      whole_next e.page_content (contents (append_to_last d (f ∷ result)))
        (contents (f ∷ result) ++ d.page_content ∷ []) (whole-append_to_last d (f ∷ result))
        (append_to_last-HasSome d f result) tt

  whole-with_pending :
      (l : List Text) (pending : Option Document) (d : Document) (rest : List Text)
      → whole (l ++ (with_pending pending d).page_content ∷ rest)
        ≡ whole (l ++ (pending_texts pending ++ d.page_content ∷ rest))
  whole-with_pending l none d rest = refl
  whole-with_pending l (some p) d rest = sym (whole_within l p.page_content d.page_content rest)

  pending_header :
      (pending : Option Document) (result splits : List Document) (d : Document)
      → is_header_only_split is_decimal (with_pending pending d).page_content ≡ true
      → merge_pending is_decimal pending result (d ∷ splits)
        ≡ merge_pending is_decimal (some (with_pending pending d)) result splits
  unfolding merge_pending
  pending_header pending result splits d h = rw (h, merge_pending) refl

  pending_text :
      (pending : Option Document) (result splits : List Document) (d : Document)
      → is_header_only_split is_decimal (with_pending pending d).page_content ≡ false
      → merge_pending is_decimal pending result (d ∷ splits)
        ≡ merge_pending is_decimal none (result ++ with_pending pending d ∷ []) splits
  unfolding merge_pending
  pending_text pending result splits d h = rw (h, merge_pending) refl

  pending_end :
      (pending : Option Document) (result : List Document)
      → merge_pending is_decimal pending result [] ≡ conclude_merge pending result
  unfolding merge_pending
  pending_end pending result = refl

  whole-merge_pending :
      (pending : Option Document) (result splits : List Document)
      → whole (contents (merge_pending is_decimal pending result splits))
        ≡ whole (contents result ++ (pending_texts pending ++ contents splits))
  whole-merge_pending none result [] =
      rw (pending_end none result, append-nil (contents result)) refl
  whole-merge_pending (some p) result [] =
      rw (pending_end (some p) result) (whole-append_to_last p result)
  whole-merge_pending pending result (d ∷ splits) =
      let split = with_pending pending d in
      let rest = whole-with_pending (contents result) pending d (contents splits) in
      elim (Bool-cases (is_header_only_split is_decimal split.page_content)) [
        | inl header ↦
            rw (pending_header pending result splits d header)
              (whole-merge_pending (some split) result splits ∙ rest)
        | inr text ↦ rw (pending_text pending result splits d text) (
            whole-merge_pending none (result ++ split ∷ []) splits
            ∙ ap whole (contents_moved result split splits)
            ∙ rest)
      ]

  -- The two merges of parent chunks, one after the other, and the merge of sub-chunks leave the
  -- whole text as it is: the chunks' texts in a row, a blank line between any two.
  pub merges_keep_text :
      (splits : List Document) (chunks : List SubChunk) (metadata : Dict Text Text)
      → (whole (
            contents
              (merge_header_only_parent_chunks is_decimal (merge_sparse_chunks is_decimal splits)))
          ≡ whole (contents splits))
        × (whole (sub_contents (merge_header_only_sub_chunks chunks metadata))
            ≡ whole (sub_contents chunks))
  unfolding merge_header_only_parent_chunks merge_header_only_sub_chunks
  merges_keep_text splits [] metadata = (
    whole-merge_pending none [] (merge_sparse_chunks is_decimal splits)
        ∙ whole-merge_sparse_chunks splits,
    refl,
  )
  merges_keep_text splits (c ∷ chunks) metadata = (
    whole-merge_pending none [] (merge_sparse_chunks is_decimal splits)
        ∙ whole-merge_sparse_chunks splits,
    whole-merge_sub_chunks (raw_header metadata) c chunks,
  )
