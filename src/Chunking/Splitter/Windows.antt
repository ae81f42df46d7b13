-- ===== src/Chunking/Splitter/Windows.antt =====
-- What the merged chunks hold: windows on the list of pieces, which overlap and leave nothing out.
use spark_workflow_main.Common.{
  ℕ, ◌+◌, ◌-◌, ◌<◌, ◌≡◌, refl, sym, ap, ◌∙◌, subst, true, false, List, [], ◌∷◌, ◌++◌, ltb, lt→ltb,
  append_assoc, Bool-cases, inl, inr,
}
use spark_workflow_main.Common.Text.{Text, join}
use spark_workflow_main.Chunking.Splitter.{trim, overflows, merge_from, merge_splits}
use spark_workflow_main.Chunking.Splitter.Steps.{
  trim_keep, trim_drop, trim_one, merge_add, merge_flush,
}

-- Each chunk joins some last pieces of the chunk before with the pieces that follow; behind the
-- last chunk no piece is left.
abbrev pub AreWindows : Text → List Text → List Text → List Text → Type 0
AreWindows sep before splits [] = splits ≡ []
AreWindows sep before splits (chunk ∷ chunks) =
    (dropped : List Text) × ((kept : List Text) × ((first : Text) × ((more : List Text)
          × ((rest : List Text) × ((before ≡ dropped ++ kept)
                × ((splits ≡ first ∷ (more ++ rest))
                    × ((chunk ≡ join sep (kept ++ first ∷ more))
                        × AreWindows sep (kept ++ first ∷ more) rest chunks)))))))

module _ (len : Text → ℕ) (size overlap : ℕ) where
  -- What is trimmed off stands in front.
  trim_suffix :
      (sep : Text) (current_len : ℕ) (pieces : List Text)
      → (dropped : List Text) × (pieces ≡ dropped ++ trim len size overlap sep current_len pieces)
  unfolding trim
  trim_suffix sep current_len [] = ([], refl)
  trim_suffix sep current_len (p ∷ []) = ([], refl)
  trim_suffix sep current_len (p ∷ q ∷ pieces) = elim (Bool-cases (ltb overlap current_len)) [
    | inr within ↦ ([], sym (trim_keep len size overlap sep current_len p q pieces within))
    | inl over ↦
        let (dropped, e) = trim_suffix sep (current_len - (len p + len sep)) (q ∷ pieces) in
        (
          p ∷ dropped,
          ap (λ l. p ∷ l)
              (e
                ∙ ap (λ l. dropped ++ l)
                    (sym (trim_drop len size overlap sep current_len p q pieces over))),
        )
  ]

  merge_last :
      (sep : Text) (kept : List Text) (first : Text) (more : List Text) (current_len : ℕ)
      → merge_from len size overlap sep (kept ++ first ∷ more) current_len []
        ≡ join sep (kept ++ first ∷ more) ∷ []
  unfolding merge_from
  merge_last sep [] first more current_len = refl
  merge_last sep (k ∷ kept) first more current_len = refl

  merge_from-AreWindows :
      (sep : Text) (before dropped kept : List Text) (first : Text) (more : List Text)
      (current_len : ℕ) (splits : List Text)
      → before ≡ dropped ++ kept
      → AreWindows sep before
          (first ∷ (more ++ splits))
          (merge_from len size overlap sep (kept ++ first ∷ more) current_len splits)
  merge_from-AreWindows sep before dropped kept first more current_len [] e =
      rw (merge_last sep kept first more current_len)
        (dropped, (kept, (first, (more, ([], (e, (refl, (refl, refl))))))))
  merge_from-AreWindows sep before dropped kept first more current_len (piece ∷ splits) e =
      let pieces = kept ++ first ∷ more in
      elim (Bool-cases (overflows len size overlap sep current_len pieces piece)) [
        | inr fit ↦
            let joined : pieces ++ piece ∷ [] ≡ kept ++ first ∷ (more ++ piece ∷ []) =
              append_assoc kept (first ∷ more) (piece ∷ []) in
            let shifted : first ∷ ((more ++ piece ∷ []) ++ splits)
                ≡ first ∷ (more ++ piece ∷ splits) =
              ap (λ l. first ∷ l) (append_assoc more (piece ∷ []) splits) in
            rw (merge_add len size overlap sep pieces current_len piece splits fit) (
              subst
                (λ l. AreWindows sep before l (
                  merge_from len size overlap sep (pieces ++ piece ∷ [])
                    (len (join sep (pieces ++ piece ∷ []))) splits))
                shifted
                (subst
                  (λ l.
                    AreWindows sep before (first ∷ ((more ++ piece ∷ []) ++ splits))
                      (merge_from len size overlap sep l (len (join sep l)) splits))
                  (sym joined)
                  (merge_from-AreWindows sep before dropped kept first (more ++ piece ∷ [])
                    (len (join sep (kept ++ first ∷ (more ++ piece ∷ [])))) splits e)))
        | inl over ↦
            let trimmed = trim len size overlap sep current_len pieces in
            let (gone, suffix) = trim_suffix sep current_len pieces in
            rw (merge_flush len size overlap sep pieces current_len piece splits over) (
              dropped,
              (
                kept,
                (
                  first,
                  (
                    more,
                    (
                      piece ∷ splits,
                      (
                        e,
                        (
                          refl,
                          (
                            refl,
                            merge_from-AreWindows sep pieces gone trimmed piece []
                                (len (join sep (trimmed ++ piece ∷ []))) splits suffix,
                          ),
                        ),
                      ),
                    ),
                  ),
                ),
              ),
            )
      ]

  fits_first : (sep : Text) (piece : Text) → overflows len size overlap sep 0 [] piece ≡ false
  fits_first sep piece = elim (Bool-cases (ltb size (0 + len piece + 0))) [
    | inl over ↦ rw over refl
    | inr fit ↦ rw fit refl
  ]

  -- The chunks into which _merge_splits merges pieces are windows on their list: each joins, by
  -- the separator, some of the last pieces of the chunk before it with one or more pieces that
  -- follow, and after the last chunk no piece is left. No piece is lost, changed or out of order.
  pub merge_splits-AreWindows :
      (splits : List Text) (sep : Text)
      → AreWindows sep [] splits (merge_splits len size overlap splits sep)
  unfolding merge_splits
  merge_splits-AreWindows [] sep = refl
  merge_splits-AreWindows (piece ∷ splits) sep =
      subst (λ chunks. AreWindows sep [] (piece ∷ splits) chunks)
        (sym (merge_add len size overlap sep [] 0 piece splits (fits_first sep piece)))
        (merge_from-AreWindows sep [] [] [] piece [] (len (join sep (piece ∷ []))) splits refl)

  -- Two pieces that do not fit into one chunk come out as a chunk with the first piece and a chunk
  -- with both, however long they are: the overlap keeps at least one piece, and what follows it is
  -- not measured again.
  pub merge_splits_exceeds :
      (sep p q : Text)
      → size < len p + len q + len sep
      → merge_splits len size overlap (p ∷ q ∷ []) sep ≡ p ∷ (p ++ (sep ++ q)) ∷ []
  unfolding merge_splits join
  merge_splits_exceeds sep p q h =
      let over : overflows len size overlap sep (len p) (p ∷ []) q ≡ true =
        rw (lt→ltb size (len p + len q + len sep) h) refl in
      merge_add len size overlap sep [] 0 p (q ∷ []) (fits_first sep p)
      ∙ merge_flush len size overlap sep (p ∷ []) (len p) q [] over
      ∙ ap
          (λ l. p ∷ merge_from len size overlap sep (l ++ q ∷ []) (len (join sep (l ++ q ∷ []))) [])
          (trim_one len size overlap sep (len p) p)
      ∙ ap (λ l. p ∷ l) (merge_last sep (p ∷ []) q [] (len (join sep (p ∷ q ∷ []))))
