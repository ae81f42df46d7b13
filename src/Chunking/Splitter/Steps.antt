-- ===== src/Chunking/Splitter/Steps.antt =====
-- The loops of the splitter, step by step.
use spark_workflow_main.Common.{ℕ, ◌+◌, ◌-◌, ◌≡◌, refl, true, false, List, [], ◌∷◌, ◌++◌, ltb}
use spark_workflow_main.Common.Text.{Text, join}
use spark_workflow_main.Chunking.Splitter.{trim, overflows, merge_from}

module _ (len : Text → ℕ) (size overlap : ℕ) where
  pub trim_keep :
      (sep : Text) (current_len : ℕ) (p q : Text) (pieces : List Text)
      → ltb overlap current_len ≡ false
      → trim len size overlap sep current_len (p ∷ q ∷ pieces) ≡ p ∷ q ∷ pieces
  unfolding trim
  trim_keep sep current_len p q pieces h = rw (h, trim) refl

  pub trim_drop :
      (sep : Text) (current_len : ℕ) (p q : Text) (pieces : List Text)
      → ltb overlap current_len ≡ true
      → trim len size overlap sep current_len (p ∷ q ∷ pieces)
        ≡ trim len size overlap sep (current_len - (len p + len sep)) (q ∷ pieces)
  unfolding trim
  trim_drop sep current_len p q pieces h = rw (h, trim) refl

  pub trim_one :
      (sep : Text) (current_len : ℕ) (p : Text)
      → trim len size overlap sep current_len (p ∷ []) ≡ p ∷ []
  unfolding trim
  trim_one sep current_len p = refl

  pub merge_add :
      (sep : Text) (pieces : List Text) (current_len : ℕ) (piece : Text) (splits : List Text)
      → overflows len size overlap sep current_len pieces piece ≡ false
      → merge_from len size overlap sep pieces current_len (piece ∷ splits)
        ≡ merge_from len size overlap sep
            (pieces ++ piece ∷ [])
            (len (join sep (pieces ++ piece ∷ [])))
            splits
  unfolding merge_from
  merge_add sep pieces current_len piece splits h = rw (h, merge_from) refl

  pub merge_flush :
      (sep : Text) (pieces : List Text) (current_len : ℕ) (piece : Text) (splits : List Text)
      → overflows len size overlap sep current_len pieces piece ≡ true
      → merge_from len size overlap sep pieces current_len (piece ∷ splits)
        ≡ join sep pieces
          ∷ merge_from len size overlap sep
              (trim len size overlap sep current_len pieces ++ piece ∷ [])
              (len (join sep (trim len size overlap sep current_len pieces ++ piece ∷ [])))
              splits
  unfolding merge_from
  merge_flush sep pieces current_len piece splits h = rw (h, merge_from) refl
