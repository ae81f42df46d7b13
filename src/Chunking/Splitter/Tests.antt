-- ===== src/Chunking/Splitter/Tests.antt =====
-- Runs of the splitter, and its theorems at such inputs.
use spark_workflow_main.Common.{◌≡◌, refl, false, List, [], ◌∷◌, All, length, arith}
use spark_workflow_main.Common.Text.{Text, lit, join, newline}
use spark_workflow_main.Chunking.Splitter.{
  split_on, occurs_in, split_by_separator, trim, merge_from, merge_splits, gather, split_text,
}
use spark_workflow_main.Chunking.Splitter.Lengths.{IsBounded, split_text-IsBounded}
use spark_workflow_main.Chunking.Splitter.Windows.{
  AreWindows, merge_splits-AreWindows, merge_splits_exceeds,
}

-- `_DEFAULT_SEPARATORS` behind the first
abbrev others : List Text
others = (newline ∷ []) ∷ lit " " ∷ [] ∷ []

abbrev paragraph : Text
paragraph = newline ∷ newline ∷ []

split_runs :
    split_text length 6 2 false others paragraph (lit "ab cd ef gh")
    ≡ lit "ab cd" ∷ lit "cd ef" ∷ lit "ef gh" ∷ []
unfolding split_text occurs_in split_by_separator split_on gather merge_splits merge_from trim join
split_runs = refl

split_text-IsBounded_example :
    All (IsBounded 6 2 2) (split_text length 6 2 false others paragraph (lit "ab cd ef gh"))
split_text-IsBounded_example =
    split_text-IsBounded 6 2 false 2 others paragraph (lit "ab cd ef gh") (omega arith)
      (omega arith) (omega arith) refl

merge_splits-AreWindows_example :
    AreWindows
      (lit " ")
      []
      (lit "ab" ∷ lit "cd" ∷ [])
      (merge_splits length 4 2 (lit "ab" ∷ lit "cd" ∷ []) (lit " "))
merge_splits-AreWindows_example =
    merge_splits-AreWindows length 4 2 (lit "ab" ∷ lit "cd" ∷ []) (lit " ")

merge_splits_exceeds_example :
    merge_splits length 10 2 (lit "aaaaaaaaa" ∷ lit "bbbbbbbbb" ∷ []) (lit " ")
    ≡ lit "aaaaaaaaa" ∷ lit "aaaaaaaaa bbbbbbbbb" ∷ []
merge_splits_exceeds_example =
    merge_splits_exceeds length 10 2 (lit " ") (lit "aaaaaaaaa") (lit "bbbbbbbbb") (omega arith)
