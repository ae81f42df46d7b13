-- ===== src/Chunking/Splitter.antt =====
-- `RecursiveCharacterTextSplitter` of text_splitters.py, with separators that are texts and not
-- patterns, as all callers have it. Its attributes are the parameters of the section.
mod Steps
pub mod Lengths
pub mod Windows
mod Tests
use spark_workflow_main.Common.{
  ℕ, zero, suc, ◌+◌, ◌-◌, Bool, true, false, not, ◌&&◌, Option, none, some, List, [], ◌∷◌, ◌++◌,
  map, filter, ltb, ◌==◌, length, if◌then◌else◌,
}
use spark_workflow_main.Common.Text.{Text, is_empty, join, cons_first}

-- `s.startswith(prefix)`
abbrev pub starts_with : Text → Text → Bool
starts_with [] s = true
starts_with (c ∷ prefix) [] = false
starts_with (c ∷ prefix) (d ∷ s) = (c == d) && starts_with prefix s

-- `re.split(re.escape(sep), s)` for a separator that is not empty: the occurrences from the left
-- that do not overlap. The number counts the characters of an occurrence that are still to skip.
unfoldable pub split_on : Text → ℕ → Text → List Text
split_on sep skip [] = [] ∷ []
split_on sep (suc skip) (c ∷ s) = split_on sep skip s
split_on sep zero (c ∷ s) = elim (starts_with sep (c ∷ s)) [
  | true ↦ [] ∷ split_on sep (length sep - 1) s
  | false ↦ cons_first c (split_on sep zero s)
]

-- `re.search(re.escape(sep), s)`
unfoldable pub occurs_in : Text → Text → Bool
occurs_in sep [] = is_empty sep
occurs_in sep (c ∷ s) = elim (starts_with sep (c ∷ s)) [ true ↦ true | false ↦ occurs_in sep s ]

abbrev pub characters : Text → List Text
characters [] = []
characters (c ∷ s) = (c ∷ []) ∷ characters s

abbrev pub is_given : Text → Bool
is_given s = not (is_empty s)

-- The separators put back in front of the parts that follow them.
abbrev pub attached : Text → List Text → List Text
attached sep [] = []
attached sep (part ∷ parts) = part ∷ map (λ p. sep ++ p) parts

unfoldable pub split_by_separator : Bool → Text → Text → List Text
unfolding split_on
split_by_separator keep_separator text [] = characters text
split_by_separator keep_separator text (c ∷ sep) =
    let parts = split_on (c ∷ sep) zero text in
    filter is_given (if keep_separator then attached (c ∷ sep) parts else parts)

-- `self._length_function(separator) if current_pieces else 0`
abbrev pub separator_length : (Text → ℕ) → Text → List Text → ℕ
separator_length length_function separator [] = 0
separator_length length_function separator (piece ∷ pieces) = length_function separator

module _ (length_function : Text → ℕ) (chunk_size chunk_overlap : ℕ) where
  -- `while current_len > self._chunk_overlap and len(current_pieces) > 1: …`
  unfoldable pub trim : Text → ℕ → List Text → List Text
  trim separator current_len [] = []
  trim separator current_len (piece ∷ []) = piece ∷ []
  trim separator current_len (removed ∷ piece ∷ pieces) = elim (ltb chunk_overlap current_len) [
    | false ↦ removed ∷ piece ∷ pieces
    | true ↦
        trim separator (current_len - (length_function removed + length_function separator))
          (piece ∷ pieces)
  ]

  abbrev pub overflows : Text → ℕ → List Text → Text → Bool
  overflows separator current_len pieces piece =
      ltb chunk_size
        (current_len + length_function piece + separator_length length_function separator pieces)
      && not (is_empty pieces)

  -- The loop of `_merge_splits`, and what follows it, from a state of `current_pieces` and
  -- `current_len` on: the chunks that are still to come.
  unfoldable pub merge_from : Text → List Text → ℕ → List Text → List Text
  unfolding trim
  merge_from separator [] current_len [] = []
  merge_from separator (p ∷ pieces) current_len [] = join separator (p ∷ pieces) ∷ []
  merge_from separator pieces current_len (piece ∷ splits) =
      elim (overflows separator current_len pieces piece) [
        | true ↦
            let next = trim separator current_len pieces ++ piece ∷ [] in
            join separator pieces
            ∷ merge_from separator next (length_function (join separator next)) splits
        | false ↦
            let next = pieces ++ piece ∷ [] in
            merge_from separator next (length_function (join separator next)) splits
      ]

  unfoldable pub merge_splits : List Text → Text → List Text
  unfolding merge_from
  merge_splits splits separator = merge_from separator [] 0 splits

  -- `if new_separators: … else: …`, on the call with them
  abbrev pub split_further : Option (Text → List Text) → Text → List Text
  split_further none piece = piece ∷ []
  split_further (some again) piece = again piece

  -- The loop over the pieces, with `good_splits`.
  unfoldable pub gather : Text → Option (Text → List Text) → List Text → List Text → List Text
  gather separator again good_splits [] = merge_splits good_splits separator
  gather separator again good_splits (piece ∷ splits) =
      elim (ltb (length_function piece) chunk_size) [
        | true ↦ gather separator again (good_splits ++ piece ∷ []) splits
        | false ↦
            merge_splits good_splits separator
            ++ (split_further again piece ++ gather separator again [] splits)
      ]

  module _ (keep_separator : Bool) where
    -- The call with the separators that follow, if there are any.
    abbrev pub split_using : Text → Option (Text → List Text) → Text → List Text
    split_using separator again text =
        gather separator again [] (split_by_separator keep_separator text separator)

    -- `_split_text` on the list `separator ∷ others`: the first that occurs in the text, or is
    -- empty, is taken; the last one where none does.
    unfoldable pub split_text : List Text → Text → Text → List Text
    unfolding occurs_in
    split_text [] separator text = split_using separator none text
    split_text (next ∷ others) separator text = elim (is_empty separator) [
      | true ↦ split_using separator none text
      | false ↦ elim (occurs_in separator text) [
        | true ↦ split_using separator (some (split_text others next)) text
        | false ↦ split_text others next text
      ]
    ]
