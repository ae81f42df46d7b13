-- ===== src/Chunking/Toc/Titles.antt =====
-- `get_header_level_and_title` and `get_clean_header` of toc_builder.py.
use spark_workflow_main.Common.{
  ℕ, suc, ◌+◌, ◌<◌, ◌≡◌, refl, ◌∙◌, inl, inr, Bool, ◌||◌, ◌&&◌, Option, none, some, List, [], ◌∷◌,
  leb, length, take_while, drop_while, if◌then◌else◌, ◌==◌, Bool-cases, arith,
}
use spark_workflow_main.Common.Dict.{Dict}
use spark_workflow_main.Common.Text.{Text, is_space, strip, split, cons_first}
use spark_workflow_main.Chunking.Merging.{raw_header}
use spark_workflow_main.Chunking.Toc.{dot, strip_dots, is_number_part, level_of}

-- `prefix.count(".")`
unfoldable pub count_dots : Text → ℕ
count_dots [] = 0
count_dots (c ∷ s) = if c == dot then suc (count_dots s) else count_dots s

module _ (is_decimal : ℕ → Bool) where
  -- `re.match(r"^([\d\.]+)", title)`, and the level of its group; 1 where there is none
  abbrev pub level_of_prefix : Text → ℕ
  level_of_prefix [] = 1
  level_of_prefix (c ∷ prefix) = count_dots (strip_dots (c ∷ prefix)) + 1

  abbrev pub with_level : Option Text → Option (ℕ × Text)
  with_level none = none
  with_level (some title) =
      some (level_of_prefix (take_while (is_number_part is_decimal) title), title)

  -- The loop over "Header 3", "Header 2" and "Header 1" takes the first that the metadata have.
  unfoldable pub get_header_level_and_title : Dict Text Text → Option (ℕ × Text)
  unfolding count_dots
  get_header_level_and_title metadata = with_level (raw_header metadata)

-- `[0-9.\s]`
abbrev pub is_numbering_char : ℕ → Bool
is_numbering_char c = (leb 48 c && leb c 57) || ((c == dot) || is_space c)

abbrev pub clean_title : Option Text → Option Text
clean_title none = none
clean_title (some title) = some (strip (drop_while is_numbering_char title))

unfoldable pub get_clean_header : Dict Text Text → Option Text
get_clean_header metadata = clean_title (raw_header metadata)

length-cons_first :
    (c : ℕ) (parts : List Text) → 0 < length parts → length (cons_first c parts) ≡ length parts
length-cons_first c [] h = absurd (omega (arith, h))
length-cons_first c (part ∷ parts) h = refl

-- The two ways in which the source counts the parts of a numbering agree.
pub level_of-count_dots : (s : Text) → level_of s ≡ count_dots s + 1
unfolding level_of count_dots split
level_of-count_dots [] = refl
level_of-count_dots (c ∷ s) =
    let rest : length (split dot s) ≡ count_dots s + 1 = level_of-count_dots s in
    elim (Bool-cases (c == dot)) [
      | inl at ↦ rw at (omega (arith, rest))
      | inr off ↦ rw off (length-cons_first c (split dot s) (omega (arith, rest)) ∙ rest)
    ]
