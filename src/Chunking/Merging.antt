-- ===== src/Chunking/Merging.antt =====
-- The merges of chunker.py and sub_chunk_builder.py, which join a chunk that holds no text of its
-- own to a neighbour. Which code points `\d` matches is a parameter.
pub mod Whole
pub mod Kept
mod Tests
use spark_workflow_main.Common.{
  ℕ, zero, suc, ◌-◌, Bool, true, false, not, ◌&&◌, Option, none, some, List, [], ◌∷◌, ◌++◌, leb,
  ltb, length, take_while, drop_while, if◌then◌else◌, ◌==◌,
}
use spark_workflow_main.Common.Eq.{list_eq, nat_eq, ◌==◌ as ◌=?◌}
use spark_workflow_main.Common.Dict.{Dict, lookup}
use spark_workflow_main.Common.Options.{◌>>=◌}
use spark_workflow_main.Common.Text.{Text, lit, newline, is_space, is_empty, strip}

-- `re.sub(pattern, "", s)`: the pattern is given by the length of its match at a position, 0 where
-- it has none, of which it knows whether a line starts there. The number counts the characters of
-- a match that are still to drop.
unfoldable pub remove : (Bool → Text → ℕ) → ℕ → Bool → Text → Text
remove match_at skip line_start [] = []
remove match_at (suc skip) line_start (c ∷ s) = remove match_at skip (c == newline) s
remove match_at zero line_start (c ∷ s) = elim (match_at line_start (c ∷ s)) [
  | zero ↦ c ∷ remove match_at zero (c == newline) s
  | suc skip ↦ remove match_at skip (c == newline) s
]

-- What a literal leaves behind it
abbrev pub behind : Text → Text → Option Text
behind [] s = some s
behind (c ∷ prefix) [] = none
behind (c ∷ prefix) (d ∷ s) = if c == d then behind prefix s else none

abbrev pub matched : Text → Option Text → ℕ
matched s none = 0
matched s (some rest) = length s - length rest

abbrev pub is_hash : ℕ → Bool
is_hash c = c == 35

-- `^#{1,6}\s+.*$`
abbrev pub match_heading : Bool → Text → ℕ
match_heading false s = 0
match_heading true s =
    let hashes = length (take_while is_hash s) in
    let spaced = drop_while is_hash s in
    let title = drop_while is_space spaced in
    if (leb 1 hashes && leb hashes 6) && ltb (length title) (length spaced)
    then matched s (some (drop_while (λ c. not (c == newline)) title))
    else 0

-- `#+\s*`
abbrev pub match_marks : Bool → Text → ℕ
match_marks line_start s =
    if is_empty (take_while is_hash s)
    then 0
    else matched s (some (drop_while is_space (drop_while is_hash s)))

-- `f"{first}\n\n{second}"`
abbrev pub paragraphs : Text → Text → Text
paragraphs first second = first ++ (newline ∷ newline ∷ second)

pub record Document : Type 0 where
  pub page_content : Text
  pub metadata : Dict Text Text

abbrev pub put_before : Text → Document → Document
put_before text d = record d { page_content = paragraphs text d.page_content }

-- The chunk goes before the next one, which is in the list where the loop gets to it.
abbrev pub into_next : Document → List Document → List Document
into_next current [] = current ∷ []
into_next current (next_split ∷ splits) = put_before current.page_content next_split ∷ splits

-- `split.page_content = f"{pending.page_content}\n\n{split.page_content}"`
abbrev pub with_pending : Option Document → Document → Document
with_pending none split = split
with_pending (some pending) split = put_before pending.page_content split

-- What follows the loop: `result[-1]` takes what is still pending.
abbrev pub append_to_last : Document → List Document → List Document
append_to_last pending [] = pending ∷ []
append_to_last pending (last ∷ []) =
    record last { page_content = paragraphs last.page_content pending.page_content } ∷ []
append_to_last pending (d ∷ e ∷ result) = d ∷ append_to_last pending (e ∷ result)

abbrev pub conclude_merge : Option Document → List Document → List Document
conclude_merge none result = result
conclude_merge (some pending) result = append_to_last pending result

module _ (is_decimal : ℕ → Bool) where
  -- `\d+`
  abbrev pub digits : Text → Option Text
  digits s = if is_empty (take_while is_decimal s) then none else some (drop_while is_decimal s)

  -- `<seite nummer="\d+"\s*/>`; 34 is the quotation mark.
  abbrev pub page_tag : Text → Option Text
  page_tag s = do
    numbered ← behind (lit "<seite nummer=" ++ 34 ∷ []) s
    quoted ← digits numbered
    closing ← behind (34 ∷ []) quoted
    behind (lit "/>") (drop_while is_space closing)

  -- `__SPECIAL_ELEMENT_PLACEHOLDER_\d+__`
  abbrev pub placeholder : Text → Option Text
  placeholder s = do
    numbered ← behind (lit "__SPECIAL_ELEMENT_PLACEHOLDER_") s
    closing ← digits numbered
    behind (lit "__") closing

  abbrev pub without_page_tags : Text → Text
  without_page_tags s = remove (λ line_start t. matched t (page_tag t)) zero true s

  -- `not cleaned_content`, in `_merge_sparse_chunks`
  unfoldable pub is_sparse : Text → Bool
  unfolding remove
  is_sparse page_content = is_empty (
      strip (
        remove (λ line_start t. matched t (placeholder t)) zero true
          (without_page_tags page_content)))

  unfoldable pub is_header_only_split : Text → Bool
  unfolding remove
  is_header_only_split page_content =
      is_empty (strip (remove match_heading zero true (without_page_tags page_content)))

  -- The loop goes down from the last chunk but one.
  unfoldable pub merge_sparse_chunks : List Document → List Document
  unfolding is_sparse
  merge_sparse_chunks [] = []
  merge_sparse_chunks (last ∷ []) = last ∷ []
  merge_sparse_chunks (current ∷ next_split ∷ splits) =
      let merged = merge_sparse_chunks (next_split ∷ splits) in
      if is_sparse current.page_content then into_next current merged else current ∷ merged

  -- The loop, with `pending` and `result`
  unfoldable pub merge_pending : Option Document → List Document → List Document → List Document
  unfolding is_header_only_split
  merge_pending pending result [] = conclude_merge pending result
  merge_pending pending result (next_split ∷ splits) =
      let split = with_pending pending next_split in
      elim (is_header_only_split split.page_content) [
        | true ↦ merge_pending (some split) result splits
        | false ↦ merge_pending none (result ++ split ∷ []) splits
      ]

  unfoldable pub merge_header_only_parent_chunks : List Document → List Document
  unfolding merge_pending
  merge_header_only_parent_chunks md_header_splits = merge_pending none [] md_header_splits

-- The metadata's "chunk_type", where it is there, and the text
pub record SubChunk : Type 0 where
  pub page_content : Text
  pub chunk_type : Option Text

abbrev pub is_text : Option Text → Bool
is_text none = false
is_text (some chunk_type) = chunk_type =? lit "text"

abbrev pub or_next : Option Text → Option Text → Option Text
or_next none o = o
or_next (some t) o = some t

unfoldable pub raw_header : Dict Text Text → Option Text
raw_header metadata =
    or_next (lookup (lit "Header 3") metadata)
      (or_next (lookup (lit "Header 2") metadata) (lookup (lit "Header 1") metadata))

abbrev pub is_header_text : Option Text → Text → Bool
is_header_text none page_content = false
is_header_text (some header) page_content =
    strip (remove match_marks zero true page_content) =? strip header

unfoldable pub is_header_only : Option Text → SubChunk → Bool
unfolding remove
is_header_only header c = is_text c.chunk_type && is_header_text header c.page_content

abbrev pub put_sub_before : SubChunk → SubChunk → SubChunk
put_sub_before current next = record next {
  page_content = paragraphs current.page_content next.page_content;
}

-- The while loop, from a sub-chunk on whose text has what was merged into it
unfoldable pub merge_sub_chunks : Option Text → SubChunk → List SubChunk → List SubChunk
unfolding is_header_only
merge_sub_chunks header current [] = current ∷ []
merge_sub_chunks header current (next_sub_chunk ∷ chunks) = elim (is_header_only header current) [
  | true ↦ merge_sub_chunks header (put_sub_before current next_sub_chunk) chunks
  | false ↦ current ∷ merge_sub_chunks header next_sub_chunk chunks
]

unfoldable pub merge_header_only_sub_chunks : List SubChunk → Dict Text Text → List SubChunk
unfolding merge_sub_chunks raw_header
merge_header_only_sub_chunks [] metadata = []
merge_header_only_sub_chunks (first ∷ chunks) metadata =
    merge_sub_chunks (raw_header metadata) first chunks
