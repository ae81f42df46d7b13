-- ===== src/Chunking/Headers.antt =====
-- `MarkdownHeaderTextSplitter` of text_splitters.py, whose list of markers and keys is a parameter,
-- and `_split_by_headers` of chunker.py, which uses it with two of them.
pub mod Force
pub mod Levels
mod Tests
use spark_workflow_main.Common.{
  ℕ, Bool, true, false, not, ◌&&◌, Option, none, some, List, [], ◌∷◌, ◌++◌, leb, ltb, length, drop,
  if◌then◌else◌,
}
use spark_workflow_main.Common.Eq.{list_eq, nat_eq}
use spark_workflow_main.Common.Dict.{Dict, lookup, insert}
use spark_workflow_main.Common.Sort.{sorted}
use spark_workflow_main.Common.Text.{Text, lit, newline, is_empty, lstrip, strip, join, split}
use spark_workflow_main.Chunking.Splitter.{starts_with}
use spark_workflow_main.Chunking.Merging.{Document}

-- `sorted(headers_to_split_on, key=lambda pair: len(pair[0]), reverse=True)`
unfoldable pub by_length : List (Text × Text) → List (Text × Text)
by_length headers_to_split_on = sorted (λ p q. leb (length q.0) (length p.0)) headers_to_split_on

abbrev pub is_marked : Text → Text → Bool
is_marked marker stripped =
    starts_with (marker ++ lit " ") stripped && not (starts_with (marker ++ lit "#") stripped)

abbrev pub first_marked : List (Text × Text) → Text → Option (Text × Text)
first_marked [] stripped = none
first_marked (header ∷ headers) stripped =
    if is_marked header.0 stripped then some header else first_marked headers stripped

unfoldable pub match_header : List (Text × Text) → Text → Option (Text × Text)
match_header headers line = first_marked headers (lstrip line)

unfoldable pub header_text : Text → Text → Text
header_text marker line = strip (drop (length marker) (lstrip line))

-- `{k: len(m) for m, k in self.headers_to_split_on}`
abbrev pub lengths_onto : Dict Text ℕ → List (Text × Text) → Dict Text ℕ
lengths_onto lens [] = lens
lengths_onto lens (header ∷ headers) = lengths_onto (insert header.1 (length header.0) lens) headers

unfoldable pub marker_len_for_key : List (Text × Text) → Dict Text ℕ
marker_len_for_key headers = lengths_onto [] headers

abbrev pub or_zero : Option ℕ → ℕ
or_zero none = 0
or_zero (some n) = n

abbrev pub is_below : Option ℕ → ℕ → Bool
is_below none n = false
is_below (some m) n = ltb m n

-- `k in marker_len_for_key and marker_len_for_key[k] < current_marker_len`
unfoldable pub is_kept : List (Text × Text) → Text → Text → Bool
unfolding marker_len_for_key
is_kept headers key k =
    let lens = marker_len_for_key headers in is_below (lookup k lens) (or_zero (lookup key lens))

abbrev pub keep_keys : (Text → Bool) → Dict Text Text → Dict Text Text
keep_keys keep [] = []
keep_keys keep ((k, v) ∷ d) = if keep k then (k, v) ∷ keep_keys keep d else keep_keys keep d

unfoldable pub update_metadata : List (Text × Text) → Dict Text Text → Text → Text → Dict Text Text
unfolding is_kept
update_metadata headers current key value =
    insert key value (keep_keys (λ k. is_kept headers key k) current)

pub record Section : Type 0 where
  pub metadata : Dict Text Text
  pub section_lines : List Text

-- `if current_lines: sections.append((dict(current_metadata), current_lines))`
abbrev pub flush : Dict Text Text → List Text → List Section → List Section
flush metadata [] sections = sections
flush metadata (line ∷ lines) sections =
    record { metadata = metadata; section_lines = line ∷ lines } ∷ sections

module _ (strip_headers : Bool) (headers : List (Text × Text)) where
  -- The loop over the lines, with `current_metadata` and `current_lines`: the sections to come.
  unfoldable pub sections_from : List Text → Dict Text Text → List Text → List Section
  unfolding match_header header_text update_metadata
  sections_from [] current_metadata current_lines = flush current_metadata current_lines []
  sections_from (line ∷ lines) current_metadata current_lines = elim (match_header headers line) [
    | none ↦ sections_from lines current_metadata (current_lines ++ line ∷ [])
    | some header ↦ flush current_metadata current_lines (
        sections_from lines
          (update_metadata headers current_metadata header.1 (header_text header.0 line))
          (if strip_headers then [] else line ∷ []))
  ]

-- The documents, without the empty sections
abbrev pub with_content : Text → Dict Text Text → List Document → List Document
with_content content metadata documents =
    if is_empty content
    then documents
    else record { page_content = content; metadata = metadata } ∷ documents

unfoldable pub documents_of : List Section → List Document
documents_of [] = []
documents_of (s ∷ sections) =
    with_content (strip (join (newline ∷ []) s.section_lines)) s.metadata (documents_of sections)

unfoldable pub split_text_by_headers : Bool → List (Text × Text) → Text → List Document
unfolding sections_from by_length documents_of
split_text_by_headers strip_headers headers_to_split_on text =
    documents_of
      (sections_from strip_headers (by_length headers_to_split_on) (split newline text) [] [])

abbrev pub headers_to_split_on : List (Text × Text)
headers_to_split_on = (lit "#", lit "Header 1") ∷ (lit "##", lit "Header 2") ∷ []

abbrev pub split_by_headers : Text → List Document
split_by_headers sanitized_content =
    split_text_by_headers false headers_to_split_on sanitized_content
