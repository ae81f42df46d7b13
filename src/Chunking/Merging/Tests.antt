-- ===== src/Chunking/Merging/Tests.antt =====
-- Runs of the merges, and their theorem at such an input.
use spark_workflow_main.Common.{ℕ, ◌≡◌, refl, Bool, true, ◌&&◌, some, List, [], ◌∷◌, ◌++◌, leb}
use spark_workflow_main.Common.Dict.{Dict}
use spark_workflow_main.Common.Text.{Text, lit, newline, strip}
use spark_workflow_main.Chunking.Merging.{
  Document, SubChunk, paragraphs, is_sparse, is_header_only_split, merge_sparse_chunks,
  merge_header_only_parent_chunks, merge_header_only_sub_chunks,
}
use spark_workflow_main.Chunking.Merging.Whole.{whole}
use spark_workflow_main.Chunking.Merging.Kept.{contents, sub_contents, merges_keep_text}

abbrev is_ascii_digit : ℕ → Bool
is_ascii_digit c = leb 48 c && leb c 57

abbrev tag : Text
tag = lit "<seite nummer=" ++ 34 ∷ lit "12" ++ 34 ∷ lit " />"

abbrev split : Text → Document
split s = record { page_content = s; metadata = [] }

abbrev picture : Text
picture = tag ++ lit "  __SPECIAL_ELEMENT_PLACEHOLDER_0__"

abbrev splits : List Document
splits =
    split picture
    ∷ split (lit "# Title")
    ∷ split (tag ++ newline ∷ lit "text")
    ∷ split (lit "## End")
    ∷ []

sparse_run : is_sparse is_ascii_digit picture ≡ true
unfolding is_sparse strip
sparse_run = refl

heading_run : is_header_only_split is_ascii_digit (tag ++ newline ∷ lit "## End") ≡ true
unfolding is_header_only_split strip
heading_run = refl

merge_run :
    merge_header_only_parent_chunks is_ascii_digit
      (split (lit "# Title") ∷ split (lit "text") ∷ split (lit "## End") ∷ [])
    ≡ split (paragraphs (paragraphs (lit "# Title") (lit "text")) (lit "## End")) ∷ []
unfolding merge_header_only_parent_chunks strip
merge_run = refl

abbrev metadata : Dict Text Text
metadata = (lit "Header 1", lit "Title") ∷ []

abbrev chunks : List SubChunk
chunks =
    record { page_content = lit "# Title"; chunk_type = some (lit "text") }
    ∷ record { page_content = lit "a table"; chunk_type = some (lit "table") }
    ∷ []

sub_run :
    merge_header_only_sub_chunks chunks metadata
    ≡ record {
      page_content = paragraphs (lit "# Title") (lit "a table");
      chunk_type = some (lit "table");
    }
      ∷ []
unfolding merge_header_only_sub_chunks strip
sub_run = refl

merges_keep_text_example :
    (whole (
        contents (
          merge_header_only_parent_chunks is_ascii_digit
            (merge_sparse_chunks is_ascii_digit splits)))
      ≡ whole (contents splits))
    × (whole (sub_contents (merge_header_only_sub_chunks chunks metadata))
        ≡ whole (sub_contents chunks))
merges_keep_text_example = merges_keep_text is_ascii_digit splits chunks metadata
