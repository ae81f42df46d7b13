-- ===== src/Chunking/Toc/Tests.antt =====
-- Runs of the table of contents, and its theorem at such an input.
use spark_workflow_main.Common.{
  ℕ, ◌≡◌, refl, Bool, ◌&&◌, none, some, List, [], ◌∷◌, ◌++◌, leb, All, ◌≤◌, arith,
}
use spark_workflow_main.Common.Dict.{keys}
use spark_workflow_main.Common.Text.{Text, lit, newline, strip, split}
use spark_workflow_main.Chunking.Toc.{
  ContentItem, Contents, TocPath, root, level_of, headers_of, add_header,
  build_toc_from_content_list, descend, last_header, resolve_toc_path,
}
use spark_workflow_main.Chunking.Merging.{raw_header}
use spark_workflow_main.Chunking.Toc.Titles.{get_header_level_and_title, get_clean_header}
use spark_workflow_main.Chunking.Toc.Ascent.{IsPlaced, resolve_toc_path-IsPlaced}

abbrev is_ascii_digit : ℕ → Bool
is_ascii_digit c = leb 48 c && leb c 57

abbrev heading : Text → ContentItem
heading s = record { item_type = lit "text"; text_level = some 1; text = some s }

abbrev items : List ContentItem
items =
    heading (lit "1 A")
    ∷ heading (lit "1.1 B")
    ∷ heading (lit " 1.1.1. C ")
    ∷ heading (lit "Intro")
    ∷ heading (lit "2 D")
    ∷ []

abbrev contents : Contents
contents = build_toc_from_content_list is_ascii_digit items

headers_run :
    headers_of is_ascii_digit items
    ≡ record { numbering = lit "1"; title = lit "1 A" }
      ∷ record { numbering = lit "1.1"; title = lit "1.1 B" }
      ∷ record { numbering = lit "1.1.1"; title = lit "1.1.1. C" }
      ∷ record { numbering = lit "2"; title = lit "2 D" }
      ∷ []
unfolding headers_of strip
headers_run = refl

toc_run :
    contents.toc
    ≡ (root, lit "1 A" ∷ lit "2 D" ∷ [])
      ∷ (lit "1 A", lit "1.1 B" ∷ [])
      ∷ (lit "1.1 B", lit "1.1.1. C" ∷ [])
      ∷ (lit "1.1.1. C", [])
      ∷ (lit "2 D", [])
      ∷ []
unfolding build_toc_from_content_list strip add_header level_of split
toc_run = refl

abbrev page_content : Text
page_content = lit "text" ++ (newline ∷ lit "## 1.1 B ") ++ newline ∷ lit "more"

abbrev nothing_yet : TocPath
nothing_yet = record { toc_path = []; all_subchapters = [] }

abbrev placed : TocPath
placed = record {
  toc_path = lit "1 A" ∷ lit "1.1 B" ∷ [];
  all_subchapters = lit "1 A" ∷ lit "1.1 B" ∷ lit "1.1.1. C" ∷ [];
}

resolve_run :
    resolve_toc_path 5 page_content (keys contents.parent_map) contents nothing_yet ≡ some placed
unfolding resolve_toc_path build_toc_from_content_list strip add_header level_of split descend
resolve_run = refl

within : All (λ h. level_of h.numbering ≤ 3) (headers_of is_ascii_digit items)
unfolding headers_of level_of strip split
within = (omega arith, (omega arith, (omega arith, (omega arith, tt))))

resolve_toc_path-IsPlaced_example :
    (result : TocPath) × ((resolve_toc_path 5 page_content
          (keys contents.parent_map)
          contents
          nothing_yet
        ≡ some result)
      × IsPlaced is_ascii_digit contents nothing_yet
          (last_header page_content (keys contents.parent_map) none)
          result)
resolve_toc_path-IsPlaced_example =
    resolve_toc_path-IsPlaced is_ascii_digit 3 items page_content nothing_yet within

level_run :
    get_header_level_and_title is_ascii_digit
      ((lit "Header 1", lit "Intro") ∷ (lit "Header 2", lit "1.2.3. Title") ∷ [])
    ≡ some (3, lit "1.2.3. Title")
unfolding get_header_level_and_title raw_header
level_run = refl

clean_run :
    get_clean_header ((lit "Header 1", lit "Intro") ∷ (lit "Header 2", lit "1.2 Title") ∷ [])
    ≡ some (lit "Title")
unfolding get_clean_header raw_header strip
clean_run = refl
