-- ===== src/Chunking/Headers/Tests.antt =====
-- Runs of the splitter at headers, and its theorem at such an input.
use spark_workflow_main.Common.{map, ◌≡◌, refl, false, [], ◌∷◌, ◌++◌}
use spark_workflow_main.Common.Text.{lit, newline, join, lstrip, strip, split}
use spark_workflow_main.Chunking.Merging.{Document}
use spark_workflow_main.Chunking.Headers.{
  by_length, sections_from, split_text_by_headers, headers_to_split_on, split_by_headers,
}
use spark_workflow_main.Chunking.Headers.Force.{lines_of}
use spark_workflow_main.Chunking.Headers.Levels.{AreLabelled, sections_from-AreLabelled}

split_run :
    split_by_headers (lit "# A" ++ newline ∷ lit "## B" ++ newline ∷ lit "x" ++ newline ∷ lit "# C")
    ≡ record { page_content = lit "# A"; metadata = (lit "Header 1", lit "A") ∷ [] }
      ∷ record {
        page_content = lit "## B" ++ newline ∷ lit "x";
        metadata = (lit "Header 1", lit "A") ∷ (lit "Header 2", lit "B") ∷ [];
      }
      ∷ record { page_content = lit "# C"; metadata = (lit "Header 1", lit "C") ∷ [] }
      ∷ []
unfolding split_text_by_headers split lstrip strip join
split_run = refl

sections_from-AreLabelled_example :
    let sections =
      sections_from false
        (by_length headers_to_split_on)
        (lit "# A" ∷ lit "## B" ∷ lit "x" ∷ lit "# C" ∷ [])
        []
        [] in
    (lines_of sections ≡ lit "# A" ∷ lit "## B" ∷ lit "x" ∷ lit "# C" ∷ [])
    × AreLabelled [] sections
sections_from-AreLabelled_example =
    sections_from-AreLabelled (lit "# A" ∷ lit "## B" ∷ lit "x" ∷ lit "# C" ∷ [])

-- Neither a sign without a space nor three signs begin a section.
other_lines :
    split_by_headers (lit "#A" ++ newline ∷ lit "### B")
    ≡ record { page_content = lit "#A" ++ newline ∷ lit "### B"; metadata = [] } ∷ []
unfolding split_text_by_headers split lstrip strip join
other_lines = refl

-- A header ends the one whose marker is as long as its own.
equal_markers :
    map
      (λ (d : Document). d.metadata)
      (split_text_by_headers false
        ((lit "*", lit "A") ∷ (lit "+", lit "B") ∷ [])
        (lit "* x" ++ newline ∷ lit "+ y"))
    ≡ ((lit "A", lit "x") ∷ []) ∷ ((lit "B", lit "y") ∷ []) ∷ []
unfolding split_text_by_headers split lstrip strip join
equal_markers = refl
