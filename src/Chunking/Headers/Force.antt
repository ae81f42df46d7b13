-- ===== src/Chunking/Headers/Force.antt =====
-- The sections against the headers that the splitter's own tests put in force, for any list of
-- markers.
use spark_workflow_main.Common.{
  ◌≡◌, refl, sym, ap, ◌∙◌, inl, inr, Bool, false, Option, none, some, List, [], ◌∷◌, ◌++◌,
  append_assoc, Bool-cases, Option-cases, if◌then◌else◌, arith,
}
use spark_workflow_main.Common.Eq.{text_is, list_eq, nat_eq, ◌==◌ as ◌=?◌}
use spark_workflow_main.Common.Dict.{Dict, lookup, lookup-insert}
use spark_workflow_main.Common.Text.{Text}
use spark_workflow_main.Chunking.Headers.{
  match_header, header_text, is_kept, keep_keys, update_metadata, Section, flush, sections_from,
}

lookup-keep_keys :
    (keep : Text → Bool) (k : Text) (d : Dict Text Text)
    → lookup k (keep_keys keep d) ≡ (if keep k then lookup k d else none)
lookup-keep_keys keep k [] = ground arith
lookup-keep_keys keep k ((j, v) ∷ d) = elim (Bool-cases (k =? j)) [
  | inr other ↦ elim (Bool-cases (keep j)) [
    | inl kept ↦ rw (kept, other) (lookup-keep_keys keep k d)
    | inr dropped ↦ rw (dropped, other) (lookup-keep_keys keep k d)
  ]
  | inl same ↦
      let here : keep j ≡ keep k = ap keep (sym (text_is k j same)) in
      elim (Bool-cases (keep k)) [
        | inl kept ↦ rw (here ∙ kept, kept, same) refl
        | inr dropped ↦ rw (here ∙ dropped, dropped) (lookup-keep_keys keep k d ∙ rw dropped refl)
      ]
]

abbrev pub lines_of : List Section → List Text
lines_of [] = []
lines_of (s ∷ sections) = s.section_lines ++ lines_of sections

lines_of-flush :
    (metadata : Dict Text Text) (lines : List Text) (sections : List Section)
    → lines_of (flush metadata lines sections) ≡ lines ++ lines_of sections
lines_of-flush metadata [] sections = refl
lines_of-flush metadata (line ∷ lines) sections = refl

-- The lines, put one by one in front of those that stand before them.
abbrev pub onto : List Text → List Text → List Text
onto [] past = past
onto (line ∷ lines) past = onto lines (line ∷ past)

module _ (headers : List (Text × Text)) where
  -- The header in force for a key after some lines, the last of them first: the last header line
  -- with that key, unless a header that does not keep the key follows it.
  abbrev pub decided : Text → Text → Option (Text × Text) → Option Text → Option Text
  decided k line none earlier = earlier
  decided k line (some header) earlier =
      if k =? header.1
      then some (header_text header.0 line)
      else (if is_kept headers header.1 k then earlier else none)

  unfoldable pub in_force : Text → List Text → Option Text
  in_force k [] = none
  in_force k (line ∷ past) = decided k line (match_header headers line) (in_force k past)

  lookup-update_metadata :
      (k key value : Text) (d : Dict Text Text)
      → lookup k (update_metadata headers d key value)
        ≡ (if k =? key then some value else (if is_kept headers key k then lookup k d else none))
  unfolding update_metadata
  lookup-update_metadata k key value d =
      lookup-insert key k value (keep_keys (λ j. is_kept headers key j) d)
      ∙ ap (λ o. if k =? key then some value else o)
          (lookup-keep_keys (λ j. is_kept headers key j) k d)

  abbrev pub IsInForce : Dict Text Text → List Text → Type 0
  IsInForce metadata past = (k : Text) → lookup k metadata ≡ in_force k past

  -- Each section, after some lines, has the headers in force at its end for its metadata.
  abbrev pub AreInForce : List Text → List Section → Type 0
  AreInForce past [] = Unit
  AreInForce past (s ∷ sections) =
      IsInForce s.metadata (onto s.section_lines past)
      × AreInForce (onto s.section_lines past) sections

  onto-append :
      (lines : List Text) (line : Text) (past : List Text)
      → onto (lines ++ line ∷ []) past ≡ line ∷ onto lines past
  onto-append [] line past = refl
  onto-append (l ∷ lines) line past = onto-append lines line (l ∷ past)

  flush-AreInForce :
      (metadata : Dict Text Text) (lines past : List Text) (sections : List Section)
      → IsInForce metadata (onto lines past)
      → AreInForce (onto lines past) sections
      → AreInForce past (flush metadata lines sections)
  flush-AreInForce metadata [] past sections h rest = rest
  flush-AreInForce metadata (line ∷ lines) past sections h rest = (h, rest)

  plain_line :
      (line : Text) (lines : List Text) (metadata : Dict Text Text) (current : List Text)
      → match_header headers line ≡ none
      → sections_from false headers (line ∷ lines) metadata current
        ≡ sections_from false headers lines metadata (current ++ line ∷ [])
  unfolding sections_from
  plain_line line lines metadata current h = rw (h, sections_from) refl

  header_line :
      (line : Text) (lines : List Text) (metadata : Dict Text Text) (current : List Text)
      (header : Text × Text)
      → match_header headers line ≡ some header
      → sections_from false headers (line ∷ lines) metadata current
        ≡ flush metadata current (
            sections_from false headers lines
              (update_metadata headers metadata header.1 (header_text header.0 line))
              (line ∷ []))
  unfolding sections_from
  header_line line lines metadata current header h = rw (h, sections_from) refl

  no_line :
      (metadata : Dict Text Text) (current : List Text)
      → sections_from false headers [] metadata current ≡ flush metadata current []
  unfolding sections_from
  no_line metadata current = refl

  sections-AreInForce :
      (lines : List Text) (metadata : Dict Text Text) (current past : List Text)
      → IsInForce metadata (onto current past)
      → AreInForce past (sections_from false headers lines metadata current)
  unfolding in_force
  sections-AreInForce [] metadata current past h =
      rw (no_line metadata current) (flush-AreInForce metadata current past [] h tt)
  sections-AreInForce (line ∷ lines) metadata current past h =
      elim (Option-cases (match_header headers line)) [
        | inl plain ↦ rw (plain_line line lines metadata current plain) (
            sections-AreInForce lines metadata (current ++ line ∷ []) past
              (λ k. rw (onto-append current line past, plain) (h k)))
        | inr (header, found) ↦ rw (header_line line lines metadata current header found) (
            flush-AreInForce metadata current past _ h (
              sections-AreInForce lines
                (update_metadata headers metadata header.1 (header_text header.0 line)) (line ∷ [])
                (onto current past)
                (λ k.
                  lookup-update_metadata k header.1 (header_text header.0 line) metadata
                  ∙ rw (found, h k) refl)))
      ]

  lines_of-sections_from :
      (lines : List Text) (metadata : Dict Text Text) (current : List Text)
      → lines_of (sections_from false headers lines metadata current) ≡ current ++ lines
  lines_of-sections_from [] metadata current =
      rw (no_line metadata current, lines_of-flush metadata current []) refl
  lines_of-sections_from (line ∷ lines) metadata current =
      elim (Option-cases (match_header headers line)) [
        | inl plain ↦ rw (plain_line line lines metadata current plain) (
            lines_of-sections_from lines metadata (current ++ line ∷ [])
            ∙ append_assoc current (line ∷ []) lines)
        | inr (header, found) ↦ rw (header_line line lines metadata current header found) (
            lines_of-flush metadata current _
            ∙ ap (λ l. current ++ l) (lines_of-sections_from lines _ (line ∷ [])))
      ]

  -- Where headers stay in the text, as the chunker has it, the sections hold every line once and in
  -- order, and each section's metadata give for every key the header in force at its end.
  pub sections_from-AreInForce :
      (lines : List Text)
      → let sections = sections_from false headers lines [] [] in
        (lines_of sections ≡ lines) × AreInForce [] sections
  unfolding in_force
  sections_from-AreInForce lines =
      (lines_of-sections_from lines [] [], sections-AreInForce lines [] [] [] (λ k. refl))
