-- ===== src/Chunking/Headers/Levels.antt =====
-- The sections of the chunker against the levels of the Markdown headings: a reading of the text
-- that counts the signs of a heading, without markers and keys.
use spark_workflow_main.Common.{
  ℕ, zero, suc, ◌≤◌, ◌≡◌, refl, ◌∙◌, ◌⊎◌, inl, inr, false, ◌==◌, leb, ltb, Option, none, some, List,
  [], ◌∷◌, drop, Bool-cases, if◌then◌else◌, arith,
}
use spark_workflow_main.Common.Eq.{nat_eq, list_eq}
use spark_workflow_main.Common.Dict.{lookup}
use spark_workflow_main.Common.Text.{Text, lit, lstrip, strip}
use spark_workflow_main.Chunking.Headers.{
  first_marked, match_header, header_text, is_kept, marker_len_for_key, Section, sections_from,
  by_length, headers_to_split_on,
}
use spark_workflow_main.Chunking.Headers.Force.{
  decided, in_force, onto, lines_of, AreInForce, sections_from-AreInForce,
}

-- How many number signs lead the text, where a space follows them; otherwise 0.
abbrev pub signs : ℕ → Text → ℕ
signs n [] = 0
signs n (c ∷ t) = if c == 35 then signs (suc n) t else (if c == 32 then n else 0)

-- The level of a heading that the chunker splits at, 1 or 2; 0 for any other line.
abbrev pub heading_level : Text → ℕ
heading_level line = let n = signs 0 (lstrip line) in if leb n 2 then n else 0

abbrev pub heading_title : Text → Text
heading_title line = strip (drop (heading_level line) (lstrip line))

-- The heading of level `n` above which a line stands: a heading of a higher level ends it.
abbrev pub ruled : ℕ → ℕ → Text → Option Text → Option Text
ruled n level title earlier =
    if level == 0
    then earlier
    else (if level == n then some title else (if ltb level n then none else earlier))

-- It is read off the lines above, the last of them first.
unfoldable pub heading_over : ℕ → List Text → Option Text
heading_over n [] = none
heading_over n (line ∷ past) =
    ruled n (heading_level line) (heading_title line) (heading_over n past)

-- Each section, after some lines, is labelled with the headings of level 1 and 2 over its end.
abbrev pub AreLabelled : List Text → List Section → Type 0
AreLabelled past [] = Unit
AreLabelled past (s ∷ sections) =
    let above = onto s.section_lines past in
    (lookup (lit "Header 1") s.metadata ≡ heading_over 1 above)
    × (lookup (lit "Header 2") s.metadata ≡ heading_over 2 above)
    × AreLabelled above sections

abbrev chunk_headers : List (Text × Text)
chunk_headers = (lit "##", lit "Header 2") ∷ (lit "#", lit "Header 1") ∷ []

sorted_headers : by_length headers_to_split_on ≡ chunk_headers
unfolding by_length
sorted_headers = refl

abbrev header_of : ℕ → Option (Text × Text)
header_of n =
    if n == 1
    then some (lit "#", lit "Header 1")
    else (if n == 2 then some (lit "##", lit "Header 2") else none)

abbrev capped : ℕ → ℕ
capped n = if leb n 2 then n else 0

signs-start : (n : ℕ) (t : Text) → (signs n t ≡ 0) ⊎ (n ≤ signs n t)
signs-start n [] = inl refl
signs-start n (c ∷ t) = elim (Bool-cases (c == 35)) [
  | inl hash ↦ elim (signs-start (suc n) t) [
    | inl e ↦ inl (rw hash e)
    | inr le ↦ inr (rw hash (omega (arith, le)))
  ]
  | inr other ↦ elim (Bool-cases (c == 32)) [
    | inl space ↦ inr (rw (other, space) (omega arith))
    | inr none_of ↦ inl (rw (other, none_of) refl)
  ]
]

capped_three : (t : Text) → capped (signs 3 t) ≡ 0
capped_three t = elim (signs-start 3 t) [ inl e ↦ rw e refl | inr le ↦ ground (arith, le) ]

first_marked-level : (s : Text) → first_marked chunk_headers s ≡ header_of (capped (signs 0 s))
first_marked-level [] = refl
first_marked-level (a ∷ []) = ground arith
first_marked-level (a ∷ b ∷ []) = ground arith
first_marked-level (a ∷ b ∷ c ∷ t) = ground (arith, capped_three t)

match_header-level :
    (line : Text) → match_header chunk_headers line ≡ header_of (heading_level line)
unfolding match_header
match_header-level line = first_marked-level (lstrip line)

heading_level-bound : (line : Text) → heading_level line ≤ 2
heading_level-bound line = ground arith

decided-ruled_one :
    (line : Text) (n : ℕ) (earlier : Option Text)
    → heading_level line ≡ n
    → n ≤ 2
    → decided chunk_headers (lit "Header 1") line (header_of n) earlier
      ≡ ruled 1 n (heading_title line) earlier
unfolding is_kept marker_len_for_key header_text
decided-ruled_one line zero earlier e le = refl
decided-ruled_one line (suc zero) earlier e le = rw e refl
decided-ruled_one line (suc (suc zero)) earlier e le = refl
decided-ruled_one line (suc (suc (suc n))) earlier e le = absurd (omega (arith, le))

decided-ruled_two :
    (line : Text) (n : ℕ) (earlier : Option Text)
    → heading_level line ≡ n
    → n ≤ 2
    → decided chunk_headers (lit "Header 2") line (header_of n) earlier
      ≡ ruled 2 n (heading_title line) earlier
unfolding is_kept marker_len_for_key header_text
decided-ruled_two line zero earlier e le = refl
decided-ruled_two line (suc zero) earlier e le = refl
decided-ruled_two line (suc (suc zero)) earlier e le = rw e refl
decided-ruled_two line (suc (suc (suc n))) earlier e le = absurd (omega (arith, le))

in_force-one :
    (past : List Text) → in_force chunk_headers (lit "Header 1") past ≡ heading_over 1 past
unfolding in_force heading_over
in_force-one [] = refl
in_force-one (line ∷ past) =
    rw (match_header-level line, in_force-one past)
      (decided-ruled_one line (heading_level line) (heading_over 1 past) refl
        (heading_level-bound line))

in_force-two :
    (past : List Text) → in_force chunk_headers (lit "Header 2") past ≡ heading_over 2 past
unfolding in_force heading_over
in_force-two [] = refl
in_force-two (line ∷ past) =
    rw (match_header-level line, in_force-two past)
      (decided-ruled_two line (heading_level line) (heading_over 2 past) refl
        (heading_level-bound line))

AreInForce-AreLabelled :
    (past : List Text) (sections : List Section)
    → AreInForce chunk_headers past sections
    → AreLabelled past sections
AreInForce-AreLabelled past [] h = tt
AreInForce-AreLabelled past (s ∷ sections) (here, rest) = (
  here (lit "Header 1") ∙ in_force-one (onto s.section_lines past),
  here (lit "Header 2") ∙ in_force-two (onto s.section_lines past),
  AreInForce-AreLabelled (onto s.section_lines past) sections rest,
)

-- The chunker's sections hold every line of the text once and in order, and each is labelled under
-- "Header 1" and "Header 2" with the headings over its last line: of the lines up to it whose
-- stripped text begins with one or two number signs and a space, the last of level 1, and the last
-- of level 2 that no heading of level 1 follows, if there are any.
pub sections_from-AreLabelled :
    (lines : List Text)
    → let sections = sections_from false (by_length headers_to_split_on) lines [] [] in
      (lines_of sections ≡ lines) × AreLabelled [] sections
sections_from-AreLabelled lines =
    let (kept, labelled) = sections_from-AreInForce chunk_headers lines in
    rw sorted_headers (kept, AreInForce-AreLabelled [] _ labelled)
