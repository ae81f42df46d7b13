-- ===== src/Chunking/Toc/Ascent.antt =====
-- The path that is climbed from a title to the top, and what a chunk is given of the contents.
use spark_workflow_main.Common.{
  ℕ, zero, suc, ◌<◌, ◌≡◌, refl, sym, ap, subst, ◌∙◌, ◌⊎◌, inl, inr, Bool, true, false, Option, none,
  some, List, [], ◌∷◌, ◌++◌, All, Bool-cases, Option-cases, if◌then◌else◌, arith,
}
use spark_workflow_main.Common.Eq.{text_is, list_eq, nat_eq, elem, ◌==◌ as ◌=?◌}
use spark_workflow_main.Common.Dict.{Dict, lookup, keys}
use spark_workflow_main.Common.Options.{◌>>=◌}
use spark_workflow_main.Common.Text.{Text}
use spark_workflow_main.Chunking.Toc.{
  ContentItem, Contents, TocPath, root, climb, is_top, has_header, last_header, resolved,
  resolve_toc_path, build_toc_from_content_list, headers_of, match_numbering,
}
use spark_workflow_main.Chunking.Toc.Levels.{
  title_level, root_level, IsLevelled, IsWithin, build_toc-IsLevelled,
}
use spark_workflow_main.Chunking.Toc.Descent.{
  IsChain, chain-descendants, descendants_total, elem_first, elem_later,
}

lookup_key :
    (title : Text) (d : Dict Text Text)
    → elem title (keys d) ≡ true
    → (parent : Text) × (lookup title d ≡ some parent)
lookup_key title [] h = absurd (ground (arith, h))
lookup_key title ((key, parent) ∷ d) h = elim (Bool-cases (title =? key)) [
  | inl same ↦ (parent, rw same refl)
  | inr other ↦
      let found = lookup_key title d (ground (arith, h, other)) in
      (found.0, rw (other, found.1) refl)
]

All-later :
    (y : Text) (xs ys : List Text)
    → All (λ t. elem t ys ≡ true) xs
    → All (λ t. elem t (y ∷ ys) ≡ true) xs
All-later y [] ys h = tt
All-later y (x ∷ xs) ys h = (elem_later x y ys h.0, All-later y xs ys h.1)

abbrev AllIn : List Text → Option Text → Type 0
AllIn titles none = Unit
AllIn titles (some title) = elem title titles ≡ true

last_header-AllIn :
    (page_content : Text) (known titles : List Text) (last : Option Text)
    → ((title : Text) → elem title titles ≡ true → elem title known ≡ true)
    → AllIn known last
    → AllIn known (last_header page_content titles last)
unfolding last_header
last_header-AllIn page_content known [] last inside h = h
last_header-AllIn page_content known (title ∷ titles) last inside h =
    last_header-AllIn page_content known titles
      (if has_header title page_content then some title else last)
      (λ t there. inside t (elem_later t title titles there))
      (elim (Bool-cases (has_header title page_content)) [
        | inl found ↦ rw found (inside title (elem_first title titles))
        | inr missing ↦ rw missing h
      ])

module _ (is_decimal : ℕ → Bool) where
  climb_up :
      (fuel : ℕ) (parents : Dict Text Text) (title : Text) (path : List Text)
      → is_top title ≡ false
      → climb (suc fuel) parents (some title) path
        ≡ climb fuel parents (lookup title parents) (title ∷ path)
  unfolding climb
  climb_up fuel parents title path h = rw h refl

  root_is_zero : (title : Text) → (title =? root) ≡ true → title_level is_decimal title ≡ 0
  root_is_zero title same =
      subst (λ t. title_level is_decimal t ≡ 0) (sym (text_is title root same))
        (root_level is_decimal)

  not_top : (title : Text) → 0 < title_level is_decimal title → is_top title ≡ false
  unfolding match_numbering
  not_top [] h = absurd (omega (arith, h))
  not_top (c ∷ s) h = elim (Bool-cases ((c ∷ s) =? root)) [
    | inr other ↦ ground (arith, other)
    | inl same ↦ absurd (omega (arith, h, root_is_zero (c ∷ s) same))
  ]

  -- A path through the contents to a title, from one that stands directly under the root or has no
  -- parent.
  abbrev pub IsPathTo : Contents → Text → List Text → Type 0
  IsPathTo s title [] = ⊥
  IsPathTo s title (top ∷ path) =
      ((lookup top s.parent_map ≡ none) ⊎ (lookup top s.parent_map ≡ some root))
      × (IsChain s.toc top path × ((front : List Text) × (top ∷ path ≡ front ++ title ∷ [])))

  module _ (max_level : ℕ) (s : Contents) (h : IsLevelled is_decimal max_level s) where
    climb_path :
        (fuel : ℕ) (target title : Text) (path front : List Text)
        → title_level is_decimal title < fuel
        → IsChain s.toc title path
        → title ∷ path ≡ front ++ target ∷ []
        → (result : List Text) × ((climb fuel s.parent_map
                (lookup title s.parent_map)
                (title ∷ path)
              ≡ some result)
            × IsPathTo s target result)
    unfolding climb
    climb_path zero target title path front enough chain ends = absurd (omega (arith, enough))
    climb_path (suc fuel) target title path front enough chain ends =
        elim (Option-cases (lookup title s.parent_map)) [
          | inl orphan ↦ (title ∷ path, (rw orphan refl, (inl orphan, (chain, (front, ends)))))
          | inr (parent, found) ↦ elim (h.topped parent title found) [
            | inl top ↦ (
              title ∷ path,
              (rw (found, top) refl, (inr (rw (found, top) refl), (chain, (front, ends)))),
            )
            | inr deep_parent ↦
                let there = h.known parent title found in
                let deep = h.deeper parent title there in
                let up =
                  climb_path fuel target parent (title ∷ path) (parent ∷ front)
                    (omega (arith, deep, enough)) (there, chain) (ap (λ l. parent ∷ l) ends) in
                (
                  up.0,
                  (
                    rw
                        (
                          found,
                          climb_up fuel s.parent_map parent (title ∷ path)
                              (not_top parent deep_parent),
                        )
                        up.1.0,
                    up.1.1,
                  ),
                )
          ]
        ]

    -- The path from a key of `parent_map`.
    key_path :
        (title : Text)
        → elem title (keys s.parent_map) ≡ true
        → (path : List Text) × ((climb (suc (suc max_level)) s.parent_map (some title) []
              ≡ some path)
            × IsPathTo s title path)
    key_path title there =
        let (parent, found) = lookup_key title s.parent_map there in
        let deep = h.deeper parent title (h.known parent title found) in
        let up = climb_path (suc max_level) title title [] [] (omega (arith, deep)) tt refl in
        (
          up.0,
          (
            climb_up (suc max_level) s.parent_map title [] (not_top title (omega (arith, deep)))
                ∙ up.1.0,
            up.1.1,
          ),
        )

  -- What a chunk gets where its last header is a title of the contents, or where it has none.
  abbrev pub IsPlaced : Contents → TocPath → Option Text → TocPath → Type 0
  IsPlaced s last_valid none result = result ≡ last_valid
  IsPlaced s last_valid (some title) result =
      IsPathTo s title result.toc_path
      × All (λ t. elem t result.all_subchapters ≡ true) result.toc_path

  resolved-IsPlaced :
      (max_level : ℕ) (s : Contents) (last_valid : TocPath) (title : Text) (path : List Text)
      → IsLevelled is_decimal max_level s
      → IsPathTo s title path
      → (result : TocPath) × ((resolved (suc (suc max_level)) s.toc last_valid path ≡ some result)
          × IsPlaced s last_valid (some title) result)
  resolved-IsPlaced max_level s last_valid title [] h placed = elim placed [ ]
  resolved-IsPlaced max_level s last_valid title (top ∷ path) h placed =
      let (below, found) =
        descendants_total s.toc (title_level is_decimal) max_level h.deeper (suc (suc max_level))
          top (omega arith) (omega arith) in
      let later = chain-descendants s.toc (suc (suc max_level)) top path below found placed.1.0 in
      (
        record { toc_path = top ∷ path; all_subchapters = top ∷ below },
        (rw found refl, (placed, (elem_first top below, All-later top path below later))),
      )

  last-IsPlaced :
      (max_level : ℕ) (s : Contents) (last_valid : TocPath) (last : Option Text)
      → IsLevelled is_decimal max_level s
      → AllIn (keys s.parent_map) last
      → (result : TocPath) × (((climb (suc (suc max_level)) s.parent_map last [] >>= λ path.
              resolved (suc (suc max_level)) s.toc last_valid path)
            ≡ some result)
          × IsPlaced s last_valid last result)
  unfolding climb
  last-IsPlaced max_level s last_valid none h there = (last_valid, (refl, refl))
  last-IsPlaced max_level s last_valid (some title) h there =
      let (path, (found, placed)) = key_path max_level s h title there in
      let result = resolved-IsPlaced max_level s last_valid title path h placed in
      (result.0, (rw found result.1.0, result.1.1))

  -- Where no header of the contents is deeper than `max_level`, resolve_toc_path on the contents
  -- that build_toc_from_content_list builds ends, within `max_level + 2` steps up and calls down.
  -- With no header of the contents in the chunk it gives what was last valid; with one, it gives a
  -- path whose titles are each a child of the one before, from the top of the contents to the last
  -- header in the chunk, and subchapters that hold every title of the path.
  pub resolve_toc_path-IsPlaced :
      (max_level : ℕ) (content_list : List ContentItem) (page_content : Text) (last_valid : TocPath)
      → All (IsWithin is_decimal max_level) (headers_of is_decimal content_list)
      → let s = build_toc_from_content_list is_decimal content_list in
        let titles = keys s.parent_map in
        (result : TocPath) × ((resolve_toc_path
              (suc (suc max_level))
              page_content
              titles
              s
              last_valid
            ≡ some result)
          × IsPlaced s last_valid (last_header page_content titles none) result)
  unfolding resolve_toc_path
  resolve_toc_path-IsPlaced max_level content_list page_content last_valid within =
      let s = build_toc_from_content_list is_decimal content_list in
      last-IsPlaced max_level s last_valid (last_header page_content (keys s.parent_map) none)
        (build_toc-IsLevelled is_decimal max_level content_list within)
        (last_header-AllIn page_content (keys s.parent_map) (keys s.parent_map) none
          (λ t there. there) tt)
