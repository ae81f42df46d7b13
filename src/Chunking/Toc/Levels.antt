-- ===== src/Chunking/Toc/Levels.antt =====
-- The level of a title, read off its numbering, grows from a header to its children.
use spark_workflow_main.Common.{
  ℕ, ◌≤◌, ◌<◌, ◌≡◌, refl, sym, ap, subst, ◌⊎◌, inl, inr, Bool, true, false, ◌&&◌, Option, none,
  some, List, [], ◌∷◌, All, ◌==◌, length, leb, leb-false, drop_while, not, Bool-cases, Option-cases,
  arith,
}
use spark_workflow_main.Common.Eq.{Eq, list_eq, nat_eq, elem, beq_refl, ◌==◌ as ◌=?◌}
use spark_workflow_main.Common.Dict.{lookup, lookup-insert}
use spark_workflow_main.Common.Text.{Text, lit, is_space, split, strip, cons_first}
use spark_workflow_main.Chunking.Toc.{
  ContentItem, Header, Contents, dot, root, strip_dots, level_of, space_first, is_number_part,
  match_numbering, header_of_value, header_of_item, kept, headers_of, numbered_header, is_level_one,
  pop_lineage, parent_title, add_under, add_header, add_headers, build_toc_from_content_list,
  children_of,
}
use spark_workflow_main.Chunking.Toc.Parents.{elem-add_under}

abbrev pub numbering_level : Option Text → ℕ
numbering_level none = 0
numbering_level (some prefix) = level_of (strip_dots prefix)

first_some : (d : ℕ) (parts : List Text) → 0 < length (cons_first d parts)
first_some d [] = omega arith
first_some d (part ∷ parts) = omega arith

split_some : (c : ℕ) (s : Text) → 0 < length (split c s)
unfolding split
split_some c [] = omega arith
split_some c (d ∷ s) = elim (Bool-cases (d == c)) [
  | inl at ↦ rw at (omega arith)
  | inr off ↦ rw off (first_some d (split c s))
]

abbrev has_no_space : Text → Bool
has_no_space [] = true
has_no_space (c ∷ s) = not (is_space c) && has_no_space s

no_space_left :
    (p : ℕ → Bool) (s : Text) → has_no_space s ≡ true → space_first (drop_while p s) ≡ false
no_space_left p [] h = refl
no_space_left p (c ∷ s) h = ground (arith, no_space_left p s, h)

has_no_space-root : has_no_space root ≡ true
unfolding is_space
has_no_space-root = refl

module _ (is_decimal : ℕ → Bool) where
  abbrev pub title_level : Text → ℕ
  title_level title = numbering_level (match_numbering is_decimal title)

  pub root_level : title_level root ≡ 0
  unfolding match_numbering
  root_level = ground (arith, no_space_left (is_number_part is_decimal) root has_no_space-root)

  abbrev pub IsTitled : Header → Type 0
  IsTitled header = title_level header.title ≡ level_of header.numbering

  abbrev pub AllTitled : Option Header → Type 0
  AllTitled none = Unit
  AllTitled (some header) = IsTitled header

  numbered_header-IsTitled : (text : Text) → AllTitled (numbered_header is_decimal text)
  numbered_header-IsTitled text = elim (Option-cases (match_numbering is_decimal text)) [
    | inl unnumbered ↦ rw unnumbered tt
    | inr (prefix, matched) ↦ rw matched (ap numbering_level matched)
  ]

  value-IsTitled : (value : Option Text) → AllTitled (header_of_value is_decimal value)
  value-IsTitled none = tt
  value-IsTitled (some []) = tt
  value-IsTitled (some (c ∷ s)) = numbered_header-IsTitled (strip (c ∷ s))

  item-IsTitled : (item : ContentItem) → AllTitled (header_of_item is_decimal item)
  unfolding header_of_item
  item-IsTitled item =
      elim (Bool-cases ((item.item_type =? lit "text") && is_level_one item.text_level)) [
        | inl text ↦ rw text (value-IsTitled item.text)
        | inr other ↦ rw other tt
      ]

  kept-IsTitled :
      (o : Option Header) (headers : List Header)
      → AllTitled o
      → All IsTitled headers
      → All IsTitled (kept o headers)
  kept-IsTitled none headers h rest = rest
  kept-IsTitled (some header) headers h rest = (h, rest)

  pub headers_of-IsTitled : (items : List ContentItem) → All IsTitled (headers_of is_decimal items)
  unfolding headers_of
  headers_of-IsTitled [] = tt
  headers_of-IsTitled (item ∷ items) =
      kept-IsTitled (header_of_item is_decimal item) (headers_of is_decimal items)
        (item-IsTitled item) (headers_of-IsTitled items)

  pop-IsTitled :
      (level : ℕ) (lineage : List Header)
      → All IsTitled lineage
      → All IsTitled (pop_lineage level lineage)
        × (0 < level → title_level (parent_title (pop_lineage level lineage)) < level)
  unfolding pop_lineage
  pop-IsTitled level [] h = (tt, λ positive. rw root_level positive)
  pop-IsTitled level (header ∷ lineage) h =
      elim (Bool-cases (leb level (level_of header.numbering))) [
        | inl deep ↦ rw deep (pop-IsTitled level lineage h.1)
        | inr above ↦
            rw above (h, λ positive. rw h.0 (leb-false level (level_of header.numbering) above))
      ]

  level_positive : (header : Header) → IsTitled header → 0 < title_level header.title
  unfolding level_of
  level_positive header h = rw h (split_some dot header.numbering)

  -- The root, or a numbered_header title
  abbrev pub IsNode : Text → Type 0
  IsNode key = (key ≡ root) ⊎ (0 < title_level key)

  parent-IsNode : (lineage : List Header) → All IsTitled lineage → IsNode (parent_title lineage)
  parent-IsNode [] h = inl refl
  parent-IsNode (header ∷ lineage) h = inr (level_positive header h.0)

  -- Every child is deeper than its parent, and no deeper than `max_level`; every parent that
  -- `parent_map` gives has the title among its children.
  pub record IsLevelled (max_level : ℕ) (s : Contents) : Type 0 where
    pub deeper :
        (key child : Text)
        → elem child (children_of s.toc key) ≡ true
        → (title_level key < title_level child) × (title_level child ≤ max_level)
    pub known :
        (key child : Text)
        → lookup child s.parent_map ≡ some key
        → elem child (children_of s.toc key) ≡ true
    pub topped : (key child : Text) → lookup child s.parent_map ≡ some key → IsNode key
    pub titled : All IsTitled s.lineage

  add_under-IsLevelled :
      (max_level : ℕ) (parent : Text) (lineage : List Header) (s : Contents) (header : Header)
      → IsLevelled max_level s
      → All IsTitled (header ∷ lineage)
      → IsNode parent
      → title_level parent < title_level header.title
      → title_level header.title ≤ max_level
      → IsLevelled max_level (add_under parent header.title lineage s header)
  add_under-IsLevelled max_level parent lineage s header h titled node deep within = record {
    deeper = λ key child there. ground (
      arith,
      there,
      elem-add_under parent header.title lineage s header child key,
      h.deeper key child,
      deep,
      within,
      Eq.same_iff (list_eq {A = ℕ}) key parent,
      Eq.same_iff (list_eq {A = ℕ}) child header.title,
    );
    known = λ key child found. ground (
      arith,
      found,
      lookup-insert header.title child parent s.parent_map,
      elem-add_under parent header.title lineage s header child key,
      h.known key child,
      beq_refl child,
      beq_refl parent,
      Eq.same_iff (list_eq {A = ℕ}) child header.title,
    );
    topped = λ key child found. elim (Bool-cases (child =? header.title)) [
      | inl same ↦
          subst IsNode
            (ground (arith, found, same, lookup-insert header.title child parent s.parent_map)) node
      | inr other ↦
          h.topped key child
            (ground (arith, found, other, lookup-insert header.title child parent s.parent_map))
    ];
    titled = titled;
  }

  add_header-IsLevelled :
      (max_level : ℕ) (header : Header) (s : Contents)
      → IsTitled header
      → level_of header.numbering ≤ max_level
      → IsLevelled max_level s
      → IsLevelled max_level (add_header header s)
  unfolding add_header
  add_header-IsLevelled max_level header s titled within h =
      let level = level_of header.numbering in
      let popped = pop-IsTitled level s.lineage h.titled in
      add_under-IsLevelled max_level (parent_title (pop_lineage level s.lineage))
        (pop_lineage level s.lineage) s header h (titled, popped.0)
        (parent-IsNode (pop_lineage level s.lineage) popped.0)
        (rw titled (popped.1 (rw (sym titled) (level_positive header titled)))) (rw titled within)

  abbrev pub IsWithin : ℕ → Header → Type 0
  IsWithin max_level header = level_of header.numbering ≤ max_level

  add_headers-IsLevelled :
      (max_level : ℕ) (headers : List Header) (s : Contents)
      → All IsTitled headers
      → All (IsWithin max_level) headers
      → IsLevelled max_level s
      → IsLevelled max_level (add_headers headers s)
  unfolding add_headers
  add_headers-IsLevelled max_level [] s titled within h = h
  add_headers-IsLevelled max_level (header ∷ headers) s titled within h =
      add_headers-IsLevelled max_level headers (add_header header s) titled.1 within.1
        (add_header-IsLevelled max_level header s titled.0 within.0 h)

  empty_root : (key child : Text) → elem child (children_of ((root, []) ∷ []) key) ≡ false
  empty_root key child = elim (Bool-cases (key =? root)) [
    | inl same ↦ ground (arith, same)
    | inr other ↦ ground (arith, other)
  ]

  pub build_toc-IsLevelled :
      (max_level : ℕ) (content_list : List ContentItem)
      → All (IsWithin max_level) (headers_of is_decimal content_list)
      → IsLevelled max_level (build_toc_from_content_list is_decimal content_list)
  unfolding build_toc_from_content_list
  build_toc-IsLevelled max_level content_list within =
      add_headers-IsLevelled max_level (headers_of is_decimal content_list) _
        (headers_of-IsTitled content_list) within
        (record {
          deeper = λ key child there. ground (arith, there, empty_root key child);
          known = λ key child found. ground (arith, found);
          topped = λ key child found. ground (arith, found);
          titled = tt;
        })
