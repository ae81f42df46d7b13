-- ===== src/Chunking/Toc.antt =====
-- The table of contents of toc_builder.py: `build_toc_from_content_list`, `get_all_descendants` and
-- `resolve_toc_path`. Which code points `\d` matches is a parameter; a content item is what the
-- filter reads of it.
pub mod Levels
pub mod Parents
pub mod Descent
pub mod Ascent
pub mod Titles
mod Tests
use spark_workflow_main.Common.{
  ℕ, zero, suc, ◌+◌, Bool, true, false, not, ◌&&◌, ◌||◌, Option, none, some, List, [], ◌∷◌, ◌++◌,
  length, leb, if◌then◌else◌, ◌==◌, take_while, drop_while,
}
use mathlib.Core.List.{reverse}
use spark_workflow_main.Common.Eq.{list_eq, nat_eq, elem, ◌==◌ as ◌=?◌}
use spark_workflow_main.Common.Dict.{Dict, lookup, contains, insert, update}
use spark_workflow_main.Common.Options.{◌>>=◌}
use spark_workflow_main.Common.Text.{Text, lit, is_space, is_empty, newline, strip, split}

-- What the filter reads of an item: its type, its text_level and its text, where it has them.
pub record ContentItem : Type 0 where
  pub item_type : Text
  pub text_level : Option ℕ
  pub text : Option Text

pub record Header : Type 0 where
  pub numbering : Text
  pub title : Text

-- A full stop
abbrev pub dot : ℕ
dot = 46

abbrev pub root : Text
root = lit "_DOCUMENT_ROOT_"

-- `s.strip(".")`
abbrev pub strip_dots : Text → Text
strip_dots s = reverse (drop_while (λ c. c == dot) (reverse (drop_while (λ c. c == dot) s)))

-- `len(numbering.split("."))`
unfoldable pub level_of : Text → ℕ
level_of numbering = length (split dot numbering)

abbrev pub space_first : Text → Bool
space_first [] = false
space_first (c ∷ s) = is_space c

-- The header of a stripped text, where it is numbered.
abbrev pub header_of_text : Text → Option Text → Option Header
header_of_text text none = none
header_of_text text (some prefix) = some (record { numbering = strip_dots prefix; title = text })

abbrev pub is_level_one : Option ℕ → Bool
is_level_one none = false
is_level_one (some n) = n == 1

abbrev pub kept : Option Header → List Header → List Header
kept none headers = headers
kept (some header) headers = header ∷ headers

module _ (is_decimal : ℕ → Bool) where
  abbrev pub is_number_part : ℕ → Bool
  is_number_part c = is_decimal c || (c == dot)

  -- `re.match(r"^([\d\.]+)\s+(.*)", text)`: the first group. No space is a decimal digit, so that
  -- the group is the whole run.
  unfoldable pub match_numbering : Text → Option Text
  match_numbering text =
      let prefix = take_while is_number_part text in
      if not (is_empty prefix) && space_first (drop_while is_number_part text)
      then some prefix
      else none

  abbrev pub numbered_header : Text → Option Header
  numbered_header text = header_of_text text (match_numbering text)

  -- `if not text_val: continue`
  abbrev pub header_of_value : Option Text → Option Header
  header_of_value none = none
  header_of_value (some []) = none
  header_of_value (some (c ∷ s)) = numbered_header (strip (c ∷ s))

  unfoldable pub header_of_item : ContentItem → Option Header
  unfolding match_numbering
  header_of_item item =
      if (item.item_type =? lit "text") && is_level_one item.text_level
      then header_of_value item.text
      else none

  -- The first loop
  unfoldable pub headers_of : List ContentItem → List Header
  unfolding header_of_item
  headers_of [] = []
  headers_of (item ∷ items) = kept (header_of_item item) (headers_of items)

-- The variables of the second loop; `lineage` with its last header first.
pub record Contents : Type 0 where
  pub toc : Dict Text (List Text)
  pub parent_map : Dict Text Text
  pub lineage : List Header

-- `while lineage and len(lineage[-1]["numbering"].split(".")) >= level: lineage.pop()`
unfoldable pub pop_lineage : ℕ → List Header → List Header
pop_lineage level [] = []
pop_lineage level (header ∷ lineage) =
    if leb level (level_of header.numbering) then pop_lineage level lineage else header ∷ lineage

abbrev pub parent_title : List Header → Text
parent_title [] = root
parent_title (header ∷ lineage) = header.title

-- `if key not in toc: toc[key] = []`
abbrev pub with_key : Text → Dict Text (List Text) → Dict Text (List Text)
with_key key toc = if contains key toc then toc else insert key [] toc

-- `if title not in children: children.append(title)`
abbrev pub with_child : Text → List Text → List Text
with_child title children = if elem title children then children else children ++ title ∷ []

abbrev pub add_under : Text → Text → List Header → Contents → Header → Contents
add_under parent title lineage s header = record {
  toc = with_key title (update parent (with_child title) (with_key parent s.toc));
  parent_map = insert title parent s.parent_map;
  lineage = header ∷ lineage;
}

-- A step of the second loop
unfoldable pub add_header : Header → Contents → Contents
unfolding pop_lineage
add_header header s =
    let lineage = pop_lineage (level_of header.numbering) s.lineage in
    add_under (parent_title lineage) header.title lineage s header

unfoldable pub add_headers : List Header → Contents → Contents
add_headers [] s = s
add_headers (header ∷ headers) s = add_headers headers (add_header header s)

unfoldable pub build_toc_from_content_list : (ℕ → Bool) → List ContentItem → Contents
unfolding add_headers headers_of
build_toc_from_content_list is_decimal content_list =
    add_headers (headers_of is_decimal content_list)
      (record { toc = (root, []) ∷ []; parent_map = []; lineage = [] })

-- `toc.get(header_title, [])`
abbrev pub children_of : Dict Text (List Text) → Text → List Text
children_of toc title = elim (lookup title toc) [ none ↦ [] | some children ↦ children ]

-- The loop over the children, on the call with a child
unfoldable pub descend : (Text → Option (List Text)) → List Text → Option (List Text)
descend again [] = some []
descend again (child ∷ children) = do
  below ← again child
  rest ← descend again children
  some (child ∷ (below ++ rest))

-- `get_all_descendants`, on fuel for the depth of its calls: `none` where it is used up.
unfoldable pub get_all_descendants : ℕ → Dict Text (List Text) → Text → Option (List Text)
get_all_descendants zero toc title = none
get_all_descendants (suc fuel) toc title =
    descend (get_all_descendants fuel toc) (children_of toc title)

abbrev pub is_top : Text → Bool
is_top title = is_empty title || (title =? root)

-- `while current and current != "_DOCUMENT_ROOT_": …`, on fuel: the path that is appended to, which
-- grows at its end, given from its last title on.
unfoldable pub climb : ℕ → Dict Text Text → Option Text → List Text → Option (List Text)
climb zero parents current path = none
climb (suc fuel) parents none path = some path
climb (suc fuel) parents (some title) path =
    let next = climb fuel parents (lookup title parents) (title ∷ path) in
    if is_top title then some path else next

-- What the chunk's metadata get, and what is returned: `toc_path` and `all_subchapters`.
pub record TocPath : Type 0 where
  pub toc_path : List Text
  pub all_subchapters : List Text

-- `\s*$` of a pattern whose `$` stands before each newline and at the end
unfoldable pub ends_line : Text → Bool
ends_line [] = true
ends_line (c ∷ s) = (c == newline) || (is_space c && ends_line s)

-- `{re.escape(header_title)}\s*$`
abbrev pub holds_title : Text → Text → Bool
holds_title [] s = ends_line s
holds_title (c ∷ title) [] = false
holds_title (c ∷ title) (d ∷ s) = (c == d) && holds_title title s

-- `\s*` before it
abbrev pub after_spaces : Text → Text → Bool
after_spaces title [] = holds_title title []
after_spaces title (c ∷ s) = holds_title title (c ∷ s) || (is_space c && after_spaces title s)

-- `#+\s*` before it; 35 is the number sign.
abbrev pub after_hashes : Text → Text → Bool
after_hashes title [] = false
after_hashes title (c ∷ s) = (c == 35) && (after_spaces title s || after_hashes title s)

abbrev pub is_header_line : Text → Text → Bool
is_header_line title s = holds_title title s || after_hashes title s

-- The starts of the lines behind the first, of a text that is read from the middle of a line on.
abbrev pub has_header_below : Text → Text → Bool
has_header_below title [] = false
has_header_below title (c ∷ s) =
    ((c == newline) && is_header_line title s) || has_header_below title s

-- `re.search(pattern, page_content, re.MULTILINE)`
unfoldable pub has_header : Text → Text → Bool
unfolding ends_line
has_header title page_content =
    is_header_line title page_content || has_header_below title page_content

-- The last header of the list that the chunk holds
unfoldable pub last_header : Text → List Text → Option Text → Option Text
unfolding has_header
last_header page_content [] last = last
last_header page_content (title ∷ titles) last =
    last_header page_content titles (if has_header title page_content then some title else last)

-- `if path: … else: …`
abbrev pub resolved : ℕ → Dict Text (List Text) → TocPath → List Text → Option TocPath
resolved fuel toc last_valid [] = some last_valid
resolved fuel toc last_valid (top ∷ path) = do
  below ← get_all_descendants fuel toc top
  some (record { toc_path = top ∷ path; all_subchapters = top ∷ below })

unfoldable pub resolve_toc_path : ℕ → Text → List Text → Contents → TocPath → Option TocPath
unfolding climb get_all_descendants last_header
resolve_toc_path fuel page_content all_valid_headers s last_valid = do
  path ← climb fuel s.parent_map (last_header page_content all_valid_headers none) []
  resolved fuel s.toc last_valid path
