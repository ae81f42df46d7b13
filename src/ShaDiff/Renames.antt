-- ===== src/ShaDiff/Renames.antt =====
-- `get_renamed`: the pairs of names with one hash that the tests take for a rename.
use spark_workflow_main.Common.{
  Bool, false, not, ◌&&◌, ◌||◌, none, some, List, [], ◌∷◌, ◌++◌, filter, if◌then◌else◌, ◌==◌,
}
use spark_workflow_main.Common.Eq.{list_eq, nat_eq, ◌==◌ as ◌=?◌}
use spark_workflow_main.Common.Dict.{Dict, lookup}
use spark_workflow_main.Common.Text.{Text, lit, is_empty, split}
use spark_workflow_main.ShaDiff.{RenameChange, text_leb}

-- `sha_to_names[sha].append(name)` on a defaultdict
abbrev pub append_name : Text → Text → Dict Text (List Text) → Dict Text (List Text)
append_name sha name [] = (sha, name ∷ []) ∷ []
append_name sha name ((s, names) ∷ d) =
    if sha =? s then (s, names ++ name ∷ []) ∷ d else (s, names) ∷ append_name sha name d

-- The loop that groups the names of a map by their hashes
unfoldable pub group_onto : Dict Text (List Text) → Dict Text Text → Dict Text (List Text)
group_onto d [] = d
group_onto d ((name, sha) ∷ items) = group_onto (append_name sha name d) items

abbrev pub names_of : Dict Text (List Text) → Text → List Text
names_of d sha = elim (lookup sha d) [ none ↦ [] | some names ↦ names ]

-- `Path(s).parent`: the root and the parts, of which "" and "." are left out, but the last.
abbrev pub path_root : Text → Text
path_root [] = []
path_root (c ∷ []) = if c == 47 then lit "/" else []
path_root (c ∷ d ∷ []) = if c == 47 then (if d == 47 then lit "//" else lit "/") else []
path_root (c ∷ d ∷ e ∷ s) =
    if c == 47 then (if (d == 47) && not (e == 47) then lit "//" else lit "/") else []

abbrev pub is_part : Text → Bool
is_part s = not (is_empty s) && not (s =? lit ".")

abbrev pub but_last : List Text → List Text
but_last [] = []
but_last (p ∷ []) = []
but_last (p ∷ q ∷ ps) = p ∷ but_last (q ∷ ps)

unfoldable pub same_parent : Text → Text → Bool
same_parent s t =
    (path_root s =? path_root t)
    && (but_last (filter is_part (split 47 s)) =? but_last (filter is_part (split 47 t)))

-- `tuple(sorted([s, t]))`, and whether it is in `seen`
abbrev pub pair_of : Text → Text → Text × Text
pair_of s t = if text_leb s t then (s, t) else (t, s)

abbrev pub is_seen : Text × Text → List (Text × Text) → Bool
is_seen p [] = false
is_seen p (q ∷ seen) = ((p.0 =? q.0) && (p.1 =? q.1)) || is_seen p seen

-- The variables of the loops of `get_renamed`
pub record Renaming : Type 0 where
  pub seen : List (Text × Text)
  pub renamed : List RenameChange

module _ (is_similar : Text → Text → Bool) (rename_same_dir_only : Bool) where
  -- Whether none of the tests but that of `seen` skips the pair.
  unfoldable pub is_rename : Text → Text → Bool
  unfolding same_parent
  is_rename s t = not (s =? t) && ((not rename_same_dir_only || same_parent s t) && is_similar s t)

  abbrev pub with_rename : Text → Text → Text → Renaming → Renaming
  with_rename sha s t x = record {
    seen = pair_of s t ∷ x.seen;
    renamed = x.renamed ++ record { file_id = []; old_name = t; new_name = s; sha = sha } ∷ [];
  }

  -- The body of the innermost loop
  unfoldable pub consider : Text → Text → Text → Renaming → Renaming
  unfolding is_rename
  consider sha s t x =
      if is_rename s t && not (is_seen (pair_of s t) x.seen) then with_rename sha s t x else x

  unfoldable pub each_target : Text → Text → List Text → Renaming → Renaming
  unfolding consider
  each_target sha s [] x = x
  each_target sha s (t ∷ targets) x = each_target sha s targets (consider sha s t x)

  unfoldable pub each_source : Text → List Text → List Text → Renaming → Renaming
  unfolding each_target
  each_source sha targets [] x = x
  each_source sha targets (s ∷ sources) x =
      each_source sha targets sources (each_target sha s targets x)

  unfoldable pub each_sha : Dict Text (List Text) → Dict Text (List Text) → Renaming → Renaming
  unfolding each_source
  each_sha sha_to_target [] x = x
  each_sha sha_to_target ((sha, sources) ∷ d) x =
      each_sha sha_to_target d (each_source sha (names_of sha_to_target sha) sources x)

  unfoldable pub get_renamed : Dict Text Text → Dict Text Text → List RenameChange
  unfolding each_sha group_onto
  get_renamed source_map target_map =
      (each_sha (group_onto [] target_map) (group_onto [] source_map)
        (record { seen = []; renamed = [] })).renamed
