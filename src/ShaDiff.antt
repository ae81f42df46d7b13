-- ===== src/ShaDiff.antt =====
-- The diff of an upload against the files of a project:
-- 02-backend/document_management_service/src/services/workflows/activities/compute_sha_diff.py.
-- The storage service is a parameter, and so is whether the similarity of two file names, a float,
-- reaches the threshold. `none` stands for an exception.
pub mod Renames
pub mod Pairs
pub mod Complete
pub mod Diff
pub mod Membership
pub mod Names
pub mod Lost
mod Tests
use spark_workflow_main.Common.{
  ℕ, zero, suc, Bool, true, false, not, ◌&&◌, ◌||◌, Option, none, some, List, [], ◌∷◌, ◌++◌, map,
  filter, ltb, leb, if◌then◌else◌, ◌==◌,
}
use spark_workflow_main.Common.Eq.{list_eq, nat_eq, elem, ◌==◌ as ◌=?◌}
use spark_workflow_main.Common.Dict.{Dict, keys, lookup, contains, insert}
use spark_workflow_main.Common.Sort.{sorted}
use spark_workflow_main.Common.Options.{◌>>=◌}
use spark_workflow_main.Common.Text.{Text, lit, is_empty, split}

-- The columns of a row of the files, and of an unpacked file, that are read.
pub record File : Type 0 where
  pub id : Text
  pub filename : Text
  pub bucket_path : Text

pub record SingleFileResult : Type 0 where
  pub filename : Text
  pub bucket_path : Option Text

pub record FileEntry : Type 0 where
  pub bucket_path : Text
  pub file_id : Text
  pub sha256 : Text

pub record NewFile : Type 0 where
  pub filename : Text
  pub bucket_path : Text
  pub sha : Text

pub record FileChange : Type 0 where
  pub file_id : Text
  pub bucket_path : Text
  pub filename : Text
  pub source_sha : Text
  pub target_sha : Text

pub record RenameChange : Type 0 where
  pub file_id : Text
  pub old_name : Text
  pub new_name : Text
  pub sha : Text

pub record DeleteChange : Type 0 where
  pub file_id : Text
  pub filename : Text
  pub sha : Text

pub record Unchanged : Type 0 where
  pub file_id : Text
  pub filename : Text
  pub sha : Text

pub record FileDiffResult : Type 0 where
  pub new : List NewFile
  pub deleted : List DeleteChange
  pub changed : List FileChange
  pub renamed : List RenameChange
  pub unchanged : List Unchanged

-- `meta.get("sha256")` of a document, and the hash that is computed of its content
pub record Storage : Type 0 where
  pub metadata_sha256 : Text → Option (Option Text)
  pub computed_sha256 : Text → Option Text

module _ (storage : Storage) where
  abbrev pub or_computed : Text → Option Text → Option Text
  or_computed filepath none = storage.computed_sha256 filepath
  or_computed filepath (some sha) = some sha

  unfoldable pub get_sha256 : Text → Option Text
  get_sha256 filepath = storage.metadata_sha256 filepath >>= λ sha. or_computed filepath sha

  -- All are fetched; one that raised is raised again.
  unfoldable pub gather_sha256 : List Text → Option (List Text)
  unfolding get_sha256
  gather_sha256 [] = some []
  gather_sha256 (f ∷ filepaths) = do
    sha ← get_sha256 f
    shas ← gather_sha256 filepaths
    some (sha ∷ shas)

-- Python's order on `str`, and `sorted` of names
abbrev pub text_leb : Text → Text → Bool
text_leb [] t = true
text_leb (c ∷ s) [] = false
text_leb (c ∷ s) (d ∷ t) = if ltb c d then true else ((c == d) && text_leb s t)

abbrev pub add_entry : Text → FileEntry → Dict Text FileEntry → Dict Text FileEntry
add_entry name entry info = if contains name info then info else insert name entry info

unfoldable pub target_onto : Dict Text FileEntry → List File → Dict Text FileEntry
target_onto info [] = info
target_onto info (f ∷ db_files) =
    target_onto
      (add_entry f.filename (record { bucket_path = f.bucket_path; file_id = f.id; sha256 = [] })
        info)
      db_files

unfoldable pub build_target_info : List File → Dict Text FileEntry
unfolding target_onto
build_target_info db_files = target_onto [] db_files

-- A file whose name is new raises where it has no bucket path.
abbrev pub add_source :
    SingleFileResult → Option Text → Dict Text FileEntry → Option (Dict Text FileEntry)
add_source f none info = if contains f.filename info then some info else none
add_source f (some path) info =
    some (add_entry f.filename (record { bucket_path = path; file_id = []; sha256 = [] }) info)

unfoldable pub source_onto :
    Dict Text FileEntry → List SingleFileResult → Option (Dict Text FileEntry)
source_onto info [] = some info
source_onto info (f ∷ extracted) =
    add_source f f.bucket_path info >>= λ next. source_onto next extracted

unfoldable pub build_source_info : List SingleFileResult → Option (Dict Text FileEntry)
unfolding source_onto
build_source_info extracted = source_onto [] extracted
