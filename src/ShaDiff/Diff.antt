-- ===== src/ShaDiff/Diff.antt =====
-- `create_sha256_diff`, on the rows that the database gave.
use spark_workflow_main.Common.{
  Bool, not, ◌&&◌, Option, none, some, List, [], ◌∷◌, map, filter, if◌then◌else◌,
}
use spark_workflow_main.Common.Eq.{list_eq, nat_eq, elem, ◌==◌ as ◌=?◌}
use spark_workflow_main.Common.Dict.{Dict, keys, lookup, contains}
use spark_workflow_main.Common.Sort.{sorted}
use spark_workflow_main.Common.Options.{◌>>=◌}
use spark_workflow_main.Common.Text.{Text, is_empty}
use spark_workflow_main.ShaDiff.{
  File, SingleFileResult, FileEntry, NewFile, FileChange, RenameChange, DeleteChange, Unchanged,
  FileDiffResult, Storage, gather_sha256, text_leb, build_target_info, build_source_info,
}
use spark_workflow_main.ShaDiff.Renames.{get_renamed}

-- `[f(name) for name in names]`, where `f` may raise
abbrev pub collect_for : {A : Type 0} → (Text → Option A) → List Text → Option (List A)
collect_for f [] = some []
collect_for f (name ∷ names) = do
  value ← f name
  values ← collect_for f names
  some (value ∷ values)

abbrev pub paths : Dict Text FileEntry → List Text
paths [] = []
paths ((name, entry) ∷ info) = entry.bucket_path ∷ paths info

-- `for info, sha in zip(…): info["sha256"] = sha`
unfoldable pub with_shas : Dict Text FileEntry → List Text → Dict Text FileEntry
with_shas [] shas = []
with_shas (item ∷ info) [] = []
with_shas ((name, entry) ∷ info) (sha ∷ shas) =
    (name, record entry { sha256 = sha }) ∷ with_shas info shas

-- `{name: info["sha256"] for name, info in …}`
unfoldable pub sha_map : Dict Text FileEntry → Dict Text Text
sha_map [] = []
sha_map ((name, entry) ∷ info) = (name, entry.sha256) ∷ sha_map info

-- `renamed_source_names` and `renamed_target_names`
abbrev pub new_names : List RenameChange → List Text
new_names renamed = map (λ r. r.new_name) renamed

abbrev pub old_names : List RenameChange → List Text
old_names renamed = map (λ r. r.old_name) renamed

-- The renames with the file id of the old name, where it has one
abbrev pub with_file_id : Option FileEntry → RenameChange → List RenameChange → List RenameChange
with_file_id none r rest = rest
with_file_id (some old_info) r rest =
    if is_empty old_info.file_id then rest else record r { file_id = old_info.file_id } ∷ rest

unfoldable pub enrich : Dict Text FileEntry → List RenameChange → List RenameChange
enrich target_info [] = []
enrich target_info (r ∷ renamed) =
    with_file_id (lookup r.old_name target_info) r (enrich target_info renamed)

abbrev pub new_file : Dict Text FileEntry → Text → Option NewFile
new_file source_info name = do
  entry ← lookup name source_info
  some (record { filename = name; bucket_path = entry.bucket_path; sha = entry.sha256 })

abbrev pub deleted_file : Dict Text FileEntry → Text → Option DeleteChange
deleted_file target_info name = do
  entry ← lookup name target_info
  some (record { file_id = entry.file_id; filename = name; sha = entry.sha256 })

-- What the last loop appends to
pub record Compared : Type 0 where
  pub unchanged : List Unchanged
  pub changed : List FileChange

abbrev pub sort_in : Text → FileEntry → FileEntry → Compared → Compared
sort_in name s t rest =
    if s.sha256 =? t.sha256
    then record rest {
      unchanged = record { file_id = t.file_id; filename = name; sha = s.sha256 } ∷ rest.unchanged;
    }
    else record rest {
      changed =
          record {
            file_id = t.file_id;
            bucket_path = s.bucket_path;
            filename = name;
            source_sha = s.sha256;
            target_sha = t.sha256;
          }
          ∷ rest.changed;
    }

unfoldable pub compare_names :
    Dict Text FileEntry → Dict Text FileEntry → List Text → Option Compared
compare_names source_info target_info [] = some (record { unchanged = []; changed = [] })
compare_names source_info target_info (name ∷ names) = do
  s ← lookup name source_info
  t ← lookup name target_info
  rest ← compare_names source_info target_info names
  some (sort_in name s t rest)

-- `sorted(source_names - target_names - renamed_source_names)`, and the like
abbrev pub added : Dict Text FileEntry → Dict Text FileEntry → List Text → List Text
added source_info target_info renamed_source_names = sorted text_leb (
    filter (λ name. not (contains name target_info) && not (elem name renamed_source_names))
      (keys source_info))

-- `sorted((source_names & target_names) - renamed_source_names - renamed_target_names)`
abbrev pub common_names : Dict Text FileEntry → Dict Text FileEntry → List RenameChange → List Text
common_names source_info target_info renamed = sorted text_leb (
    filter
      (λ name.
        contains name target_info
        && (not (elem name (new_names renamed)) && not (elem name (old_names renamed))))
      (keys source_info))

-- The diff of the two infos, their hashes known, and of the renames found.
unfoldable pub diff_of :
    Dict Text FileEntry → Dict Text FileEntry → List RenameChange → Option FileDiffResult
unfolding compare_names enrich
diff_of source_info target_info renamed_raw = do
  new ← collect_for (new_file source_info) (added source_info target_info (new_names renamed_raw))
  deleted ←
      collect_for (deleted_file target_info) (added target_info source_info (old_names renamed_raw))
  compared ←
      compare_names source_info target_info (common_names source_info target_info renamed_raw)
  some (record {
    new = new;
    deleted = deleted;
    changed = compared.changed;
    renamed = sorted (λ r q. text_leb r.old_name q.old_name) (enrich target_info renamed_raw);
    unchanged = compared.unchanged;
  })

unfoldable pub create_sha256_diff :
    (Text → Text → Bool)
    → Storage
    → Bool
    → List File
    → List SingleFileResult
    → Option FileDiffResult
unfolding diff_of
create_sha256_diff is_similar storage rename_same_dir_only target_files files = do
  let target_info = build_target_info target_files
  source_info ← build_source_info files
  target_shas ← gather_sha256 storage (paths target_info)
  source_shas ← gather_sha256 storage (paths source_info)
  let targets = with_shas target_info target_shas
  let sources = with_shas source_info source_shas
  diff_of sources targets
      (get_renamed is_similar rename_same_dir_only (sha_map sources) (sha_map targets))
