-- ===== src/ShaDiff/Tests.antt =====
-- Runs of the diff, and its theorems at such inputs.
use spark_workflow_main.Common.{
  ◌≡◌, refl, Bool, true, false, not, ◌&&◌, none, some, List, [], ◌∷◌, All,
}
use spark_workflow_main.Common.Dict.{Dict}
use spark_workflow_main.Common.Text.{Text, lit, split}
use spark_workflow_main.ShaDiff.{
  File, SingleFileResult, FileEntry, FileDiffResult, Storage, gather_sha256, build_target_info,
  build_source_info,
}
use spark_workflow_main.ShaDiff.Renames.{pair_of, is_rename, get_renamed}
use spark_workflow_main.ShaDiff.Diff.{sha_map, with_shas, paths, diff_of, create_sha256_diff}
use spark_workflow_main.ShaDiff.Names.{IsAccounted, create_sha256_diff-IsAccounted}
use spark_workflow_main.ShaDiff.Pairs.{is_item, is_paired, IsSound}
use spark_workflow_main.ShaDiff.Complete.{get_renamed-IsSound}
use spark_workflow_main.ShaDiff.Lost.{renamed_copy_loses}

abbrev all_similar : Text → Text → Bool
all_similar s t = true

abbrev sources : Dict Text Text
sources = (lit "d/a", lit "h") ∷ (lit "d/b", lit "g") ∷ (lit "e/a", lit "h") ∷ []

abbrev targets : Dict Text Text
targets = (lit "d/c", lit "h") ∷ (lit "d/b", lit "f") ∷ []

renamed_run :
    get_renamed all_similar true sources targets
    ≡ record { file_id = []; old_name = lit "d/c"; new_name = lit "d/a"; sha = lit "h" } ∷ []
unfolding get_renamed split
renamed_run = refl

get_renamed-IsSound_example :
    let renamed = get_renamed all_similar true sources targets in
    All (IsSound all_similar true sources targets) renamed
    × ((is_item (lit "d/a") (lit "h") sources
          && (is_item (lit "d/c") (lit "h") targets
              && (is_rename all_similar true (lit "d/a") (lit "d/c")
                  && not (is_paired (pair_of (lit "d/a") (lit "d/c")) renamed))))
        ≡ false)
get_renamed-IsSound_example =
    get_renamed-IsSound all_similar true sources targets (lit "h") (lit "d/a") (lit "d/c")

abbrev storage : Storage
storage = record { metadata_sha256 = λ path. some none; computed_sha256 = λ path. some path }

create_run :
    create_sha256_diff all_similar storage true
      (record { id = lit "1"; filename = lit "z"; bucket_path = lit "q" } ∷ [])
      (record { filename = lit "a"; bucket_path = some (lit "p") } ∷ [])
    ≡ some (record {
      new = record { filename = lit "a"; bucket_path = lit "p"; sha = lit "p" } ∷ [];
      deleted = record { file_id = lit "1"; filename = lit "z"; sha = lit "q" } ∷ [];
      changed = [];
      renamed = [];
      unchanged = [];
    })
unfolding create_sha256_diff build_source_info gather_sha256 build_target_info with_shas get_renamed
    sha_map
create_run = refl

abbrev stored : List File
stored =
    record { id = lit "1"; filename = lit "d/b"; bucket_path = lit "f" }
    ∷ record { id = lit "2"; filename = lit "d/z"; bucket_path = lit "k" }
    ∷ []

abbrev uploaded : List SingleFileResult
uploaded =
    record { filename = lit "d/b"; bucket_path = some (lit "g") }
    ∷ record { filename = lit "e/a"; bucket_path = some (lit "h") }
    ∷ []

abbrev source_info : Dict Text FileEntry
source_info =
    (lit "d/b", record { bucket_path = lit "g"; file_id = []; sha256 = [] })
    ∷ (lit "e/a", record { bucket_path = lit "h"; file_id = []; sha256 = [] })
    ∷ []

built : build_source_info uploaded ≡ some source_info
unfolding build_source_info
built = refl

gathered : gather_sha256 storage (paths (build_target_info stored)) ≡ some (lit "f" ∷ lit "k" ∷ [])
unfolding gather_sha256 build_target_info
gathered = refl

gathered_source : gather_sha256 storage (paths source_info) ≡ some (lit "g" ∷ lit "h" ∷ [])
unfolding gather_sha256
gathered_source = refl

create_sha256_diff-IsAccounted_example :
    let targets = with_shas (build_target_info stored) (lit "f" ∷ lit "k" ∷ []) in
    let sources = with_shas source_info (lit "g" ∷ lit "h" ∷ []) in
    let renamed = get_renamed all_similar true (sha_map sources) (sha_map targets) in
    (diff : FileDiffResult) × ((create_sha256_diff all_similar storage true stored uploaded
        ≡ some diff)
      × ((name : Text) → IsAccounted sources targets renamed diff name))
create_sha256_diff-IsAccounted_example =
    create_sha256_diff-IsAccounted all_similar storage true stored uploaded source_info
      (lit "f" ∷ lit "k" ∷ []) (lit "g" ∷ lit "h" ∷ []) built gathered gathered_source

is_rename_copy : is_rename all_similar true (lit "d/a2") (lit "d/a") ≡ true
unfolding is_rename split
is_rename_copy = refl

renamed_copy_loses_example :
    let uploads : Dict Text FileEntry =
      (lit "d/a", record { bucket_path = lit "p"; file_id = []; sha256 = lit "h" })
      ∷ (lit "d/a2", record { bucket_path = lit "q"; file_id = []; sha256 = lit "h" })
      ∷ [] in
    let kept : Dict Text FileEntry =
      (lit "d/a", record { bucket_path = lit "r"; file_id = lit "1"; sha256 = lit "h" }) ∷ [] in
    diff_of uploads kept (get_renamed all_similar true (sha_map uploads) (sha_map kept))
    ≡ some (record {
      new = [];
      deleted = [];
      changed = [];
      renamed =
          record { file_id = lit "1"; old_name = lit "d/a"; new_name = lit "d/a2"; sha = lit "h" }
          ∷ [];
      unchanged = [];
    })
renamed_copy_loses_example =
    renamed_copy_loses all_similar true (lit "d/a") (lit "d/a2") (lit "h") (lit "p") (lit "q")
      (lit "r") (lit "1") is_rename_copy refl
