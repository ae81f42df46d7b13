-- ===== src/ShaDiff/Names.antt =====
-- Under which heading of the diff each name comes.
use spark_workflow_main.Common.{
  ◌≡◌, refl, sym, ap, subst, ◌∙◌, inl, inr, Bool, true, false, not, ◌&&◌, ◌||◌, Option, some, List,
  [], ◌∷◌, map, Bool-cases, arith,
}
use spark_workflow_main.Common.Eq.{text_is, list_eq, nat_eq, elem, beq_refl, ◌==◌ as ◌=?◌}
use spark_workflow_main.Common.Dict.{Dict, keys, lookup, contains}
use spark_workflow_main.Common.Sort.{sorted}
use spark_workflow_main.Common.Text.{Text}
use spark_workflow_main.ShaDiff.{
  FileEntry, NewFile, FileChange, RenameChange, DeleteChange, Unchanged, FileDiffResult, File,
  SingleFileResult, Storage, gather_sha256, build_target_info, build_source_info, text_leb,
}
use spark_workflow_main.ShaDiff.Renames.{get_renamed}
use spark_workflow_main.ShaDiff.Diff.{
  new_names, old_names, new_file, deleted_file, Compared, sort_in, compare_names, added,
  common_names, diff_of, enrich, paths, with_shas, sha_map, create_sha256_diff,
}
use spark_workflow_main.ShaDiff.Membership.{
  elem-sorted, elem-filter, elem-keys, present, collect_for_total,
}

new_file_total :
    (info : Dict Text FileEntry) (name : Text)
    → contains name info ≡ true
    → (f : NewFile) × ((new_file info name ≡ some f) × (f.filename ≡ name))
new_file_total info name h =
    let (entry, found) = present name info h in
    (
      record { filename = name; bucket_path = entry.bucket_path; sha = entry.sha256 },
      (rw found refl, refl),
    )

deleted_file_total :
    (info : Dict Text FileEntry) (name : Text)
    → contains name info ≡ true
    → (f : DeleteChange) × ((deleted_file info name ≡ some f) × (f.filename ≡ name))
deleted_file_total info name h =
    let (entry, found) = present name info h in
    (record { file_id = entry.file_id; filename = name; sha = entry.sha256 }, (rw found refl, refl))

abbrev pub same_sha : Option FileEntry → Option FileEntry → Bool
same_sha (some s) (some t) = s.sha256 =? t.sha256
same_sha s t = false

abbrev pub agree : Dict Text FileEntry → Dict Text FileEntry → Text → Bool
agree sources targets name = same_sha (lookup name sources) (lookup name targets)

abbrev pub unchanged_names : List Unchanged → List Text
unchanged_names l = map (λ f. f.filename) l

abbrev pub changed_names : List FileChange → List Text
changed_names l = map (λ f. f.filename) l

sort_in-lists :
    (name first : Text) (s t : FileEntry) (c : Compared)
    → (elem name (unchanged_names (sort_in first s t c).unchanged)
        ≡ (((name =? first) && (s.sha256 =? t.sha256)) || elem name (unchanged_names c.unchanged)))
      × (elem name (changed_names (sort_in first s t c).changed) ≡ (
          ((name =? first) && not (s.sha256 =? t.sha256)) || elem name (changed_names c.changed)))
sort_in-lists name first s t c = elim (Bool-cases (s.sha256 =? t.sha256)) [
  | inl same ↦ rw same (ground arith, ground arith)
  | inr other ↦ rw other (ground arith, ground arith)
]

agree_at :
    (sources targets : Dict Text FileEntry) (name first : Text) (s t : FileEntry)
    → lookup first sources ≡ some s
    → lookup first targets ≡ some t
    → (name =? first) ≡ true
    → agree sources targets name ≡ (s.sha256 =? t.sha256)
agree_at sources targets name first s t source target same =
    subst (λ n. agree sources targets n ≡ (s.sha256 =? t.sha256)) (sym (text_is name first same))
      (rw (source, target) refl)

compared_step :
    (sources targets : Dict Text FileEntry) (first : Text) (s t : FileEntry)
    → lookup first sources ≡ some s
    → lookup first targets ≡ some t
    → (c : Compared) (name : Text) (names : List Text)
    → (elem name (unchanged_names c.unchanged) ≡ (elem name names && agree sources targets name))
      × (elem name (changed_names c.changed)
          ≡ (elem name names && not (agree sources targets name)))
    → (elem name (unchanged_names (sort_in first s t c).unchanged)
        ≡ (elem name (first ∷ names) && agree sources targets name))
      × (elem name (changed_names (sort_in first s t c).changed)
          ≡ (elem name (first ∷ names) && not (agree sources targets name)))
compared_step sources targets first s t source target c name names rest =
    let listed = sort_in-lists name first s t c in
    elim (Bool-cases (name =? first)) [
      | inr other ↦ rw (listed.0, listed.1, other, rest.0, rest.1) (refl, refl)
      | inl same ↦
          rw
            (
              listed.0,
              listed.1,
              same,
              rest.0,
              rest.1,
              agree_at sources targets name first s t source target same,
            )
            (ground arith, ground arith)
    ]

compare_total :
    (sources targets : Dict Text FileEntry) (names : List Text)
    → ((name : Text)
        → elem name names ≡ true
        → (contains name sources ≡ true) × (contains name targets ≡ true))
    → (c : Compared) × ((compare_names sources targets names ≡ some c)
        × ((name : Text)
            → (elem name (unchanged_names c.unchanged)
                ≡ (elem name names && agree sources targets name))
              × (elem name (changed_names c.changed)
                  ≡ (elem name names && not (agree sources targets name)))))
unfolding compare_names
compare_total sources targets [] h =
    (record { unchanged = []; changed = [] }, (refl, λ name. (refl, refl)))
compare_total sources targets (first ∷ names) h =
    let there = h first (rw (beq_refl first) refl) in
    let (s, source) = present first sources there.0 in
    let (t, target) = present first targets there.1 in
    let (c, (rest, all)) =
      compare_total sources targets names (λ n later. h n (ground (arith, later))) in
    (
      sort_in first s t c,
      (
        rw (source, target, rest) refl,
        λ name. compared_step sources targets first s t source target c name names (all name),
      ),
    )

-- The names of the diff's headings, each name by whether it is in the source, in the target, the
-- new name of a rename and the old name of one.
abbrev pub IsAccounted :
    Dict Text FileEntry → Dict Text FileEntry → List RenameChange → FileDiffResult → Text → Type 0
IsAccounted sources targets renamed diff name =
    let in_source = contains name sources in
    let in_target = contains name targets in
    let is_new = elem name (new_names renamed) in
    let is_old = elem name (old_names renamed) in
    (elem name (map (λ f. f.filename) diff.new) ≡ (in_source && (not in_target && not is_new)))
    × ((elem name (map (λ f. f.filename) diff.deleted)
          ≡ (in_target && (not in_source && not is_old)))
        × ((elem name (unchanged_names diff.unchanged) ≡ (
              (in_source && (in_target && (not is_new && not is_old)))
              && agree sources targets name))
            × (elem name (changed_names diff.changed) ≡ (
                (in_source && (in_target && (not is_new && not is_old)))
                && not (agree sources targets name)))))

elem-added :
    (sources targets : Dict Text FileEntry) (renamed : List Text) (name : Text)
    → elem name (added sources targets renamed)
      ≡ (contains name sources && (not (contains name targets) && not (elem name renamed)))
elem-added sources targets renamed name =
    elem-sorted name _
    ∙ elem-filter name (λ n. not (contains n targets) && not (elem n renamed)) (keys sources)
    ∙ ap (λ b. b && (not (contains name targets) && not (elem name renamed)))
        (elem-keys name sources)

elem-common_names :
    (sources targets : Dict Text FileEntry) (renamed : List RenameChange) (name : Text)
    → elem name (common_names sources targets renamed) ≡ (
        contains name sources
        && (contains name targets
            && (not (elem name (new_names renamed)) && not (elem name (old_names renamed)))))
elem-common_names sources targets renamed name =
    elem-sorted name _
    ∙ elem-filter name _ (keys sources)
    ∙ ap
        (λ b.
          b
          && (contains name targets
              && (not (elem name (new_names renamed)) && not (elem name (old_names renamed)))))
        (elem-keys name sources)

diff_of-IsAccounted :
    (sources targets : Dict Text FileEntry) (renamed : List RenameChange)
    → (diff : FileDiffResult) × ((diff_of sources targets renamed ≡ some diff)
        × ((name : Text) → IsAccounted sources targets renamed diff name))
unfolding diff_of
diff_of-IsAccounted sources targets renamed =
    let (new, (made, new_are)) =
      collect_for_total (new_file sources) (λ f. f.filename)
        (added sources targets (new_names renamed))
        (λ name there.
          new_file_total sources name
            (ground (arith, there, elem-added sources targets (new_names renamed) name))) in
    let (deleted, (gone, deleted_are)) =
      collect_for_total (deleted_file targets) (λ f. f.filename)
        (added targets sources (old_names renamed))
        (λ name there.
          deleted_file_total targets name
            (ground (arith, there, elem-added targets sources (old_names renamed) name))) in
    let (compared, (done, all)) =
      compare_total sources targets (common_names sources targets renamed) (λ name there.
        let both = elem-common_names sources targets renamed name in
        (ground (arith, there, both), ground (arith, there, both))) in
    (
      record {
        new = new;
        deleted = deleted;
        changed = compared.changed;
        renamed = sorted (λ r q. text_leb r.old_name q.old_name) (enrich targets renamed);
        unchanged = compared.unchanged;
      },
      (
        rw (made, gone, done) refl,
        λ name. (
          ap (λ l. elem name l) new_are ∙ elem-added sources targets (new_names renamed) name,
          (
            ap (λ l. elem name l) deleted_are ∙ elem-added targets sources (old_names renamed) name,
            (
              (all name).0
                  ∙ ap (λ b. b && agree sources targets name)
                      (elem-common_names sources targets renamed name),
              (all name).1
                  ∙ ap (λ b. b && not (agree sources targets name))
                      (elem-common_names sources targets renamed name),
            ),
          ),
        ),
      ),
    )

-- Where every upload whose name comes first has a bucket path and the storage gives every hash,
-- create_sha256_diff raises nothing, no KeyError either. It lists a name as new where the upload
-- alone has it and no rename ends at it, as deleted where the project alone has it and no rename
-- starts from it, and where both have it and no rename starts or ends there, as unchanged or as
-- changed, by its hashes.
pub create_sha256_diff-IsAccounted :
    (is_similar : Text → Text → Bool) (storage : Storage) (same_dir_only : Bool)
    (target_files : List File) (files : List SingleFileResult) (source_info : Dict Text FileEntry)
    (target_shas source_shas : List Text)
    → build_source_info files ≡ some source_info
    → gather_sha256 storage (paths (build_target_info target_files)) ≡ some target_shas
    → gather_sha256 storage (paths source_info) ≡ some source_shas
    → let targets = with_shas (build_target_info target_files) target_shas in
      let sources = with_shas source_info source_shas in
      let renamed = get_renamed is_similar same_dir_only (sha_map sources) (sha_map targets) in
      (diff : FileDiffResult) × ((create_sha256_diff is_similar storage same_dir_only target_files
            files
          ≡ some diff)
        × ((name : Text) → IsAccounted sources targets renamed diff name))
unfolding create_sha256_diff
create_sha256_diff-IsAccounted is_similar storage same_dir_only target_files files source_info
      target_shas source_shas built target_found source_found =
    let targets = with_shas (build_target_info target_files) target_shas in
    let sources = with_shas source_info source_shas in
    let diff =
      diff_of-IsAccounted sources targets
        (get_renamed is_similar same_dir_only (sha_map sources) (sha_map targets)) in
    (diff.0, (rw (built, target_found, source_found) diff.1.0, diff.1.1))
