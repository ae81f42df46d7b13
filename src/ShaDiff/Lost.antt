-- ===== src/ShaDiff/Lost.antt =====
-- A copy of a file beside the file, uploaded together.
use spark_workflow_main.Common.{
  ◌≡◌, refl, ap, ◌∙◌, Bool, true, false, not, ◌&&◌, some, List, [], ◌∷◌, All, filter, arith,
}
use spark_workflow_main.Common.Eq.{list_eq, nat_eq, elem, beq_refl, beq_symm, ◌==◌ as ◌=?◌}
use spark_workflow_main.Common.Dict.{Dict, keys, contains}
use spark_workflow_main.Common.Sort.{sorted}
use spark_workflow_main.Common.Text.{Text, is_empty}
use spark_workflow_main.ShaDiff.{FileEntry, RenameChange, text_leb}
use spark_workflow_main.ShaDiff.Renames.{
  Renaming, group_onto, is_rename, consider, names_of, each_target, each_source, each_sha,
  get_renamed,
}
use spark_workflow_main.ShaDiff.Diff.{new_names, old_names, sha_map, enrich, diff_of}

filter_none : (p : Text → Bool) (l : List Text) → All (λ x. p x ≡ false) l → filter p l ≡ []
filter_none p [] h = refl
filter_none p (x ∷ l) h = rw (h.0, filter_none p l h.1) refl

names_of_one : (h : Text) (names : List Text) → names_of ((h, names) ∷ []) h ≡ names
names_of_one h names = ground (arith, beq_refl h)

-- Where every name is explained by a rename, the diff holds the renames only.
diff_of_renamed :
    (sources targets : Dict Text FileEntry) (renamed : List RenameChange)
    → All
        (λ name. (not (contains name targets) && not (elem name (new_names renamed))) ≡ false)
        (keys sources)
    → All
        (λ name. (not (contains name sources) && not (elem name (old_names renamed))) ≡ false)
        (keys targets)
    → All
        (λ name.
          (contains name targets
            && (not (elem name (new_names renamed)) && not (elem name (old_names renamed))))
          ≡ false)
        (keys sources)
    → diff_of sources targets renamed
      ≡ some (record {
        new = [];
        deleted = [];
        changed = [];
        renamed = sorted (λ r q. text_leb r.old_name q.old_name) (enrich targets renamed);
        unchanged = [];
      })
unfolding diff_of
diff_of_renamed sources targets renamed none_new none_deleted none_common =
    rw
      (
        filter_none _ (keys sources) none_new,
        filter_none _ (keys targets) none_deleted,
        filter_none _ (keys sources) none_common,
      )
      refl

contains_self : (a : Text) (entry : FileEntry) → contains a ((a, entry) ∷ []) ≡ true
contains_self a entry = ground (arith, beq_refl a)

contains_other :
    (a b : Text) (entry : FileEntry) → (b =? a) ≡ false → contains b ((a, entry) ∷ []) ≡ false
contains_other a b entry h = ground (arith, h)

module _ (is_similar : Text → Text → Bool) (same_dir_only : Bool) where
  grouped : (a b h : Text) → group_onto [] ((a, h) ∷ (b, h) ∷ []) ≡ (h, a ∷ b ∷ []) ∷ []
  unfolding group_onto
  grouped a b h = rw (beq_refl h) refl

  self_is_not : (a : Text) → is_rename is_similar same_dir_only a a ≡ false
  unfolding is_rename
  self_is_not a = rw (beq_refl a) refl

  renamed_copy :
      (a b h : Text)
      → is_rename is_similar same_dir_only b a ≡ true
      → get_renamed is_similar same_dir_only ((a, h) ∷ (b, h) ∷ []) ((a, h) ∷ [])
        ≡ record { file_id = []; old_name = a; new_name = b; sha = h } ∷ []
  unfolding get_renamed each_sha each_source each_target consider
  renamed_copy a b h similar =
      let start : Renaming = record { seen = []; renamed = [] } in
      ap (λ g. (each_sha is_similar same_dir_only (group_onto [] ((a, h) ∷ [])) g start).renamed)
        (grouped a b h)
      ∙ ap (λ targets. (each_source is_similar same_dir_only h targets (a ∷ b ∷ []) start).renamed)
          (names_of_one h (a ∷ []))
      ∙ rw (self_is_not a, similar) refl

  differ : (a b : Text) → is_rename is_similar same_dir_only b a ≡ true → (a =? b) ≡ false
  unfolding is_rename
  differ a b h = ground (arith, h, beq_symm a b)

  enriched :
      (a b h kept_path file_id : Text)
      → is_empty file_id ≡ false
      → enrich
          ((a, record { bucket_path = kept_path; file_id = file_id; sha256 = h }) ∷ [])
          (record { file_id = []; old_name = a; new_name = b; sha = h } ∷ [])
        ≡ record { file_id = file_id; old_name = a; new_name = b; sha = h } ∷ []
  unfolding enrich
  enriched a b h kept_path file_id given = rw (beq_refl a, given) refl

  -- Where the project has a file and the upload has it unchanged, and beside it a copy of it whose
  -- name passes the tests for a rename, the diff holds nothing but a rename of the file to the
  -- copy's name: the file's own name, which the upload has too, comes under no other heading.
  pub renamed_copy_loses :
      (a b h path copy_path kept_path file_id : Text)
      → is_rename is_similar same_dir_only b a ≡ true
      → is_empty file_id ≡ false
      → let sources : Dict Text FileEntry =
          (a, record { bucket_path = path; file_id = []; sha256 = h })
          ∷ (b, record { bucket_path = copy_path; file_id = []; sha256 = h })
          ∷ [] in
        let targets : Dict Text FileEntry =
          (a, record { bucket_path = kept_path; file_id = file_id; sha256 = h }) ∷ [] in
        diff_of sources targets
          (get_renamed is_similar same_dir_only (sha_map sources) (sha_map targets))
        ≡ some (record {
          new = [];
          deleted = [];
          changed = [];
          renamed = record { file_id = file_id; old_name = a; new_name = b; sha = h } ∷ [];
          unchanged = [];
        })
  unfolding sha_map
  renamed_copy_loses a b h path copy_path kept_path file_id similar given =
      let other : (b =? a) ≡ false = beq_symm b a ∙ differ a b similar in
      rw (renamed_copy a b h similar) (
        diff_of_renamed _ _ _ (ground (arith, beq_refl a), (ground (arith, beq_refl b), tt))
          (ground (arith, beq_refl a), tt) (ground (arith, beq_refl a), (ground (arith, other), tt))
        ∙ ap
            (λ renamed. some (record {
              new = [];
              deleted = [];
              changed = [];
              renamed = sorted (λ r q. text_leb r.old_name q.old_name) renamed;
              unchanged = [];
            }))
            (enriched a b h kept_path file_id given))
