-- ===== src/Fcs/Types.antt =====
-- The changes that a user makes, of fcs_service.py: `patch_document_by_file_id`,
-- `create_custom_document_type`, `patch_required_document_type` and
-- `delete_custom_document_type`. Each ends in its only commit, so that what it raises leaves the
-- database as it was: a result is the new store.
pub mod Deleted
pub mod Recreated
use spark_workflow_main.Common.{
  ℕ, suc, Bool, true, false, not, ◌&&◌, ◌||◌, Option, none, some, List, [], ◌∷◌, ◌==◌, filter,
  if◌then◌else◌,
}
use spark_workflow_main.Common.Text.{Text}
use spark_workflow_main.Common.Database.{
  Error, Result, ok, raised, ◌>>=◌, one_or_none, required, not_found, forbidden, integrity_error,
  any, update_where,
}
use spark_workflow_main.Fcs.{
  Category, DocumentType, Document, Store, Origin, system, custom, DocumentAssignmentItem,
  RequiredDocumentResponse,
}
use spark_workflow_main.Fcs.Tables.{is_id, same_text, insert_type}
use spark_workflow_main.Fcs.Results.{custom_category_name, category_of_name}
use spark_workflow_main.Fcs.Reading.{response_of, assigned_to}

-- The key `human_required_document_type_id` of the patch, and its value where it is set.
abbrev pub DocumentPatch : Type 0
DocumentPatch = Option (Option ℕ)

abbrev pub of_file : ℕ → ℕ → Document → Bool
of_file project_id file_id d = is_id file_id d.file_id && (d.project_id == project_id)

-- A row of document_type that a user may change.
abbrev pub is_live : ℕ → ℕ → DocumentType → Bool
is_live project_id id t = (t.id == id) && ((t.project_id == project_id) && not t.deleted)

-- Raises where the patch names a type that the project does not have.
unfoldable pub check_type : ℕ → DocumentPatch → Store → Result Bool
check_type project_id none s = ok true
check_type project_id (some none) s = ok true
check_type project_id (some (some id)) s = do
  found ← one_or_none (filter (is_live project_id id) s.document_types)
  row ← required not_found found
  ok true

abbrev pub with_human : DocumentPatch → Document → Document
with_human none d = d
with_human (some human) d = record d { human_required_document_type_id = human }

unfoldable pub patch_document_by_file_id :
    ℕ → ℕ → DocumentPatch → Store → Result (DocumentAssignmentItem × Store)
unfolding check_type
patch_document_by_file_id project_id file_id patch s = do
  found ← one_or_none (filter (of_file project_id file_id) s.documents)
  document ← required not_found found
  checked ← check_type project_id patch s
  let changed = with_human patch document
  ok (
    record {
      file_id = file_id;
      ai_suggested_required_document_type_id = changed.ai_suggested_required_document_type_id;
      human_required_document_type_id = changed.human_required_document_type_id;
    },
    record s { documents = update_where (λ d. d.id == document.id) (with_human patch) s.documents },
  )

-- `_get_custom_category`
unfoldable pub get_custom_category : ℕ → Store → Result Category
get_custom_category project_id s = do
  found ← one_or_none (filter (category_of_name project_id custom_category_name) s.categories)
  required not_found found

module _ (uuid4 : ℕ → ℕ) (now : ℕ → ℕ) where
  abbrev pub custom_type : ℕ → ℕ → Text → ℕ → DocumentType
  custom_type project_id category_id document_name drawn = record {
    id = uuid4 drawn;
    project_id = project_id;
    category_id = some category_id;
    name = document_name;
    description = [];
    confidence = none;
    deleted = false;
    is_resolved = false;
    origin = custom;
    created_at = now drawn;
  }

  unfoldable pub create_custom_document_type :
      ℕ → Text → Store → Result (RequiredDocumentResponse × Store)
  unfolding get_custom_category
  create_custom_document_type project_id document_name s = do
    category ← get_custom_category project_id s
    let doc_type = custom_type project_id category.id document_name s.drawn
    made ← insert_type doc_type (record s { drawn = suc s.drawn })
    ok (response_of doc_type, made)

-- The keys of the patch that are set, each with its value or null.
pub record TypePatch : Type 0 where
  pub document_name : Option (Option Text)
  pub is_resolved : Option (Option Bool)

abbrev pub is_custom : Origin → Bool
is_custom system = false
is_custom custom = true

abbrev pub is_set {ℓ} : {A : Type ℓ} → Option A → Bool
is_set none = false
is_set (some a) = true

-- A value that a NOT NULL column takes.
abbrev pub patched {ℓ} : {A : Type ℓ} → Option (Option A) → A → Result A
patched none old = ok old
patched (some none) old = raised integrity_error
patched (some (some new)) old = ok new

-- Another row of the project with the name, against uq_document_type_project_name.
abbrev pub name_taken : DocumentType → DocumentType → Bool
name_taken changed row =
    not (row.id == changed.id)
    && ((row.project_id == changed.project_id) && same_text row.name changed.name)

unfoldable pub find_live : ℕ → ℕ → Store → Result DocumentType
find_live project_id document_type_id s = do
  found ← one_or_none (filter (is_live project_id document_type_id) s.document_types)
  required not_found found

-- The assignments and the commit.
unfoldable pub write_patch :
    TypePatch → DocumentType → Store → Result (RequiredDocumentResponse × Store)
write_patch patch doc_type s = do
  name ← patched patch.document_name doc_type.name
  is_resolved ← patched patch.is_resolved doc_type.is_resolved
  let changed = record doc_type { name = name; is_resolved = is_resolved }
  elim (any (name_taken changed) s.document_types) [
    | true ↦ raised integrity_error
    | false ↦ ok (
      response_of changed,
      record s {
        document_types =
            update_where (λ t. t.id == doc_type.id)
              (λ t. record t { name = name; is_resolved = is_resolved }) s.document_types;
      },
    )
  ]

unfoldable pub patch_required_document_type :
    ℕ → ℕ → TypePatch → Store → Result (RequiredDocumentResponse × Store)
unfolding find_live write_patch
patch_required_document_type project_id document_type_id patch s = do
  doc_type ← find_live project_id document_type_id s
  elim (is_set patch.document_name && not (is_custom doc_type.origin)) [
    | true ↦ raised forbidden
    | false ↦ write_patch patch doc_type s
  ]

abbrev pub mark_deleted : DocumentType → DocumentType
mark_deleted t = record t { deleted = true }

abbrev pub clear_ai : Document → Document
clear_ai d = record d { ai_suggested_required_document_type_id = none }

abbrev pub clear_human_of : Document → Document
clear_human_of d = record d { human_required_document_type_id = none }

abbrev pub human_assigned : ℕ → ℕ → Document → Bool
human_assigned project_id id d =
    (d.project_id == project_id) && is_id id d.human_required_document_type_id

-- The type marked, and the documents that it or a user assigned to it released.
abbrev pub release : ℕ → ℕ → DocumentType → Store → Store
release project_id document_type_id doc_type s =
    let released = update_where (assigned_to doc_type) clear_ai s.documents in
    record s {
      document_types = update_where (λ t. t.id == doc_type.id) mark_deleted s.document_types;
      documents = update_where (human_assigned project_id document_type_id) clear_human_of released;
    }

unfoldable pub delete_custom_document_type : ℕ → ℕ → Store → Result Store
unfolding find_live
delete_custom_document_type project_id document_type_id s = do
  doc_type ← find_live project_id document_type_id s
  elim (is_custom doc_type.origin) [
    | false ↦ raised forbidden
    | true ↦ ok (release project_id document_type_id doc_type s)
  ]
