-- ===== src/Fcs/Tables.antt =====
-- The constraints of formal_completeness_check/src/models/db_models.py: primary keys, unique
-- constraints and foreign keys, as an INSERT or a DELETE meets them.
use spark_workflow_main.Common.{
  ℕ, Bool, true, false, not, ◌&&◌, ◌||◌, Option, none, some, List, [], ◌∷◌, ◌++◌, ◌==◌,
  if◌then◌else◌,
}
use spark_workflow_main.Common.Eq.{list_beq, nat_eq}
use spark_workflow_main.Common.Text.{Text}
use spark_workflow_main.Common.Database.{Result, ok, raised, integrity_error, any}
use spark_workflow_main.Fcs.{Category, DocumentType, Document, Store}

-- An optional number against a number, where NULL equals nothing.
abbrev pub is_id : ℕ → Option ℕ → Bool
is_id id none = false
is_id id (some other) = id == other

abbrev pub same_text : Text → Text → Bool
same_text s t = list_beq s t

-- uq_category_project_name, and the primary key
abbrev pub category_clash : Category → Category → Bool
category_clash new row =
    (new.id == row.id) || ((new.project_id == row.project_id) && same_text new.name row.name)

-- uq_document_type_project_name, and the primary key
abbrev pub type_clash : DocumentType → DocumentType → Bool
type_clash new row =
    (new.id == row.id) || ((new.project_id == row.project_id) && same_text new.name row.name)

abbrev pub same_file : Option ℕ → Option ℕ → Bool
same_file none file = false
same_file (some id) file = is_id id file

-- uq_document_project_file_id, and the primary key
abbrev pub document_clash : Document → Document → Bool
document_clash new row =
    (new.id == row.id) || ((new.project_id == row.project_id) && same_file new.file_id row.file_id)

-- The foreign key (category_id, project_id) of document_type; with NULL it holds.
abbrev pub category_exists : ℕ → Option ℕ → List Category → Bool
category_exists project_id none rows = true
category_exists project_id (some id) rows =
    any (λ row. (row.id == id) && (row.project_id == project_id)) rows

-- The foreign key (ai_suggested_required_document_type_id, project_id) of document.
abbrev pub type_exists : ℕ → Option ℕ → List DocumentType → Bool
type_exists project_id none rows = true
type_exists project_id (some id) rows =
    any (λ row. (row.id == id) && (row.project_id == project_id)) rows

unfoldable pub insert_category : Category → Store → Result Store
insert_category new s =
    if any (category_clash new) s.categories
    then raised integrity_error
    else ok (record s { categories = s.categories ++ new ∷ [] })

unfoldable pub insert_type : DocumentType → Store → Result Store
insert_type new s =
    if any (type_clash new) s.document_types
      || not (category_exists new.project_id new.category_id s.categories)
    then raised integrity_error
    else ok (record s { document_types = s.document_types ++ new ∷ [] })

unfoldable pub insert_document : Document → Store → Result Store
insert_document new s =
    if any (document_clash new) s.documents
      || not
          (type_exists new.project_id new.ai_suggested_required_document_type_id s.document_types)
    then raised integrity_error
    else ok (record s { documents = s.documents ++ new ∷ [] })

-- ON DELETE CASCADE of the foreign key of document: it goes with the type that it refers to.
abbrev pub cascades : List DocumentType → Document → Bool
cascades gone d = elim (d.ai_suggested_required_document_type_id) [
  | none ↦ false
  | some id ↦ any (λ row. (row.id == id) && (row.project_id == d.project_id)) gone
]

-- ON DELETE SET NULL of fk_document_human_required_document_type.
abbrev pub cleared : List DocumentType → Option ℕ → Option ℕ
cleared gone none = none
cleared gone (some id) = if any (λ row. row.id == id) gone then none else some id

abbrev pub clear_human : List DocumentType → Document → Document
clear_human gone d = record d {
  human_required_document_type_id = cleared gone d.human_required_document_type_id;
}
