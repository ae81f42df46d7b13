-- ===== src/Fcs/Reading.antt =====
-- The queries of fcs_service.py: `get_results_for_project`,
-- `get_required_document_types_by_category` and `get_document_assignments`. Rows without an order
-- of their own come as they were inserted.
use spark_workflow_main.Common.{
  ℕ, Bool, not, ◌&&◌, Option, none, some, List, [], ◌∷◌, map, leb, ◌==◌, filter, if◌then◌else◌,
}
use spark_workflow_main.Common.Text.{Text}
use spark_workflow_main.Common.Sort.{sorted}
use spark_workflow_main.Common.Database.{Result, ok, raised, ◌>>=◌, validation_error}
use spark_workflow_main.Fcs.{
  Category, DocumentType, Document, Store, AssignedDocument, MatchedDocumentTypeOutput,
  FormalCompletenessCheckResults, RequiredDocumentResponse, CategoryRequiredDocumentsResponse,
  DocumentAssignmentItem,
}
use spark_workflow_main.Fcs.Tables.{is_id}
use spark_workflow_main.Fcs.Results.{is_unassigned, or_else}

abbrev pub is_listed : ℕ → DocumentType → Bool
is_listed project_id t = (t.project_id == project_id) && not t.deleted

abbrev pub earlier : DocumentType → DocumentType → Bool
earlier t u = leb t.created_at u.created_at

-- `doc_type.assigned_documents`
abbrev pub assigned_to : DocumentType → Document → Bool
assigned_to t d =
    is_id t.id d.ai_suggested_required_document_type_id && (d.project_id == t.project_id)

-- A document under the type that it stands with; without a file id the schema refuses it.
abbrev pub assigned_output : Option ℕ → Document → Result AssignedDocument
assigned_output type_id d = elim (d.file_id) [
  | none ↦ raised validation_error
  | some document_id ↦ ok (record {
    document_id = document_id;
    document_name = d.document_name;
    reasoning = or_else d.reasoning [];
    confidence = or_else d.confidence 0;
    ai_suggested_required_document_type_id = type_id;
    human_required_document_type_id = d.human_required_document_type_id;
    content_extraction_id = d.content_extraction_id;
  })
]

unfoldable pub assigned_outputs : Option ℕ → List Document → Result (List AssignedDocument)
assigned_outputs type_id [] = ok []
assigned_outputs type_id (d ∷ rest) = do
  output ← assigned_output type_id d
  outputs ← assigned_outputs type_id rest
  ok (output ∷ outputs)

-- `doc_type.category.name if doc_type.category else None`
abbrev pub name_of_category : ℕ → ℕ → List Category → Option Text
name_of_category project_id id [] = none
name_of_category project_id id (c ∷ rest) =
    if (c.id == id) && (c.project_id == project_id)
    then some c.name
    else name_of_category project_id id rest

abbrev pub category_name : DocumentType → List Category → Option Text
category_name t rows = elim (t.category_id) [
  | none ↦ none
  | some id ↦ name_of_category t.project_id id rows
]

unfoldable pub matched_outputs : Store → List DocumentType → Result (List MatchedDocumentTypeOutput)
unfolding assigned_outputs
matched_outputs s [] = ok []
matched_outputs s (t ∷ rest) = do
  assigned_documents ← assigned_outputs (some t.id) (filter (assigned_to t) s.documents)
  outputs ← matched_outputs s rest
  ok (
      record {
        required_document_type = record {
          category = category_name t s.categories;
          document_type_name = t.name;
          document_type_description = t.description;
        };
        assigned_documents = assigned_documents;
        confidence = or_else t.confidence 0;
      }
      ∷ outputs)

unfoldable pub get_results_for_project : ℕ → Store → Result FormalCompletenessCheckResults
unfolding matched_outputs
get_results_for_project project_id s = do
  matched ← matched_outputs s (sorted earlier (filter (is_listed project_id) s.document_types))
  unassigned ← assigned_outputs none (filter (is_unassigned project_id) s.documents)
  ok (record { matched_document_types = matched; unassigned_documents = unassigned })

abbrev pub response_of : DocumentType → RequiredDocumentResponse
response_of t = record {
  document_type_id = t.id;
  document_name = t.name;
  origin = t.origin;
  is_resolved = t.is_resolved;
}

-- `Category.document_types` without the deleted ones
abbrev pub in_category : Category → DocumentType → Bool
in_category c t = (is_id c.id t.category_id && (t.project_id == c.project_id)) && not t.deleted

-- The order of the database on names is a parameter.
unfoldable pub get_required_document_types_by_category :
    (Text → Text → Bool) → ℕ → Store → List CategoryRequiredDocumentsResponse
get_required_document_types_by_category name_order project_id s =
    map
      (λ c. record {
        category_id = c.id;
        category_name = c.name;
        required_documents = map response_of (filter (in_category c) s.document_types);
      })
      (sorted (λ c d. name_order c.name d.name)
        (filter (λ c. c.project_id == project_id) s.categories))

-- `… for doc in documents if doc.file_id is not None`
unfoldable pub assignment_items : List Document → List DocumentAssignmentItem
assignment_items [] = []
assignment_items (d ∷ rest) = elim (d.file_id) [
  | none ↦ assignment_items rest
  | some file_id ↦
      record {
        file_id = file_id;
        ai_suggested_required_document_type_id = d.ai_suggested_required_document_type_id;
        human_required_document_type_id = d.human_required_document_type_id;
      }
      ∷ assignment_items rest
]

unfoldable pub get_document_assignments : ℕ → Store → List DocumentAssignmentItem
unfolding assignment_items
get_document_assignments project_id s =
    assignment_items (filter (λ d. d.project_id == project_id) s.documents)
