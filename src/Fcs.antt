-- ===== src/Fcs.antt =====
-- The formal completeness check service, 02-backend/formal_completeness_check: the rows of
-- src/models/db_models.py and the schemas of src/models/schemas/fcs_types.py. A UUID, a time and a
-- confidence, which the service only stores and compares, are numbers.
pub mod Tables
pub mod Results
pub mod Reading
pub mod Types
pub mod Templates
mod Tests
use spark_workflow_main.Common.{ℕ, Bool, Option, List}
use spark_workflow_main.Common.Text.{Text}

pub data Origin : Type 0 where
  system custom : Origin

pub record Category : Type 0 where
  pub id : ℕ
  pub project_id : ℕ
  pub name : Text

pub record DocumentType : Type 0 where
  pub id : ℕ
  pub project_id : ℕ
  pub category_id : Option ℕ
  pub name : Text
  pub description : Text
  pub confidence : Option ℕ
  pub deleted : Bool
  pub is_resolved : Bool
  pub origin : Origin
  pub created_at : ℕ

pub record Document : Type 0 where
  pub id : ℕ
  pub project_id : ℕ
  pub file_id : Option ℕ
  pub content_extraction_id : Option ℕ
  pub ai_suggested_required_document_type_id : Option ℕ
  pub document_name : Text
  pub reasoning : Option Text
  pub confidence : Option ℕ
  pub human_required_document_type_id : Option ℕ

-- The tables, and how many values `uuid4` and the clock have given out.
pub record Store : Type 0 where
  pub categories : List Category
  pub document_types : List DocumentType
  pub documents : List Document
  pub drawn : ℕ

pub record DocumentTypeDefinition : Type 0 where
  pub category : Option Text
  pub document_type_name : Text
  pub document_type_description : Text

-- AssignedDocument and UnassignedDocument, which have the same fields.
pub record AssignedDocument : Type 0 where
  pub document_id : ℕ
  pub document_name : Text
  pub reasoning : Text
  pub confidence : ℕ
  pub ai_suggested_required_document_type_id : Option ℕ
  pub human_required_document_type_id : Option ℕ
  pub content_extraction_id : Option ℕ

pub record MatchedDocumentTypeOutput : Type 0 where
  pub required_document_type : DocumentTypeDefinition
  pub assigned_documents : List AssignedDocument
  pub confidence : ℕ

pub record FormalCompletenessCheckResults : Type 0 where
  pub matched_document_types : List MatchedDocumentTypeOutput
  pub unassigned_documents : List AssignedDocument

pub record RequiredDocumentResponse : Type 0 where
  pub document_type_id : ℕ
  pub document_name : Text
  pub origin : Origin
  pub is_resolved : Bool

pub record CategoryRequiredDocumentsResponse : Type 0 where
  pub category_id : ℕ
  pub category_name : Text
  pub required_documents : List RequiredDocumentResponse

pub record DocumentAssignmentItem : Type 0 where
  pub file_id : ℕ
  pub ai_suggested_required_document_type_id : Option ℕ
  pub human_required_document_type_id : Option ℕ

pub data JobStatus : Type 0 where
  no_results results_processed : JobStatus

pub record JobDoneResponse : Type 0 where
  pub status : JobStatus
  pub matched_document_types : ℕ
  pub assigned_documents : ℕ
  pub unassigned_documents : ℕ
  pub previous_records_deleted : ℕ
