-- ===== src/Fcs/Results.antt =====
-- `delete_all_for_project`, `bulk_insert_results` and `get_results_for_project` of fcs_service.py,
-- and `process_job_results` of job_service.py. What `uuid4` and the clock give out are parameters:
-- the value of the n-th call. So are the results file and its parsing.
pub mod Cascade
pub mod Deletion
pub mod Insertion
pub mod Jobs
use spark_workflow_main.Common.{
  ℕ, suc, ◌+◌, Bool, true, false, not, ◌&&◌, Option, none, some, List, [], ◌∷◌, map, leb, ◌==◌,
  filter, length, if◌then◌else◌,
}
use spark_workflow_main.Common.Eq.{list_eq, nat_eq}
use spark_workflow_main.Common.Text.{Text, lit, is_empty}
use spark_workflow_main.Common.Dict.{Dict, lookup, contains, insert}
use spark_workflow_main.Common.Sort.{sorted}
use spark_workflow_main.Common.Database.{
  Error, Result, ok, raised, ◌>>=◌, one_or_none, fetch_failed, is_none, any, update_where,
}
use spark_workflow_main.Fcs.{
  Category, DocumentType, Document, Store, system, AssignedDocument, MatchedDocumentTypeOutput,
  FormalCompletenessCheckResults, JobDoneResponse, JobStatus, no_results, results_processed,
}
use spark_workflow_main.Fcs.Tables.{
  insert_category, insert_type, insert_document, cascades, clear_human, is_id, same_text,
}

abbrev pub custom_category_name : Text
custom_category_name = lit "Benutzerdefiniert"

abbrev pub is_unassigned : ℕ → Document → Bool
is_unassigned project_id d =
    (d.project_id == project_id) && is_none d.ai_suggested_required_document_type_id

abbrev pub is_type_of : ℕ → DocumentType → Bool
is_type_of project_id t = t.project_id == project_id

-- `delete(DocumentType).where(…)`, with what the foreign keys of document do.
unfoldable pub delete_types : List DocumentType → List Document → List Document
delete_types gone documents = map (clear_human gone) (filter (λ d. not (cascades gone d)) documents)

-- The two statements, and the number of rows that they report.
unfoldable pub delete_all_for_project : ℕ → Store → ℕ × Store
unfolding delete_types
delete_all_for_project project_id s =
    let kept = filter (λ d. not (is_unassigned project_id d)) s.documents in
    let unassigned_deleted = length (filter (is_unassigned project_id) s.documents) in
    let gone = filter (is_type_of project_id) s.document_types in
    (
      unassigned_deleted + length gone,
      record s {
        documents = delete_types gone kept;
        document_types = filter (λ t. not (is_type_of project_id t)) s.document_types;
      },
    )

-- `if cat_name`, of an optional text
abbrev pub truthy : Option Text → Option Text
truthy none = none
truthy (some name) = if is_empty name then none else some name

-- `doc.reasoning if doc.reasoning is not None else ""`, and the same of a confidence
abbrev pub or_else {ℓ} : {A : Type ℓ} → Option A → A → A
or_else none a = a
or_else (some b) a = b

abbrev pub category_of_name : ℕ → Text → Category → Bool
category_of_name project_id name c = (c.project_id == project_id) && same_text c.name name

-- A database session: the rows that others see, and those of the transaction. The count of what
-- `uuid4` and the clock gave out is part of both, so a rollback gives its draws back.
pub record Session : Type 0 where
  pub committed : Store
  pub current : Store

module _ (uuid4 : ℕ → ℕ) (now : ℕ → ℕ) where
  -- The id of the category that was found, or of one that is made.
  abbrev pub use_or_make : ℕ → Text → Store → Option Category → Result (ℕ × Store)
  use_or_make project_id name s (some category) = ok (category.id, s)
  use_or_make project_id name s none = do
    let id = uuid4 s.drawn
    made ←
        insert_category (record { id = id; project_id = project_id; name = name })
          (record s { drawn = suc s.drawn })
    ok (id, made)

  unfoldable pub get_or_create : ℕ → Text → Store → Result (ℕ × Store)
  get_or_create project_id name s =
      one_or_none (filter (category_of_name project_id name) s.categories)
      >>= use_or_make project_id name s

  -- `if name not in category_cache: …`
  unfoldable pub cache_category : ℕ → Text → Dict Text ℕ → Store → Result (Dict Text ℕ × Store)
  unfolding get_or_create
  cache_category project_id name cache s =
      if contains name cache
      then ok (cache, s)
      else (get_or_create project_id name s >>= λ found. ok (insert name found.0 cache, found.1))

  -- The first loop of `bulk_insert_results`.
  unfoldable pub cache_categories :
      ℕ → List MatchedDocumentTypeOutput → Dict Text ℕ → Store → Result (Dict Text ℕ × Store)
  cache_categories project_id [] cache s = ok (cache, s)
  cache_categories project_id (matched ∷ rest) cache s =
      elim (truthy matched.required_document_type.category) [
        | none ↦ cache_categories project_id rest cache s
        | some name ↦ cache_category project_id name cache s >>= λ found.
            cache_categories project_id rest found.0 found.1
      ]

  abbrev pub document_of : ℕ → Option ℕ → AssignedDocument → ℕ → Document
  document_of project_id type_id assigned id = record {
    id = id;
    project_id = project_id;
    file_id = some assigned.document_id;
    content_extraction_id = assigned.content_extraction_id;
    ai_suggested_required_document_type_id = type_id;
    document_name = assigned.document_name;
    reasoning = some assigned.reasoning;
    confidence = some assigned.confidence;
    human_required_document_type_id = none;
  }

  -- `for assigned in …: db.add(Document(…))`, flushed row by row
  unfoldable pub insert_documents : ℕ → Option ℕ → List AssignedDocument → Store → Result Store
  insert_documents project_id type_id [] s = ok s
  insert_documents project_id type_id (assigned ∷ rest) s =
      insert_document (document_of project_id type_id assigned (uuid4 s.drawn))
        (record s { drawn = suc s.drawn })
      >>= λ next. insert_documents project_id type_id rest next

  abbrev pub category_id_of : Option Text → Dict Text ℕ → Option ℕ
  category_id_of none cache = none
  category_id_of (some name) cache = lookup name cache

  abbrev pub type_of : ℕ → Dict Text ℕ → MatchedDocumentTypeOutput → ℕ → DocumentType
  type_of project_id cache matched drawn = record {
    id = uuid4 drawn;
    project_id = project_id;
    category_id = category_id_of (truthy matched.required_document_type.category) cache;
    name = matched.required_document_type.document_type_name;
    description = matched.required_document_type.document_type_description;
    confidence = some matched.confidence;
    deleted = false;
    is_resolved = false;
    origin = system;
    created_at = now drawn;
  }

  -- The second loop.
  unfoldable pub insert_types :
      ℕ → Dict Text ℕ → List MatchedDocumentTypeOutput → Store → Result Store
  insert_types project_id cache [] s = ok s
  insert_types project_id cache (matched ∷ rest) s = do
    let doc_type = type_of project_id cache matched s.drawn
    made ← insert_type doc_type (record s { drawn = suc s.drawn })
    filled ← insert_documents project_id (some doc_type.id) matched.assigned_documents made
    insert_types project_id cache rest filled

  unfoldable pub bulk_insert_results : ℕ → FormalCompletenessCheckResults → Store → Result Store
  bulk_insert_results project_id results s = do
    cached ← cache_categories project_id results.matched_document_types [] s
    resolved ← cache_category project_id custom_category_name cached.0 cached.1
    typed ← insert_types project_id resolved.0 results.matched_document_types resolved.1
    insert_documents project_id none results.unassigned_documents typed

  abbrev pub total_assigned : List MatchedDocumentTypeOutput → ℕ
  total_assigned [] = 0
  total_assigned (matched ∷ rest) = length matched.assigned_documents + total_assigned rest

  abbrev pub job_status : ℕ → ℕ → JobStatus
  job_status matched_count unassigned_count =
      if (matched_count == 0) && (unassigned_count == 0) then no_results else results_processed

  -- The end of the try block, or the handler's rollback.
  abbrev pub conclude :
      ℕ → FormalCompletenessCheckResults → Session → Result Store → Result JobDoneResponse × Session
  conclude deleted_count results db (raised e) = (raised e, record db { current = db.committed })
  conclude deleted_count results db (ok filled) = (
    ok (record {
      status =
          job_status (length results.matched_document_types) (length results.unassigned_documents);
      matched_document_types = length results.matched_document_types;
      assigned_documents = total_assigned results.matched_document_types;
      unassigned_documents = length results.unassigned_documents;
      previous_records_deleted = deleted_count;
    }),
    record { committed = filled; current = filled },
  )

  abbrev pub replace_results :
      ℕ → Session → Option FormalCompletenessCheckResults → Result JobDoneResponse × Session
  replace_results project_id db none = (raised fetch_failed, db)
  replace_results project_id db (some results) =
      let (deleted_count, cleaned) = delete_all_for_project project_id db.current in
      conclude deleted_count results db (bulk_insert_results project_id results cleaned)

  -- The results file by its id; `none` where the fetch or the parsing raises.
  unfoldable pub process_job_results :
      (ℕ → Option FormalCompletenessCheckResults)
      → ℕ
      → ℕ
      → Session
      → Result JobDoneResponse × Session
  process_job_results fetch_results_file project_id file_id db =
      replace_results project_id db (fetch_results_file file_id)
