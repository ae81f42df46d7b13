-- ===== src/Fcs/Tests.antt =====
-- Runs of the service's model on a small database, and its theorems at such inputs.
use spark_workflow_main.Common.{
  ℕ, zero, suc, ◌+◌, ◌≡◌, ◌≢◌, refl, false, Option, none, some, List, [], ◌∷◌, All, leb, filter,
  arith,
}
use spark_workflow_main.Common.Text.{lit}
use spark_workflow_main.Common.Database.{Error, ok, raised, any}
use spark_workflow_main.Fcs.{
  DocumentType, Document, Store, custom, AssignedDocument, FormalCompletenessCheckResults,
  results_processed,
}
use spark_workflow_main.Fcs.Results.{
  Session, is_type_of, delete_all_for_project, process_job_results, bulk_insert_results,
  cache_categories, cache_category, get_or_create, insert_types, insert_documents,
}
use spark_workflow_main.Fcs.Tables.{insert_category, insert_type, insert_document}
use spark_workflow_main.Fcs.Results.Cascade.{of_project, IsAssigned, IsOwnHuman}
use spark_workflow_main.Fcs.Results.Deletion.{delete_all_for_project-clears}
use spark_workflow_main.Fcs.Results.Jobs.{IsAtomic, process_job_results-IsAtomic}
use spark_workflow_main.Fcs.Types.{
  is_live, release, delete_custom_document_type, create_custom_document_type,
}
use spark_workflow_main.Fcs.Types.Deleted.{IsReleased, delete_custom_document_type-releases}
use spark_workflow_main.Fcs.Types.Recreated.{create_custom_document_type-deleted}
use spark_workflow_main.Fcs.Templates.{
  Templates, TemplateDocumentTypeResponse, PlsAnswer, body, Order, registered, register_project,
  fetch_project_type_id, get_template_document_types, joined,
}
use spark_workflow_main.Fcs.Templates.Registration.{get_template_document_types_lasting}

abbrev uuid4 : ℕ → ℕ
uuid4 n = n + 100

abbrev now : ℕ → ℕ
now n = n

abbrev plan : DocumentType
plan = record {
  id = 11;
  project_id = 1;
  category_id = some 10;
  name = lit "Plan";
  description = [];
  confidence = none;
  deleted = false;
  is_resolved = false;
  origin = custom;
  created_at = 0;
}

abbrev document : ℕ → ℕ → Option ℕ → Option ℕ → Document
document id project_id ai human = record {
  id = id;
  project_id = project_id;
  file_id = some id;
  content_extraction_id = none;
  ai_suggested_required_document_type_id = ai;
  document_name = lit "a.pdf";
  reasoning = none;
  confidence = none;
  human_required_document_type_id = human;
}

-- Two projects, each with a type and a document that a user has assigned to it.
abbrev store : Store
store = record {
  categories =
      record { id = 10; project_id = 1; name = lit "Benutzerdefiniert" }
      ∷ record { id = 20; project_id = 2; name = lit "Benutzerdefiniert" }
      ∷ [];
  document_types = plan ∷ (record plan { id = 21; project_id = 2; category_id = some 20 }) ∷ [];
  documents =
      document 12 1 (some 11) none
      ∷ document 13 1 none (some 11)
      ∷ document 22 2 none (some 21)
      ∷ [];
  drawn = 0;
}

assigned : All (IsAssigned store.document_types) store.documents
assigned = (refl, (refl, (refl, tt)))

own_human : All (IsOwnHuman store.document_types) store.documents
own_human = ground arith

two_apart : ◌≢◌ {A = ℕ} 2 1
two_apart = ground arith

delete_all_for_project-clears_example :
    All (λ d. of_project 1 d ≡ false) (delete_all_for_project 1 store).1.documents
    × (All (λ t. is_type_of 1 t ≡ false) (delete_all_for_project 1 store).1.document_types
        × ((filter (of_project 2) (delete_all_for_project 1 store).1.documents
              ≡ filter (of_project 2) store.documents)
            × ((filter (is_type_of 2) (delete_all_for_project 1 store).1.document_types
                  ≡ filter (is_type_of 2) store.document_types)
                × ((delete_all_for_project 1 store).1.categories ≡ store.categories))))
delete_all_for_project-clears_example =
    delete_all_for_project-clears 1 2 store two_apart assigned own_human

abbrev report : AssignedDocument
report = record {
  document_id = 7;
  document_name = lit "b.pdf";
  reasoning = lit "fits";
  confidence = 9;
  ai_suggested_required_document_type_id = none;
  human_required_document_type_id = none;
  content_extraction_id = none;
}

abbrev results : FormalCompletenessCheckResults
results = record {
  matched_document_types =
      record {
        required_document_type = record {
          category = some (lit "Umwelt");
          document_type_name = lit "Bericht";
          document_type_description = [];
        };
        assigned_documents = report ∷ [];
        confidence = 5;
      }
      ∷ [];
  unassigned_documents = (record report { document_id = 8 }) ∷ [];
}

abbrev fetch : ℕ → Option FormalCompletenessCheckResults
fetch zero = none
fetch (suc n) = some results

abbrev session : Session
session = record { committed = store; current = store }

process_job_results_run :
    (process_job_results uuid4 now fetch 1 3 session).0
    ≡ ok (record {
      status = results_processed;
      matched_document_types = 1;
      assigned_documents = 1;
      unassigned_documents = 1;
      previous_records_deleted = 2;
    })
unfolding process_job_results delete_all_for_project bulk_insert_results cache_categories
    cache_category get_or_create insert_types insert_documents insert_category insert_type
    insert_document
process_job_results_run = refl

process_job_results-IsAtomic_example :
    IsAtomic 2 session (process_job_results uuid4 now fetch 1 3 session)
process_job_results-IsAtomic_example =
    process_job_results-IsAtomic uuid4 now fetch 1 2 3 session two_apart refl assigned own_human

delete_custom_document_type-releases_example :
    All (IsReleased 1 11) (release 1 11 plan store).documents
    × (any (is_live 1 11) (release 1 11 plan store).document_types ≡ false)
unfolding delete_custom_document_type
delete_custom_document_type-releases_example =
    delete_custom_document_type-releases 1 11 store (release 1 11 plan store) refl

create_custom_document_type-deleted_example :
    (e : Error) × (create_custom_document_type uuid4 now 1 (lit "Plan") (release 1 11 plan store)
      ≡ raised e)
unfolding delete_custom_document_type
create_custom_document_type-deleted_example =
    create_custom_document_type-deleted uuid4 now 1 11 store (release 1 11 plan store) plan refl
      refl

abbrev templates : Templates
templates = record {
  template_categories =
      record { id = 1; name = lit "Umwelt"; project_type_id = some 5; deleted = false } ∷ [];
  template_document_types =
      record {
        id = 2;
        template_category_id = 1;
        name = lit "Bericht";
        description = [];
        expected_count = none;
        deleted = false;
      }
      ∷ [];
  versions = [];
}

abbrev by_id : Order
by_id a b = leb a.document_type_id b.document_type_id

abbrev answered : List TemplateDocumentTypeResponse × Templates
answered = (
  record {
    category = lit "Umwelt";
    document_type_id = 2;
    document_type_name = lit "Bericht";
    document_type_description = [];
    expected_count = none;
  }
      ∷ [],
  record templates { versions = record { project_id = 1; project_type_id = some 5 } ∷ [] },
)

abbrev pls : Option (ℕ → PlsAnswer)
pls = some (λ _. body (some 5))

get_template_document_types_lasting_example :
    get_template_document_types by_id none (λ s. s) 1 answered.1 ≡ ok answered
unfolding get_template_document_types registered register_project fetch_project_type_id joined
get_template_document_types_lasting_example =
    get_template_document_types_lasting by_id 1 pls none (λ s. s) (λ s. s) templates answered refl
