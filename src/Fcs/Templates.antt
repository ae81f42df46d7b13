-- ===== src/Fcs/Templates.antt =====
-- The templates of fcs_service.py: `_fetch_project_type_id`, `_register_project` and
-- `get_template_document_types`. The project logic service (PLS) is a parameter, and so is what
-- other requests commit between the first query and the registration.
pub mod Registration
use spark_workflow_main.Common.{
  ℕ, Bool, true, false, not, ◌&&◌, Option, none, some, List, [], ◌∷◌, ◌++◌, map, leb, ◌==◌, filter,
  if◌then◌else◌,
}
use spark_workflow_main.Common.Text.{Text}
use spark_workflow_main.Common.Sort.{sorted}
use spark_workflow_main.Common.Database.{
  Result, ok, raised, ◌>>=◌, one_or_none, not_found, fetch_failed, integrity_error, any,
}
use spark_workflow_main.Fcs.Tables.{is_id}

pub record TemplateCategory : Type 0 where
  pub id : ℕ
  pub name : Text
  pub project_type_id : Option ℕ
  pub deleted : Bool

pub record TemplateDocumentType : Type 0 where
  pub id : ℕ
  pub template_category_id : ℕ
  pub name : Text
  pub description : Text
  pub expected_count : Option ℕ
  pub deleted : Bool

pub record ProjectTemplateVersion : Type 0 where
  pub project_id : ℕ
  pub project_type_id : Option ℕ

pub record Templates : Type 0 where
  pub template_categories : List TemplateCategory
  pub template_document_types : List TemplateDocumentType
  pub versions : List ProjectTemplateVersion

pub record TemplateDocumentTypeResponse : Type 0 where
  pub category : Text
  pub document_type_id : ℕ
  pub document_type_name : Text
  pub document_type_description : Text
  pub expected_count : Option ℕ

-- What PLS does after the retries: no answer, an error status, or a body with or without a valid
-- project type.
pub data PlsAnswer : Type 0 where
  no_answer : PlsAnswer
  error_status : ℕ → PlsAnswer
  body : Option ℕ → PlsAnswer

unfoldable pub fetch_project_type_id : Option (ℕ → PlsAnswer) → ℕ → Result ℕ
fetch_project_type_id none project_id = raised not_found
fetch_project_type_id (some pls) project_id = elim (pls project_id) [
  | no_answer ↦ raised fetch_failed
  | error_status code ↦ if code == 404 then raised not_found else raised fetch_failed
  | body none ↦ raised not_found
  | body (some project_type_id) ↦ ok project_type_id
]

abbrev pub version_of : ℕ → ProjectTemplateVersion → Bool
version_of project_id v = v.project_id == project_id

abbrev pub column_of : Option ProjectTemplateVersion → Option ℕ
column_of none = none
column_of (some v) = v.project_type_id

-- The registered type of a project; a NULL column reads as a missing row.
unfoldable pub registered : ℕ → Templates → Result (Option ℕ)
registered project_id s = do
  row ← one_or_none (filter (version_of project_id) s.versions)
  ok (column_of row)

abbrev pub offers : ℕ → TemplateCategory → Bool
offers project_type_id c = is_id project_type_id c.project_type_id && not c.deleted

-- The `IntegrityError` path: the row that another request has committed decides.
unfoldable pub after_conflict : ℕ → Templates → Result (ℕ × Templates)
unfolding registered
after_conflict project_id s = do
  existing ← registered project_id s
  elim existing [ none ↦ raised integrity_error | some first ↦ ok (first, s) ]

-- From the query for the templates in `s` to the commit, which finds `meanwhile`.
unfoldable pub register_project : ℕ → ℕ → Templates → Templates → Result (ℕ × Templates)
unfolding after_conflict
register_project project_id project_type_id s meanwhile =
    elim (any (offers project_type_id) s.template_categories) [
      | false ↦ raised not_found
      | true ↦ elim (any (version_of project_id) meanwhile.versions) [
        | true ↦ after_conflict project_id meanwhile
        | false ↦ ok (
          project_type_id,
          record meanwhile {
            versions =
                meanwhile.versions
                ++ record { project_id = project_id; project_type_id = some project_type_id } ∷ [];
          },
        )
      ]
    ]

abbrev pub find_category : ℕ → List TemplateCategory → Option TemplateCategory
find_category id [] = none
find_category id (c ∷ rest) = if c.id == id then some c else find_category id rest

-- The join of the two tables, with the tests on both sides.
unfoldable pub joined :
    ℕ → List TemplateCategory → List TemplateDocumentType → List TemplateDocumentTypeResponse
joined project_type_id categories [] = []
joined project_type_id categories (t ∷ rest) =
    let others = joined project_type_id categories rest in
    elim (find_category t.template_category_id categories) [
      | none ↦ others
      | some c ↦
          if not t.deleted && offers project_type_id c
          then record {
            category = c.name;
            document_type_id = t.id;
            document_type_name = t.name;
            document_type_description = t.description;
            expected_count = t.expected_count;
          }
            ∷ others
          else others
    ]

abbrev pub Order : Type 0
Order = TemplateDocumentTypeResponse → TemplateDocumentTypeResponse → Bool

abbrev pub listed : Order → ℕ → Templates → List TemplateDocumentTypeResponse
listed name_order project_type_id s =
    sorted name_order (joined project_type_id s.template_categories s.template_document_types)

-- `name_order` is the database's order by category name and then by name.
unfoldable pub get_template_document_types :
    Order
    → Option (ℕ → PlsAnswer)
    → (Templates → Templates)
    → ℕ
    → Templates
    → Result (List TemplateDocumentTypeResponse × Templates)
unfolding registered
get_template_document_types name_order pls others project_id s = do
  known ← registered project_id s
  elim known [
    | some project_type_id ↦ ok (listed name_order project_type_id s, s)
    | none ↦ do
      fetched ← fetch_project_type_id pls project_id
      done ← register_project project_id fetched s (others s)
      ok (listed name_order done.0 done.1, done.1)
  ]
