-- ===== src/Comments.antt =====
-- The comment service, 02-backend/comment_service: comment_service.py of src/services, with the
-- rows of src/models/db_models.py and the schemas of src/models/schemas/comment_schemas.py. Each
-- change ends in its only commit, so that what raises leaves the table as it was. UUIDs and the
-- clock are parameters: the value of the n-th call.
pub mod Sources
pub mod Deletion
mod Tests
use spark_workflow_main.Common.{
  ℕ, suc, Bool, true, false, not, ◌&&◌, ◌||◌, Option, none, some, List, [], ◌∷◌, ◌++◌, map, leb,
  ◌==◌, filter, take, drop, length, ◌+◌, if◌then◌else◌,
}
use spark_workflow_main.Common.Text.{Text, is_empty}
use spark_workflow_main.Common.Sort.{sorted}
use spark_workflow_main.Common.Database.{
  Result, ok, raised, ◌>>=◌, one_or_none, required, not_found, validation_error, integrity_error,
  any, update_where,
}

pub data ProcessStep : Type 0 where
  unsorted formal_completeness_check plausibility_check : ProcessStep
  material_completeness_check legal_review : ProcessStep

pub data SourceType : Type 0 where
  table_of_contents required_documents contradiction material_law : SourceType
  material_norm material_satz material_fundstelle manual : SourceType

pub record SourceRef : Type 0 where
  pub source : SourceType
  pub item_id : Option Text

pub record Comment : Type 0 where
  pub id : ℕ
  pub title : Text
  pub content : Text
  pub project_id : ℕ
  pub process_step : ProcessStep
  pub source_type : Option SourceType
  pub source_item_id : Option Text
  pub created_at : ℕ
  pub updated_at : ℕ

pub record CommentResponse : Type 0 where
  pub id : ℕ
  pub project_id : ℕ
  pub title : Text
  pub content : Text
  pub process_step : ProcessStep
  pub source_ref : Option SourceRef
  pub created_at : ℕ
  pub updated_at : ℕ

pub record CreateCommentRequest : Type 0 where
  pub title : Text
  pub content : Text
  pub process_step : ProcessStep
  pub source_ref : Option SourceRef

-- The fields that are set; the schema refuses null for the first three.
pub record UpdateCommentRequest : Type 0 where
  pub title : Option Text
  pub content : Option Text
  pub process_step : Option ProcessStep
  pub source_ref : Option (Option SourceRef)

-- The table, and how many rows have been made: each takes a value of `uuid4` and two of the clock.
pub record Store : Type 0 where
  pub comments : List Comment
  pub drawn : ℕ

abbrev pub is_manual : SourceType → Bool
is_manual manual = true
is_manual _ = false

-- An optional text that is neither missing nor empty.
abbrev pub is_given : Option Text → Bool
is_given none = false
is_given (some t) = not (is_empty t)

-- What `max_length=255` asks of an item id; the column of the table is as wide.
abbrev pub is_short : Option Text → Bool
is_short none = true
is_short (some t) = leb (length t) 255

-- The checks of SourceRef: the field's length, then the validator.
unfoldable pub validate_item_id : SourceRef → Result SourceRef
validate_item_id r =
    if not (is_short r.item_id)
    then raised validation_error
    else (if not (is_manual r.source) && not (is_given r.item_id)
        then raised validation_error
        else ok r)

abbrev pub type_column : Option SourceRef → Option SourceType
type_column none = none
type_column (some r) = some r.source

abbrev pub item_column : Option SourceRef → Option Text
item_column none = none
item_column (some r) = r.item_id

-- `_decompose_source_ref`, on the two columns of a row
abbrev pub decompose_source_ref : Option SourceRef → Comment → Comment
decompose_source_ref source_ref c = record c {
  source_type = type_column source_ref;
  source_item_id = item_column source_ref;
}

-- The reference of a row; an inconsistent one reads as null. SourceRef's checks run too.
unfoldable pub compose_source_ref : Option SourceType → Option Text → Result (Option SourceRef)
unfolding validate_item_id
compose_source_ref none item_id = ok none
compose_source_ref (some source) item_id =
    if is_manual source || is_given item_id
    then (validate_item_id (record { source = source; item_id = item_id }) >>= λ r. ok (some r))
    else ok none

unfoldable pub to_comment_response : Comment → Result CommentResponse
unfolding compose_source_ref
to_comment_response c = do
  source_ref ← compose_source_ref c.source_type c.source_item_id
  ok (record {
    id = c.id;
    project_id = c.project_id;
    title = c.title;
    content = c.content;
    process_step = c.process_step;
    source_ref = source_ref;
    created_at = c.created_at;
    updated_at = c.updated_at;
  })

abbrev pub is_comment : ℕ → ℕ → Comment → Bool
is_comment project_id comment_id c = (c.id == comment_id) && (c.project_id == project_id)

-- `select(Comment).where(id, project)`, which must give a row
unfoldable pub find_comment : ℕ → ℕ → Store → Result Comment
find_comment project_id comment_id s = do
  found ← one_or_none (filter (is_comment project_id comment_id) s.comments)
  required not_found found

abbrev pub or_old {ℓ} : {A : Type ℓ} → Option A → A → A
or_old none old = old
or_old (some new) old = new

abbrev pub with_source : Option (Option SourceRef) → Comment → Comment
with_source none c = c
with_source (some source_ref) c = decompose_source_ref source_ref c

-- `for field, value in update_dict.items(): setattr(comment, field, value)`
abbrev pub with_fields : UpdateCommentRequest → Comment → Comment
with_fields payload c = with_source payload.source_ref (record c {
  title = or_old payload.title c.title;
  content = or_old payload.content c.content;
  process_step = or_old payload.process_step c.process_step;
})

abbrev pub is_set {ℓ} : {A : Type ℓ} → Option A → Bool
is_set none = false
is_set (some a) = true

-- `if not update_dict`
abbrev pub changes_something : UpdateCommentRequest → Bool
changes_something payload =
    is_set payload.title
    || (is_set payload.content || (is_set payload.process_step || is_set payload.source_ref))

module _ (uuid4 now : ℕ → ℕ) where
  abbrev pub new_comment : ℕ → CreateCommentRequest → ℕ → Comment
  new_comment project_id payload drawn = decompose_source_ref payload.source_ref (record {
    id = uuid4 drawn;
    title = payload.title;
    content = payload.content;
    project_id = project_id;
    process_step = payload.process_step;
    source_type = none;
    source_item_id = none;
    created_at = now (drawn + drawn);
    updated_at = now (suc (drawn + drawn));
  })

  unfoldable pub create_comment :
      ℕ → CreateCommentRequest → Store → Result (CommentResponse × Store)
  create_comment project_id payload s =
      let comment = new_comment project_id payload s.drawn in
      if any (λ c. c.id == comment.id) s.comments
      then raised integrity_error
      else (to_comment_response comment >>= λ response.
          ok (response, record { comments = s.comments ++ comment ∷ []; drawn = suc s.drawn }))

-- The time in `updated_at` after an update is a parameter, of the row before and after: SQLAlchemy
-- takes the clock's where a column differs.
module _ (on_update : Comment → Comment → ℕ) where
  abbrev pub updated : UpdateCommentRequest → Comment → Comment
  updated payload c = record (with_fields payload c) {
    updated_at = on_update c (with_fields payload c);
  }

  unfoldable pub update_comment :
      ℕ → ℕ → UpdateCommentRequest → Store → Result (CommentResponse × Store)
  unfolding find_comment
  update_comment project_id comment_id payload s = do
    comment ← find_comment project_id comment_id s
    elim (changes_something payload) [
      | false ↦ to_comment_response comment >>= λ response. ok (response, s)
      | true ↦ to_comment_response (updated payload comment) >>= λ response. ok (
        response,
        record s {
          comments = update_where (λ c. c.id == comment.id) (λ c. updated payload c) s.comments;
        },
      )
    ]

unfoldable pub delete_comment : ℕ → ℕ → Store → Result Store
unfolding find_comment
delete_comment project_id comment_id s = do
  comment ← find_comment project_id comment_id s
  ok (record s { comments = filter (λ c. not (c.id == comment.id)) s.comments })
