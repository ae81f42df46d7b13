-- ===== src/Comments/Tests.antt =====
-- Runs of the comment service's model, and its theorems at such inputs.
use spark_workflow_main.Common.{ℕ, zero, suc, ◌+◌, ◌≡◌, ◌≢◌, refl, arith, none, some, [], ◌∷◌, ◌++◌}
use spark_workflow_main.Common.Text.{Text, lit}
use spark_workflow_main.Common.Database.{ok, raised, not_found, validation_error}
use spark_workflow_main.Comments.{
  Comment, CommentResponse, CreateCommentRequest, Store, contradiction, unsorted, validate_item_id,
  to_comment_response, compose_source_ref, create_comment, find_comment, delete_comment,
}
use spark_workflow_main.Comments.Sources.{
  IsAnswer, create_comment-reads_back, to_comment_response_total,
}
use spark_workflow_main.Comments.Deletion.{delete_comment-find}

abbrev uuid4 : ℕ → ℕ
uuid4 n = n + 100

abbrev now : ℕ → ℕ
now n = n

abbrev request : CreateCommentRequest
request = record {
  title = lit "Gap";
  content = lit "page 3";
  process_step = unsorted;
  source_ref = some (record { source = contradiction; item_id = some (lit "7") });
}

abbrev empty : Store
empty = record { comments = []; drawn = 1 }

delete_missing : delete_comment 1 5 empty ≡ raised not_found
unfolding delete_comment find_comment
delete_missing = refl

create_comment-reads_back_example :
    (response : CommentResponse) × ((row : Comment) × ((create_comment uuid4 now 1 request empty
          ≡ ok (response, record { comments = [] ++ row ∷ []; drawn = 2 }))
        × ((to_comment_response row ≡ ok response) × IsAnswer 1 request response)))
unfolding validate_item_id
create_comment-reads_back_example = create_comment-reads_back uuid4 now 1 request empty refl refl

abbrev odd_row : Comment
odd_row = record {
  id = 1;
  title = lit "Gap";
  content = lit "page 3";
  project_id = 1;
  process_step = unsorted;
  source_type = some contradiction;
  source_item_id = none;
  created_at = 0;
  updated_at = 0;
}

to_comment_response_total_example :
    (response : CommentResponse) × ((to_comment_response odd_row ≡ ok response)
      × (response.source_ref ≡ none))
to_comment_response_total_example = to_comment_response_total odd_row refl

abbrev letters : ℕ → Text
letters zero = []
letters (suc n) = 97 ∷ letters n

-- The length limit of SourceRef: its last item id, and the first that it refuses.
longest_item :
    compose_source_ref (some contradiction) (some (letters 255))
    ≡ ok (some (record { source = contradiction; item_id = some (letters 255) }))
unfolding compose_source_ref validate_item_id
longest_item = refl

longer_item : compose_source_ref (some contradiction) (some (letters 256)) ≡ raised validation_error
unfolding compose_source_ref validate_item_id
longer_item = refl

abbrev one_comment : Store
one_comment = record { comments = odd_row ∷ []; drawn = 1 }

two_apart : ◌≢◌ {A = ℕ} 2 1
two_apart = ground arith

delete_comment-find_example :
    (find_comment 1 1 empty ≡ raised not_found)
    × (find_comment 1 2 empty ≡ find_comment 1 2 one_comment)
unfolding delete_comment find_comment
delete_comment-find_example =
    delete_comment-find 1 1 1 2 one_comment (record one_comment { comments = [] }) two_apart refl
