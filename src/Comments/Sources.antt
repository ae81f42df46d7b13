-- ===== src/Comments/Sources.antt =====
-- The reference of a comment to its source, as two columns and back.
use spark_workflow_main.Common.{
  ℕ, suc, ◌+◌, ◌≡◌, refl, Bool, true, false, not, ◌&&◌, ◌||◌, Option, none, some, [], ◌∷◌, ◌++◌,
  ◌==◌, if◌then◌else◌, arith, Bool-cases, inl, inr,
}
use spark_workflow_main.Common.Text.{Text}
use spark_workflow_main.Common.Database.{ok, raised, validation_error, any, raised_absurd}
use spark_workflow_main.Comments.{
  SourceType, SourceRef, Comment, CommentResponse, CreateCommentRequest, Store, is_manual, is_given,
  is_short, validate_item_id, type_column, item_column, compose_source_ref, to_comment_response,
  new_comment, create_comment,
}

-- What a request may hold: no reference, or one that its validator lets through.
abbrev pub IsValid : Option SourceRef → Type 0
IsValid none = Unit
IsValid (some r) = validate_item_id r ≡ ok r

usable :
    (short manual given : Bool) (r : SourceRef)
    → (if not short
        then raised validation_error
        else (if not manual && not given then raised validation_error else ok r))
      ≡ ok r
    → (manual || given) ≡ true
usable false manual given r h = raised_absurd h
usable true true given r h = refl
usable true false true r h = refl
usable true false false r h = raised_absurd h

valid_usable :
    (r : SourceRef) → validate_item_id r ≡ ok r → (is_manual r.source || is_given r.item_id) ≡ true
unfolding validate_item_id
valid_usable r h = usable (is_short r.item_id) (is_manual r.source) (is_given r.item_id) r h

compose-columns :
    (r : Option SourceRef) → IsValid r → compose_source_ref (type_column r) (item_column r) ≡ ok r
unfolding compose_source_ref
compose-columns none h = refl
compose-columns (some r) h = rw (valid_usable r h, h) refl

-- What a response tells of a comment that was made from a request.
abbrev pub IsAnswer : ℕ → CreateCommentRequest → CommentResponse → Type 0
IsAnswer project_id payload response =
    (response.project_id ≡ project_id)
    × ((response.title ≡ payload.title)
        × ((response.content ≡ payload.content)
            × ((response.process_step ≡ payload.process_step)
                × (response.source_ref ≡ payload.source_ref))))

response_of_new :
    (uuid4 now : ℕ → ℕ) (p drawn : ℕ) (payload : CreateCommentRequest)
    → IsValid payload.source_ref
    → (response : CommentResponse) × ((to_comment_response (new_comment uuid4 now p payload drawn)
          ≡ ok response)
        × IsAnswer p payload response)
unfolding to_comment_response
response_of_new uuid4 now p drawn payload h = (
  record {
    id = uuid4 drawn;
    project_id = p;
    title = payload.title;
    content = payload.content;
    process_step = payload.process_step;
    source_ref = payload.source_ref;
    created_at = now (drawn + drawn);
    updated_at = now (suc (drawn + drawn));
  },
  (rw (compose-columns payload.source_ref h) refl, (refl, (refl, (refl, (refl, refl))))),
)

-- Where the request passed validation and the UUID given out is not that of a comment,
-- create_comment succeeds with a response that holds the request's fields, its source reference
-- among them, and adds one row, of which the service later gives out the same response.
pub create_comment-reads_back :
    (uuid4 now : ℕ → ℕ) (p : ℕ) (payload : CreateCommentRequest) (s : Store)
    → IsValid payload.source_ref
    → any (λ c. c.id == uuid4 s.drawn) s.comments ≡ false
    → (response : CommentResponse) × ((row : Comment) × ((create_comment uuid4 now p payload s
            ≡ ok (response, record { comments = s.comments ++ row ∷ []; drawn = suc s.drawn }))
          × ((to_comment_response row ≡ ok response) × IsAnswer p payload response)))
unfolding create_comment
create_comment-reads_back uuid4 now p payload s h fresh =
    let (response, (read, answer)) = response_of_new uuid4 now p s.drawn payload h in
    (response, (new_comment uuid4 now p payload s.drawn, (rw (fresh, read) refl, (read, answer))))

lets_through :
    (manual given : Bool) (r : SourceRef)
    → (manual || given) ≡ true
    → (if not manual && not given then raised validation_error else ok r) ≡ ok r
lets_through true given r h = refl
lets_through false true r h = refl
lets_through false false r h = ground arith

validate_usable :
    (r : SourceRef)
    → is_short r.item_id ≡ true
    → (is_manual r.source || is_given r.item_id) ≡ true
    → validate_item_id r ≡ ok r
unfolding validate_item_id
validate_usable r short h = rw short (lets_through (is_manual r.source) (is_given r.item_id) r h)

-- The reference that a row stands for: none where its columns do not agree.
abbrev pub reference_of : Option SourceType → Option Text → Option SourceRef
reference_of none item_id = none
reference_of (some source) item_id =
    if is_manual source || is_given item_id
    then some (record { source = source; item_id = item_id })
    else none

compose-reference_of :
    (source : Option SourceType) (item_id : Option Text)
    → is_short item_id ≡ true
    → compose_source_ref source item_id ≡ ok (reference_of source item_id)
unfolding compose_source_ref
compose-reference_of none item_id short = refl
compose-reference_of (some source) item_id short =
    elim (Bool-cases (is_manual source || is_given item_id)) [
      | inl agrees ↦
          rw (agrees, validate_usable (record { source = source; item_id = item_id }) short agrees)
            refl
      | inr differs ↦ rw differs refl
    ]

-- Reading a row whose item id is as long as its column allows, 255 characters at most, does not
-- raise: neither the length limit nor the validator of SourceRef refuses what _to_comment_response
-- builds, and a row whose columns do not agree, or which has no source, reads with no reference.
pub to_comment_response_total :
    (c : Comment)
    → is_short c.source_item_id ≡ true
    → (response : CommentResponse) × ((to_comment_response c ≡ ok response)
        × (response.source_ref ≡ reference_of c.source_type c.source_item_id))
unfolding to_comment_response
to_comment_response_total c short = (
  record {
    id = c.id;
    project_id = c.project_id;
    title = c.title;
    content = c.content;
    process_step = c.process_step;
    source_ref = reference_of c.source_type c.source_item_id;
    created_at = c.created_at;
    updated_at = c.updated_at;
  },
  (rw (compose-reference_of c.source_type c.source_item_id short) refl, refl),
)
