-- ===== src/Comments/Deletion.antt =====
-- What `delete_comment` leaves.
use spark_workflow_main.Common.{
  ℕ, ◌≡◌, ◌≢◌, refl, sym, subst, true, not, none, some, List, [], ◌∷◌, ◌==◌, filter, arith, inl,
  inr,
}
use spark_workflow_main.Common.Database.{
  ok, raised, one_or_none, one_passes, not_found, raised_absurd, ok_inj, Result-cases,
}
use spark_workflow_main.Comments.{Comment, Store, is_comment, find_comment, delete_comment}

none_found :
    (p id : ℕ) (comments : List Comment)
    → filter (is_comment p id) (filter (λ c. not (c.id == id)) comments) ≡ []
none_found p id [] = refl
none_found p id (c ∷ comments) = ground (arith, none_found p id comments)

others_kept :
    (p id other : ℕ) (comments : List Comment)
    → other ≢ id
    → filter (is_comment p other) (filter (λ c. not (c.id == id)) comments)
      ≡ filter (is_comment p other) comments
others_kept p id other [] ne = refl
others_kept p id other (c ∷ comments) ne = ground (arith, others_kept p id other comments ne)

find_comment-id : (p id : ℕ) (s : Store) (c : Comment) → find_comment p id s ≡ ok c → c.id ≡ id
unfolding find_comment
find_comment-id p id s c h =
    elim (Result-cases (one_or_none (filter (is_comment p id) s.comments))) [
      | inl (e, failed) ↦ raised_absurd (rw failed at h)
      | inr (none, found) ↦ raised_absurd (rw found at h)
      | inr (some row, found) ↦
          let passes : is_comment p id c ≡ true =
            subst (λ r. is_comment p id r ≡ true) (ok_inj (rw found at h))
              (one_passes (is_comment p id) s.comments row found) in
          ground arith
    ]

-- After delete_comment has succeeded, the comment is not found in its project any more, and what
-- a request for a comment of another id finds, or raises, is what it was before.
pub delete_comment-find :
    (p id q other : ℕ) (s after : Store)
    → other ≢ id
    → delete_comment p id s ≡ ok after
    → (find_comment p id after ≡ raised not_found)
      × (find_comment q other after ≡ find_comment q other s)
unfolding delete_comment find_comment
delete_comment-find p id q other s after ne h = elim (Result-cases (find_comment p id s)) [
  | inl (e, failed) ↦ raised_absurd (rw failed at h)
  | inr (c, found) ↦
      subst
        (λ x.
          (find_comment p id x ≡ raised not_found)
          × (find_comment q other x ≡ find_comment q other s))
        (ok_inj (rw found at h))
        (subst
          (λ i.
            (find_comment p id (record s { comments = filter (λ d. not (d.id == i)) s.comments })
              ≡ raised not_found)
            × (find_comment q other
                  (record s { comments = filter (λ d. not (d.id == i)) s.comments })
                ≡ find_comment q other s))
          (sym (find_comment-id p id s c found))
          (rw (none_found p id s.comments) refl, rw (others_kept q id other s.comments ne) refl))
]
