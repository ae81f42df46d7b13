-- ===== src/Fcs/Results/Jobs.antt =====
-- What `process_job_results` of job_service.py commits.
use spark_workflow_main.Common.{
  ℕ, ◌≡◌, ◌≢◌, refl, ap, subst, false, Option, none, some, All, ◌==◌, filter, arith,
}
use spark_workflow_main.Common.Database.{Result, ok, raised, AllOk, AllOk-map}
use spark_workflow_main.Fcs.{Store, FormalCompletenessCheckResults, JobDoneResponse}
use spark_workflow_main.Fcs.Results.{
  Session, delete_all_for_project, bulk_insert_results, process_job_results, conclude,
  replace_results,
}
use spark_workflow_main.Fcs.Results.Cascade.{IsAssigned, IsOwnHuman}
use spark_workflow_main.Fcs.Results.Deletion.{delete_all_for_project-clears}
use spark_workflow_main.Fcs.Results.Insertion.{
  is_category_of, IsSame, IsSame-trans, bulk_insert_results-IsSame,
}

-- All or nothing: an exception leaves what was committed, and in any case nothing is pending and
-- the other project's rows are the same.
abbrev pub IsAtomic : ℕ → Session → Result JobDoneResponse × Session → Type 0
IsAtomic q db (outcome, after) =
    (after.current ≡ after.committed)
    × (IsSame q db.committed after.committed × (elim outcome as (λ _. Type 0) [
      | raised e ↦ after.committed ≡ db.committed
      | ok response ↦ Unit
    ]))

conclude-IsAtomic :
    (uuid4 now : ℕ → ℕ) (q deleted : ℕ) (results : FormalCompletenessCheckResults) (db : Session)
    (r : Result Store)
    → AllOk (IsSame q db.committed) r
    → IsAtomic q db (conclude uuid4 now deleted results db r)
conclude-IsAtomic uuid4 now q deleted results db (raised e) h = (refl, ((refl, (refl, refl)), refl))
conclude-IsAtomic uuid4 now q deleted results db (ok filled) h = (refl, (h, tt))

replace_results-IsAtomic :
    (uuid4 now : ℕ → ℕ) (p q : ℕ) (db : Session) (found : Option FormalCompletenessCheckResults)
    → q ≢ p
    → db.current ≡ db.committed
    → All (IsAssigned db.current.document_types) db.current.documents
    → All (IsOwnHuman db.current.document_types) db.current.documents
    → IsAtomic q db (replace_results uuid4 now p db found)
replace_results-IsAtomic uuid4 now p q db none ne clean assigned own =
    (clean, ((refl, (refl, refl)), refl))
replace_results-IsAtomic uuid4 now p q db (some results) ne clean assigned own =
    let cleaned = delete_all_for_project p db.current in
    let kept = delete_all_for_project-clears p q db.current ne assigned own in
    let same : IsSame q db.current cleaned.1 =
      (kept.1.1.0, (kept.1.1.1.0, ap (filter (is_category_of q)) kept.1.1.1.1)) in
    let other : (p == q) ≡ false = ground arith in
    conclude-IsAtomic uuid4 now q cleaned.0 results db
      (bulk_insert_results uuid4 now p results cleaned.1)
      (AllOk-map (IsSame q cleaned.1) (IsSame q db.committed)
        (bulk_insert_results uuid4 now p results cleaned.1)
        (λ filled after.
          subst (λ x. IsSame q x filled) clean
            (IsSame-trans q db.current cleaned.1 filled same after))
        (bulk_insert_results-IsSame uuid4 now p q other results cleaned.1))

-- Where nothing is pending, the foreign keys hold and no user's assignment leads into another
-- project, process_job_results ends with nothing pending and with the rows of every other project
-- as they were committed before; where it raises, everything committed is as before.
pub process_job_results-IsAtomic :
    (uuid4 now : ℕ → ℕ) (fetch : ℕ → Option FormalCompletenessCheckResults) (p q file_id : ℕ)
    (db : Session)
    → q ≢ p
    → db.current ≡ db.committed
    → All (IsAssigned db.current.document_types) db.current.documents
    → All (IsOwnHuman db.current.document_types) db.current.documents
    → IsAtomic q db (process_job_results uuid4 now fetch p file_id db)
unfolding process_job_results
process_job_results-IsAtomic uuid4 now fetch p q file_id db ne clean assigned own =
    replace_results-IsAtomic uuid4 now p q db (fetch file_id) ne clean assigned own
