-- ===== src/Tests/QueueExamples.antt =====
-- The theorems of the processing queue on concrete rows.
use mathlib.Core.Option
use telegram_lead_assistent.Prelude.{
  find_where, first_where, first_by, select_where, update_where, ◌+◌, ◌≡◌, ◌≢◌, refl, Bool, true,
  false, ◌&&◌, ◌==◌, leb, if◌then◌else◌, str_eq, some, [], ◌∷◌, ok, err, arith, subst, ap,
  ok-injective, ◌∈◌, any_where, inl, inr,
}
use telegram_lead_assistent.Domain.{raised, ProcessingJobStatus}
use telegram_lead_assistent.Database.Models.{Uuid, ProcessingJob, Json, Database, empty_database}
use telegram_lead_assistent.Database.Queue
use telegram_lead_assistent.Database.Queue.{
  new_row, enqueue, is_ready, claimed, save_job, recover_stale, get_locked,
}
use telegram_lead_assistent.Database.Queue.Lookup.{job_by_id}
use telegram_lead_assistent.Database.Queue.Enqueue.{
  AreDistinct, row_of, enqueue_idempotent, enqueue-AreDistinct,
}
use telegram_lead_assistent.Database.Queue.Claim.{IsDue, NotAfter, claim_oldest, claim_once}
use telegram_lead_assistent.Database.Queue.Recovery.{recover_stale_once}
use telegram_lead_assistent.Database.Fingerprints.{register_fingerprint, register_again}
use telegram_lead_assistent.Database.Downstream
use telegram_lead_assistent.Database.Downstream.{
  DownstreamPhase, reply_chain, classification, taken, is_waiting, save_reply_chain,
}
use telegram_lead_assistent.Database.Downstream.Claim.{claim_excludes, save_reply_chain_hands_over}
use telegram_lead_assistent.Database.Worker.{
  JobHandler, DownstreamJobHandler, complete, default_policy, run_once, run_downstream_once,
}
use telegram_lead_assistent.Database.Worker.Failures.{after_failure, run_once_failure}
use telegram_lead_assistent.Database.Worker.Budget.{
  WithinBudget, KeepsBudget, run_once-WithinBudget,
}
use telegram_lead_assistent.Database.Worker.DownstreamFailures.{
  after_downstream_failure, run_downstream_failure,
}
use telegram_lead_assistent.Tests.Fixtures.{new_job, queue_db}

abbrev free : Uuid → Bool
free id = false

enqueue_idempotent_example :
    (id : Uuid) × (db' : Database) × (enqueue 30 103 free (new_job 3) queue_db ≡ ok (id, db'))
    × (Option.map (λ row. row.id) (row_of (new_job 3) db') ≡ some id)
    × (enqueue 40 104 free (record (new_job 3) { message_text = "Edited" }) db' ≡ ok (id, db'))
unfolding any_where
enqueue_idempotent_example =
    enqueue_idempotent 30 103 free free (new_job 3) queue_db 40 104
      (record (new_job 3) { message_text = "Edited" }) refl (λ id. refl) (λ id. refl) refl refl

abbrev three_jobs : Database
three_jobs = record queue_db {
  processing_jobs =
      new_row 10 101 (new_job 1) ∷ (new_row 20 102 (new_job 2) ∷ (new_row 30 103 (new_job 3) ∷ []));
}

enqueue-AreDistinct_example : AreDistinct three_jobs.processing_jobs
unfolding enqueue find_where any_where
enqueue-AreDistinct_example =
    enqueue-AreDistinct 30 103 free (new_job 3) queue_db 103 three_jobs (refl, (refl, tt)) refl

abbrev first_claimed : ProcessingJob
first_claimed = claimed 50 "a" (new_row 10 101 (new_job 1))

abbrev second_claimed : ProcessingJob
second_claimed = claimed 60 "b" (new_row 20 102 (new_job 2))

abbrev once_claimed_db : Database
once_claimed_db = record queue_db {
  processing_jobs = first_claimed ∷ (new_row 20 102 (new_job 2) ∷ []);
}

abbrev twice_claimed_db : Database
twice_claimed_db = record queue_db { processing_jobs = first_claimed ∷ (second_claimed ∷ []) }

claim_once_example : first_claimed.id ≢ second_claimed.id
unfolding Queue.claim first_where first_by select_where update_where save_job find_where
claim_once_example =
    claim_once 50 60 free free "a" "b" queue_db once_claimed_db twice_claimed_db first_claimed
      second_claimed refl refl

claim_oldest_example :
    (job : ProcessingJob) × (job ∈ queue_db.processing_jobs)
    × IsDue 50 free job
    × NotAfter job (new_row 20 102 (new_job 2))
    × (let taken = record job {
      status = ProcessingJobStatus.processing;
      locked_at = some 50;
      locked_by = some "a";
      attempt_count = job.attempt_count + 1;
    } in
        Queue.claim 50 free "a" queue_db ≡ (some taken, save_job taken queue_db))
claim_oldest_example =
    claim_oldest 50 free "a" queue_db (new_row 20 102 (new_job 2)) (inr (inl refl))
      (inl refl, omega arith, refl)

recover_stale_once_example :
    recover_stale 900 500 (recover_stale 800 500 once_claimed_db).1
    ≡ ([], (recover_stale 800 500 once_claimed_db).1)
recover_stale_once_example = recover_stale_once 800 900 500 once_claimed_db

register_again_example :
    (register_fingerprint 40 40 70 "ab" 100
      (register_fingerprint 30 30 70 "ab" 100 empty_database).1).0
    ≡ (if 70 == 70 && str_eq "ab" "ab"
        then leb (30 + 100) 40
        else (register_fingerprint 40 40 70 "ab" 100 empty_database).0)
register_again_example = register_again 30 30 70 "ab" 100 empty_database 40 40 70 "ab"

abbrev failing : JobHandler
failing job db = err (raised "TimeoutError" (some "TIMEOUT") true)

run_once_failure_example :
    run_once default_policy 50 free "a" failing queue_db
    ≡ ok (
      true,
      save_job
          (after_failure default_policy 50
            (raised "TimeoutError" (some "TIMEOUT") true)
            first_claimed)
          once_claimed_db,
    )
unfolding Queue.claim first_where first_by select_where update_where save_job find_where
run_once_failure_example =
    run_once_failure default_policy 50 free "a" failing queue_db once_claimed_db first_claimed
      (raised "TimeoutError" (some "TIMEOUT") true) refl refl

abbrev succeeding : JobHandler
succeeding job db = ok (some complete, db)

succeeding-KeepsBudget : KeepsBudget default_policy succeeding
succeeding-KeepsBudget job db db' disposition within h =
    subst (WithinBudget default_policy) (ap (λ r. r.1) (ok-injective h)) within

queue_db-WithinBudget : WithinBudget default_policy queue_db
queue_db-WithinBudget row m c = ground arith

run_once-WithinBudget_example :
    (worked : Bool) × (db' : Database) × (run_once default_policy 50 free "a" succeeding queue_db
      ≡ ok (worked, db'))
    × WithinBudget default_policy db'
run_once-WithinBudget_example =
    run_once-WithinBudget default_policy 50 free "a" succeeding queue_db succeeding-KeepsBudget
      queue_db-WithinBudget

abbrev relevant : ProcessingJob
relevant = record (new_row 10 101 (new_job 1)) {
  status = ProcessingJobStatus.awaiting_relevant_processing;
}

abbrev other_relevant : ProcessingJob
other_relevant = record (new_row 20 102 (new_job 2)) {
  status = ProcessingJobStatus.awaiting_reply_context;
}

abbrev downstream_db : Database
downstream_db = record empty_database { processing_jobs = relevant ∷ (other_relevant ∷ []) }

abbrev first_taken_db : Database
first_taken_db = record empty_database {
  processing_jobs = taken 50 "a" relevant ∷ (other_relevant ∷ []);
}

abbrev both_taken_db : Database
both_taken_db = record empty_database {
  processing_jobs = taken 50 "a" relevant ∷ (taken 60 "b" other_relevant ∷ []);
}

claim_excludes_example : (taken 50 "a" relevant).id ≢ (taken 60 "b" other_relevant).id
unfolding Downstream.claim first_where first_by select_where update_where save_job find_where
claim_excludes_example =
    claim_excludes 50 60 free free "a" "b" reply_chain reply_chain downstream_db first_taken_db
      both_taken_db (taken 50 "a" relevant) (taken 60 "b" other_relevant) (omega arith) refl refl

save_reply_chain_hands_over_example :
    (db' : Database) × (row : ProcessingJob) × (save_reply_chain 55 101 Json.null first_taken_db
      ≡ ok db')
    × (job_by_id 101 db' ≡ some row)
    × (is_waiting 60 free classification row ≡ true)
    × (is_waiting 60 free reply_chain row ≡ false)
unfolding get_locked first_where first_by select_where update_where save_job find_where
save_reply_chain_hands_over_example =
    save_reply_chain_hands_over 55 60 free Json.null first_taken_db (taken 50 "a" relevant) refl
      refl (omega arith) refl

abbrev failing_downstream : DownstreamJobHandler
failing_downstream job db = err (raised "TimeoutError" (some "TIMEOUT") true)

run_downstream_failure_example :
    run_downstream_once default_policy 50 free "a" reply_chain failing_downstream downstream_db
    ≡ ok (
      true,
      save_job
          (after_downstream_failure default_policy 50
            (raised "TimeoutError" (some "TIMEOUT") true)
            (taken 50 "a" relevant))
          first_taken_db,
    )
unfolding Downstream.claim first_where first_by select_where update_where save_job find_where
run_downstream_failure_example =
    run_downstream_failure default_policy 50 free "a" reply_chain failing_downstream downstream_db
      first_taken_db (taken 50 "a" relevant) (raised "TimeoutError" (some "TIMEOUT") true) refl refl
