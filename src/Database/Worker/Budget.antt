-- ===== src/Database/Worker/Budget.antt =====
-- The number of attempts that the queue gives a job.
use telegram_lead_assistent.Prelude.{
  ◌+◌, ◌≤◌, ◌≡◌, refl, Bool, true, false, Option, none, some, String, ok, arith, length, ◌∈◌,
  Bool-cases, Result-cases, inl, inr, subst, sym, update_where_sound, delete_where_sound,
}
use telegram_lead_assistent.Database.Models.{Uuid, Timestamp, ProcessingJob, Database}
use telegram_lead_assistent.Database.Queue
use telegram_lead_assistent.Database.Queue.{has_id, save_job, is_claimable}
use telegram_lead_assistent.Database.Queue.Claim.{claim_lem, claim-some}
use telegram_lead_assistent.Database.Worker.{
  RetryPolicy, JobDisposition, JobHandler, complete, retain, finish, run_once,
}
use telegram_lead_assistent.Database.Worker.Failures.{after_failure, run_once_failure}

-- A row that can be claimed has not used more attempts than the policy has delays.
abbrev pub WithinBudget : RetryPolicy → Database → Type 0
WithinBudget policy db =
    (row : ProcessingJob)
    → row ∈ db.processing_jobs
    → is_claimable row.status ≡ true
    → row.attempt_count ≤ length policy

-- A handler that leaves no claimable row beyond the budget.
abbrev pub KeepsBudget : RetryPolicy → JobHandler → Type 0
KeepsBudget policy handler =
    (job : ProcessingJob) (db db' : Database) (disposition : Option JobDisposition)
    → WithinBudget policy db
    → handler job db ≡ ok (disposition, db')
    → WithinBudget policy db'

module _ (policy : RetryPolicy) where
  save_job-WithinBudget :
      (job : ProcessingJob) (db : Database)
      → (is_claimable job.status ≡ true → job.attempt_count ≤ length policy)
      → WithinBudget policy db
      → WithinBudget policy (save_job job db)
  unfolding save_job
  save_job-WithinBudget job db fits within row m c =
      let (old, i, e) = update_where_sound (has_id job.id) (λ _. job) db.processing_jobs row m in
      elim (Bool-cases (has_id job.id old)) [
        | inl hit ↦ ground (arith, fits)
        | inr miss ↦ ground (arith, within old i)
      ]

  complete-WithinBudget :
      (job_id : Uuid) (db : Database)
      → WithinBudget policy db
      → WithinBudget policy (Queue.complete job_id db)
  unfolding Queue.complete
  complete-WithinBudget job_id db within row m =
      within row (delete_where_sound (has_id job_id) db.processing_jobs row m).0

  finish-WithinBudget :
      (job_id : Uuid) (disposition : Option JobDisposition) (db : Database)
      → WithinBudget policy db
      → WithinBudget policy (finish job_id disposition db)
  unfolding finish
  finish-WithinBudget job_id (some retain) db within = within
  finish-WithinBudget job_id (some complete) db within = complete-WithinBudget job_id db within
  finish-WithinBudget job_id none db within = complete-WithinBudget job_id db within

  -- Of the jobs within the budget, a claim hands out its attempt number 1 to one past the number of delays.
  pub claim_attempts :
      (now : Timestamp) (held : Uuid → Bool) (worker_id : String) (db db' : Database)
      (job : ProcessingJob)
      → WithinBudget policy db
      → Queue.claim now held worker_id db ≡ (some job, db')
      → (1 ≤ job.attempt_count) × (job.attempt_count ≤ length policy + 1)
  claim_attempts now held worker_id db db' job within c =
      let (old, oldest, t, d) = claim-some now held worker_id db db' job c in
      ground (arith, within old oldest.stored, oldest.meets)

  claim-WithinBudget :
      (now : Timestamp) (held : Uuid → Bool) (worker_id : String) (db db' : Database)
      (job : ProcessingJob)
      → WithinBudget policy db
      → Queue.claim now held worker_id db ≡ (some job, db')
      → WithinBudget policy db'
  claim-WithinBudget now held worker_id db db' job within c =
      let (old, oldest, t, d) = claim-some now held worker_id db db' job c in
      subst (WithinBudget policy) (sym d) (save_job-WithinBudget job db (λ e. ground arith) within)

  -- Every iteration of a worker succeeds and leaves no claimable row with more attempts than the
  -- policy has delays, whether the handler returns or raises, if there was none before and the handler
  -- leaves none.
  pub run_once-WithinBudget :
      (now : Timestamp) (held : Uuid → Bool) (worker_id : String) (handler : JobHandler)
      (db : Database)
      → KeepsBudget policy handler
      → WithinBudget policy db
      → (worked : Bool) × (db' : Database) × (run_once policy now held worker_id handler db
          ≡ ok (worked, db'))
        × WithinBudget policy db'
  run_once-WithinBudget now held worker_id handler db keeps within =
      elim (claim_lem now held worker_id db) [
        | inr (c, idle) ↦ (false, db, unfold run_once in rw c refl, within)
        | inl (old, oldest, c) ↦
            let job = Queue.claimed now worker_id old in
            let claimed_db = save_job job db in
            let within' = claim-WithinBudget now held worker_id db claimed_db job within c in
            elim (Result-cases (handler job claimed_db)) [
              | inl ((disposition, db'), h) ↦ (
                true,
                finish job.id disposition db',
                unfold run_once in rw (c, h) refl,
                finish-WithinBudget job.id disposition db'
                    (keeps job claimed_db db' disposition within' h),
              )
              | inr (error, h) ↦ (
                true,
                save_job (after_failure policy now error job) claimed_db,
                run_once_failure policy now held worker_id handler db claimed_db job error c h,
                save_job-WithinBudget (after_failure policy now error job) claimed_db
                    (λ e. ground arith) within',
              )
            ]
      ]
