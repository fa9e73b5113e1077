-- ===== src/Database/Worker/Failures.antt =====
-- What a worker does with a job whose handler raises.
use telegram_lead_assistent.Prelude.{
  ℕ, zero, suc, ◌+◌, ◌-◌, ◌<◌, ◌≡◌, refl, Bool, true, ◌&&◌, leb, ltb, if◌then◌else◌, none, some, [],
  ◌∷◌, String, ok, err, arith, length, Bool-cases, inl, inr,
}
use telegram_lead_assistent.Domain.{Exception, ProcessingJobStatus}
use telegram_lead_assistent.Database.Models.{
  Uuid, Timestamp, Timedelta, seconds, ProcessingJob, Database,
}
use telegram_lead_assistent.Database.Queue
use telegram_lead_assistent.Database.Queue.{save_job, get_locked}
use telegram_lead_assistent.Database.Queue.Claim.{claim-some, get_locked-claim}
use telegram_lead_assistent.Database.Worker.{
  RetryPolicy, JobHandler, delay_at, delay_after_attempt, delay_for, is_retryable, error_code,
  settle_failure, run_once,
}

-- The delay at an index within the policy.
abbrev pub delay_within : RetryPolicy → ℕ → Timedelta
delay_within [] index = 0
delay_within (d ∷ ds) zero = seconds d
delay_within (d ∷ ds) (suc index) = delay_within ds index

delay_at_lem :
    (policy : RetryPolicy) (index : ℕ)
    → delay_at policy index
      ≡ (if ltb index (length policy) then some (delay_within policy index) else none)
unfolding delay_at
delay_at_lem [] index = ground arith
delay_at_lem (d ∷ ds) zero = ground arith
delay_at_lem (d ∷ ds) (suc index) = ground (arith, delay_at_lem ds index)

-- The row that a failed attempt leaves: due again after the delay of that attempt while the policy
-- has one and the error allows it, failed for good otherwise; in both cases unlocked, with the error.
abbrev pub after_failure : RetryPolicy → Timestamp → Exception → ProcessingJob → ProcessingJob
after_failure policy now error job =
    let released = record job {
      locked_at = none;
      locked_by = none;
      last_error_code = some (error_code error);
      last_error_message = none;
    } in
    if is_retryable error && leb job.attempt_count (length policy)
    then record released {
      status = ProcessingJobStatus.retry;
      next_attempt_at = now + delay_within policy (job.attempt_count - 1);
    }
    else record released { status = ProcessingJobStatus.failed }

pub delay_for_lem :
    (policy : RetryPolicy) (error : Exception) (attempts : ℕ)
    → 0 < attempts
    → delay_for policy error attempts
      ≡ ok (
          if is_retryable error && leb attempts (length policy)
          then some (delay_within policy (attempts - 1))
          else none)
unfolding delay_after_attempt
delay_for_lem policy error zero h = absurd (omega arith)
delay_for_lem policy error (suc n) h = elim (Bool-cases (is_retryable error)) [
  | inl e ↦ rw (e, delay_for) (ground (arith, delay_at_lem policy n))
  | inr e ↦ rw (e, delay_for) refl
]

settle_failure_lem :
    (policy : RetryPolicy) (now : Timestamp) (error : Exception) (job : ProcessingJob)
    (db : Database)
    → get_locked job.id db ≡ ok job
    → 0 < job.attempt_count
    → settle_failure policy now job.id error db
      ≡ ok (save_job (after_failure policy now error job) db)
unfolding settle_failure
settle_failure_lem policy now error job db found positive = rw found (
    rw (delay_for_lem policy error job.attempt_count positive)
      (elim (Bool-cases (is_retryable error && leb job.attempt_count (length policy))) [
        | inl e ↦ rw e (unfold Queue.retry in rw found refl)
        | inr e ↦ rw e (unfold Queue.fail in rw found refl)
      ]))

-- When the handler of the claimed job raises, the iteration still succeeds: what the handler wrote
-- is dropped, and the job's row becomes `after_failure` of the claimed row: due again after the
-- delay of its attempt while the policy has one and the error allows it, and failed otherwise.
pub run_once_failure :
    (policy : RetryPolicy) (now : Timestamp) (held : Uuid → Bool) (worker_id : String)
    (handler : JobHandler) (db claimed_db : Database) (job : ProcessingJob) (error : Exception)
    → Queue.claim now held worker_id db ≡ (some job, claimed_db)
    → handler job claimed_db ≡ err error
    → run_once policy now held worker_id handler db
      ≡ ok (true, save_job (after_failure policy now error job) claimed_db)
unfolding run_once
run_once_failure policy now held worker_id handler db claimed_db job error c h =
    let (old, oldest, t, d) = claim-some now held worker_id db claimed_db job c in
    let found = get_locked-claim now held worker_id db claimed_db job c in
    rw (c, h) (rw (settle_failure_lem policy now error job claimed_db found (ground arith)) refl)
