-- ===== src/Database/Worker/DownstreamFailures.antt =====
-- What a downstream worker does with a job whose handler raises.
use telegram_lead_assistent.Prelude.{
  ◌+◌, ◌-◌, ◌<◌, ◌≡◌, refl, Bool, true, ◌&&◌, leb, if◌then◌else◌, none, some, String, ok, err,
  arith, length, Bool-cases, inl, inr, truncate,
}
use telegram_lead_assistent.Domain.{Exception, ProcessingJobStatus}
use telegram_lead_assistent.Database.Models.{Uuid, Timestamp, ProcessingJob, Database}
use telegram_lead_assistent.Database.Queue
use telegram_lead_assistent.Database.Queue.{save_job, get_locked}
use telegram_lead_assistent.Database.Downstream
use telegram_lead_assistent.Database.Downstream.{DownstreamPhase}
use telegram_lead_assistent.Database.Downstream.Claim.{claim_waiting-some, get_locked-claim_waiting}
use telegram_lead_assistent.Database.Worker.{
  RetryPolicy, DownstreamJobHandler, is_retryable, error_code, settle_downstream_failure,
  run_downstream_once,
}
use telegram_lead_assistent.Database.Worker.Failures.{delay_within, delay_for_lem}

-- As `after_failure`, but a row that is tried again stays in its downstream status.
abbrev pub after_downstream_failure :
    RetryPolicy → Timestamp → Exception → ProcessingJob → ProcessingJob
after_downstream_failure policy now error job =
    let released = record job {
      locked_at = none;
      locked_by = none;
      last_error_code = some (truncate 100 (error_code error));
      last_error_message = none;
    } in
    if is_retryable error && leb job.attempt_count (length policy)
    then record released { next_attempt_at = now + delay_within policy (job.attempt_count - 1) }
    else record released { status = ProcessingJobStatus.failed }

settle_downstream_failure_lem :
    (policy : RetryPolicy) (now : Timestamp) (error : Exception) (job : ProcessingJob)
    (db : Database)
    → get_locked job.id db ≡ ok job
    → 0 < job.attempt_count
    → settle_downstream_failure policy now job.id error db
      ≡ ok (save_job (after_downstream_failure policy now error job) db)
unfolding settle_downstream_failure
settle_downstream_failure_lem policy now error job db found positive = rw found (
    rw (delay_for_lem policy error job.attempt_count positive)
      (elim (Bool-cases (is_retryable error && leb job.attempt_count (length policy))) [
        | inl e ↦ rw e (unfold Downstream.retry in rw found refl)
        | inr e ↦ rw e (unfold Downstream.fail Queue.fail in rw found refl)
      ]))

-- When the handler of the claimed row raises, the iteration still succeeds: what the handler wrote
-- is dropped, and the row becomes `after_downstream_failure` of the claimed row: in the same
-- downstream status and due again after the delay of its attempt, or failed.
pub run_downstream_failure :
    (policy : RetryPolicy) (now : Timestamp) (held : Uuid → Bool) (worker_id : String)
    (phase : DownstreamPhase) (handler : DownstreamJobHandler) (db claimed_db : Database)
    (job : ProcessingJob) (error : Exception)
    → Downstream.claim now held worker_id phase db ≡ (some job, claimed_db)
    → handler job claimed_db ≡ err error
    → run_downstream_once policy now held worker_id phase handler db
      ≡ ok (true, save_job (after_downstream_failure policy now error job) claimed_db)
unfolding run_downstream_once
run_downstream_failure policy now held worker_id phase handler db claimed_db job error c h =
    let (old, oldest, t, d) = claim_waiting-some now held worker_id phase db claimed_db job c in
    let found = get_locked-claim_waiting now held worker_id phase db claimed_db job c in
    rw (c, h)
      (rw (settle_downstream_failure_lem policy now error job claimed_db found (ground arith)) refl)
