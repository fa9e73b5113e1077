-- ===== src/Database/Downstream.antt =====
-- app/database/downstream.py: `DownstreamJobRepository`, the second use of the queue's rows. A row
-- that waits downstream is read by the listener until it has a reply-chain snapshot, and by the
-- classifier from then on.
pub mod Claim
use telegram_lead_assistent.Prelude.{
  ◌+◌, ltb, leb, Bool, true, false, not, ◌&&◌, ◌||◌, Option, none, some, String, Result, ok, ◌>>=◌,
  first_where, is_none, is_some, truncate,
}
use telegram_lead_assistent.Domain.{Exception}
use telegram_lead_assistent.Database.Models.{
  Uuid, Timestamp, Timedelta, minutes, Json, ProcessingJob, Database,
}
use telegram_lead_assistent.Database.Queue
use telegram_lead_assistent.Database.Queue.{created_before, is_downstream, save_job, get_locked}

pub data DownstreamPhase : Type 0 where
  reply_chain classification : DownstreamPhase

abbrev pub stale_lock_after : Timedelta
stale_lock_after = minutes 5

-- `snapshot_predicate`
abbrev pub in_phase : DownstreamPhase → ProcessingJob → Bool
in_phase reply_chain row = is_none row.reply_chain_snapshot
in_phase classification row = is_some row.reply_chain_snapshot

-- `locked_at IS NULL OR locked_at < now() - STALE_LOCK_AFTER`
abbrev pub lock_is_free : Timestamp → Option Timestamp → Bool
lock_is_free now none = true
lock_is_free now (some at) = ltb (at + stale_lock_after) now

abbrev pub is_waiting : Timestamp → (Uuid → Bool) → DownstreamPhase → ProcessingJob → Bool
is_waiting now held phase row =
    is_downstream row.status
    && (leb row.next_attempt_at now
        && (in_phase phase row && (lock_is_free now row.locked_at && not (held row.id))))

abbrev pub taken : Timestamp → String → ProcessingJob → ProcessingJob
taken now worker_id job = record job {
  locked_at = some now;
  locked_by = some worker_id;
  attempt_count = job.attempt_count + 1;
}

unfoldable pub claim :
    Timestamp
    → (Uuid → Bool)
    → String
    → DownstreamPhase
    → Database
    → Option ProcessingJob × Database
claim now held worker_id phase db =
    elim (first_where created_before (is_waiting now held phase) db.processing_jobs) [
      | none ↦ (none, db)
      | some job ↦ let job' = taken now worker_id job in (some job', save_job job' db)
    ]

abbrev pub published : Timestamp → Json → ProcessingJob → ProcessingJob
published now snapshot job = record job {
  reply_chain_snapshot = some snapshot;
  attempt_count = 0;
  next_attempt_at = now;
  locked_at = none;
  locked_by = none;
  last_error_code = none;
  last_error_message = none;
}

unfoldable pub save_reply_chain : Timestamp → Uuid → Json → Database → Result Exception Database
save_reply_chain now job_id snapshot db = do
  job ← get_locked job_id db
  ok (save_job (published now snapshot job) db)

unfoldable pub retry : Uuid → String → Timestamp → Database → Result Exception Database
retry job_id error_code retry_at db = do
  job ← get_locked job_id db
  ok (
      save_job
        (record job {
          next_attempt_at = retry_at;
          locked_at = none;
          locked_by = none;
          last_error_code = some (truncate 100 error_code);
          last_error_message = none;
        })
        db)

unfoldable pub fail : Uuid → String → Database → Result Exception Database
fail job_id error_code db = Queue.fail job_id (truncate 100 error_code) none db
