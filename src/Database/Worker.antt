-- ===== src/Database/Worker.antt =====
-- app/database/worker.py: the at-least-once worker runtimes over the two queues. A handler works on
-- the database inside a savepoint: what it wrote is dropped when it raises.
pub mod Failures
pub mod Budget
pub mod DownstreamFailures
use telegram_lead_assistent.Prelude.{
  ℕ, zero, suc, ◌+◌, ◌-◌, Bool, true, false, Option, none, some, List, [], ◌∷◌, String, Result, ok,
  err, ◌>>=◌, truncate,
}
use telegram_lead_assistent.Domain.{
  Exception, lookup_error, value_error, runtime_error, integrity_error, draft_unavailable,
  confirmation_unavailable, outbound_retry_unavailable, outbound_validation, raised,
}
use telegram_lead_assistent.Database.Models.{
  Uuid, Timestamp, Timedelta, seconds, ProcessingJob, Database,
}
use telegram_lead_assistent.Database.Queue
use telegram_lead_assistent.Database.Queue.{get_locked}
use telegram_lead_assistent.Database.Downstream
use telegram_lead_assistent.Database.Downstream.{DownstreamPhase}

pub data JobDisposition : Type 0 where
  complete retain : JobDisposition

abbrev pub JobHandler : Type 0
JobHandler = ProcessingJob → Database → Result Exception (Option JobDisposition × Database)

abbrev pub DownstreamJobHandler : Type 0
DownstreamJobHandler = ProcessingJob → Database → Result Exception Database

-- `RetryPolicy`, by its `delays_seconds`.
abbrev pub RetryPolicy : Type 0
RetryPolicy = List ℕ

abbrev pub default_policy : RetryPolicy
default_policy = 15 ∷ 60 ∷ 300 ∷ 1800 ∷ []

-- `None` past the end, and otherwise the delay at the index.
unfoldable pub delay_at : RetryPolicy → ℕ → Option Timedelta
delay_at [] index = none
delay_at (d ∷ ds) zero = some (seconds d)
delay_at (d ∷ ds) (suc index) = delay_at ds index

unfoldable pub delay_after_attempt : RetryPolicy → ℕ → Result Exception (Option Timedelta)
unfolding delay_at
delay_after_attempt policy zero = err value_error
delay_after_attempt policy (suc index) = ok (delay_at policy index)

-- `type(error).__name__`
abbrev pub class_name : Exception → String
class_name lookup_error = "LookupError"
class_name value_error = "ValueError"
class_name runtime_error = "RuntimeError"
class_name integrity_error = "IntegrityError"
class_name draft_unavailable = "DraftUnavailableError"
class_name confirmation_unavailable = "ConfirmationUnavailableError"
class_name outbound_retry_unavailable = "OutboundRetryUnavailableError"
class_name outbound_validation = "OutboundValidationError"
class_name (raised name code retryable) = name

-- `getattr(error, "retryable", True) is not False`
abbrev pub is_retryable : Exception → Bool
is_retryable (raised name code retryable) = retryable
is_retryable _ = true

-- `getattr(error, "error_code", None)` if that is a text, else the class name; at most 100 characters.
abbrev pub error_code : Exception → String
error_code (raised name (some code) retryable) = truncate 100 code
error_code (raised name none retryable) = truncate 100 name
error_code e = truncate 100 (class_name e)

abbrev pub delay_for : RetryPolicy → Exception → ℕ → Result Exception (Option Timedelta)
delay_for policy error attempts = elim (is_retryable error) [
  | true ↦ delay_after_attempt policy attempts
  | false ↦ ok none
]

-- The `except` branch of `QueueWorker.run_once`: `refresh` reads the row again.
settle_failure : RetryPolicy → Timestamp → Uuid → Exception → Database → Result Exception Database
settle_failure policy now job_id error db = do
  job ← get_locked job_id db
  delay ← delay_for policy error job.attempt_count
  elim delay [
    | none ↦ Queue.fail job.id (error_code error) none db
    | some d ↦ Queue.retry job.id (error_code error) (now + d) none db
  ]

-- The `else` branch: the row goes unless the handler retains it.
unfoldable pub finish : Uuid → Option JobDisposition → Database → Database
finish job_id (some retain) db = db
finish job_id (some complete) db = Queue.complete job_id db
finish job_id none db = Queue.complete job_id db

settle :
    RetryPolicy
    → Timestamp
    → Uuid
    → Database
    → Result Exception (Option JobDisposition × Database)
    → Result Exception Database
unfolding settle_failure finish
settle policy now job_id before (ok (disposition, db)) = ok (finish job_id disposition db)
settle policy now job_id before (err error) = settle_failure policy now job_id error before

run_claimed :
    RetryPolicy
    → Timestamp
    → JobHandler
    → Option ProcessingJob × Database
    → Result Exception (Bool × Database)
unfolding settle
run_claimed policy now handler (none, db) = ok (false, db)
run_claimed policy now handler (some job, db) = do
  db' ← settle policy now job.id db (handler job db)
  ok (true, db')

-- `QueueWorker.run_once`: whether a row was claimed, and the database that is committed.
unfoldable pub run_once :
    RetryPolicy
    → Timestamp
    → (Uuid → Bool)
    → String
    → JobHandler
    → Database
    → Result Exception (Bool × Database)
unfolding run_claimed
run_once policy now held worker_id handler db =
    run_claimed policy now handler (Queue.claim now held worker_id db)

settle_downstream_failure :
    RetryPolicy → Timestamp → Uuid → Exception → Database → Result Exception Database
settle_downstream_failure policy now job_id error db = do
  job ← get_locked job_id db
  delay ← delay_for policy error job.attempt_count
  elim delay [
    | none ↦ Downstream.fail job.id (error_code error) db
    | some d ↦ Downstream.retry job.id (error_code error) (now + d) db
  ]

settle_downstream :
    RetryPolicy
    → Timestamp
    → Uuid
    → Database
    → Result Exception Database
    → Result Exception Database
unfolding settle_downstream_failure
settle_downstream policy now job_id before (ok db) = ok db
settle_downstream policy now job_id before (err error) =
    settle_downstream_failure policy now job_id error before

run_claimed_downstream :
    RetryPolicy
    → Timestamp
    → DownstreamJobHandler
    → Option ProcessingJob × Database
    → Result Exception (Bool × Database)
unfolding settle_downstream
run_claimed_downstream policy now handler (none, db) = ok (false, db)
run_claimed_downstream policy now handler (some job, db) = do
  db' ← settle_downstream policy now job.id db (handler job db)
  ok (true, db')

-- `DownstreamQueueWorker.run_once`
unfoldable pub run_downstream_once :
    RetryPolicy
    → Timestamp
    → (Uuid → Bool)
    → String
    → DownstreamPhase
    → DownstreamJobHandler
    → Database
    → Result Exception (Bool × Database)
unfolding run_claimed_downstream
run_downstream_once policy now held worker_id phase handler db =
    run_claimed_downstream policy now handler (Downstream.claim now held worker_id phase db)

-- `recover_stale_jobs`. The subtraction stops at 0, before which no lock was taken.
unfoldable pub recover_stale_jobs : Timestamp → Timedelta → Database → List Uuid × Database
recover_stale_jobs now lock_timeout db = Queue.recover_stale now (now - lock_timeout) db
