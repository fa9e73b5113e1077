-- ===== src/Database/Queue.antt =====
-- app/database/queue.py: `JobRepository`, the processing queue. An operation takes the values that
-- the database gives it, `now` (the same in a whole transaction) and a fresh identifier, and returns
-- the database that it leaves; `held` tells the rows that other transactions have locked.
pub mod Lookup
pub mod Enqueue
pub mod Claim
pub mod Recovery
use telegram_lead_assistent.Prelude.{
  ℕ, ◌+◌, ◌-◌, max, ◌==◌, ltb, leb, if◌then◌else◌, Bool, true, false, not, ◌&&◌, ◌||◌, Option, none,
  some, List, [], ◌∷◌, ◌++◌, map, String, str_eq, Result, ok, err, ◌>>=◌, ◌>>◌, guard, find_where,
  any_where, select_where, update_where, delete_where, first_where, is_none,
}
use telegram_lead_assistent.Domain.{
  Exception, lookup_error, value_error, runtime_error, integrity_error, ProcessingJobStatus,
}
use telegram_lead_assistent.Database.Models.{
  Uuid, TelegramId, Timestamp, Timedelta, seconds, MonitoredChat, ProcessingJob,
  RecentMessageFingerprint, Database,
}

pub record NewJob : Type 0 where
  pub monitored_chat_id : Uuid
  pub telegram_chat_id : TelegramId
  pub telegram_message_id : TelegramId
  pub message_text : String
  pub telegram_created_at : Timestamp
  pub topic_id : Option TelegramId
  pub sender_telegram_id : Option TelegramId
  pub sender_display_name : Option String

-- The inserted row, with the column defaults of the table.
abbrev pub new_row : Timestamp → Uuid → NewJob → ProcessingJob
new_row now id job = record {
  id = id;
  monitored_chat_id = job.monitored_chat_id;
  telegram_chat_id = job.telegram_chat_id;
  telegram_message_id = job.telegram_message_id;
  topic_id = job.topic_id;
  sender_telegram_id = job.sender_telegram_id;
  sender_display_name = job.sender_display_name;
  message_text = job.message_text;
  telegram_created_at = job.telegram_created_at;
  status = ProcessingJobStatus.pending;
  attempt_count = 0;
  next_attempt_at = now;
  locked_at = none;
  locked_by = none;
  last_error_code = none;
  last_error_message = none;
  reply_chain_snapshot = none;
  created_at = now;
  expires_at = now + seconds 86400;
}

abbrev pub same_message : TelegramId → TelegramId → ProcessingJob → Bool
same_message chat_id message_id row =
    row.telegram_chat_id == chat_id && row.telegram_message_id == message_id

abbrev pub has_id : Uuid → ProcessingJob → Bool
has_id id row = row.id == id

abbrev pub has_chat_id : Uuid → MonitoredChat → Bool
has_chat_id id chat = chat.id == id

-- `INSERT … ON CONFLICT DO NOTHING RETURNING id`: the identifier if the row went in. A row that goes
-- in must refer to a chat of the table.
insert_job : Timestamp → Uuid → NewJob → Database → Result Exception (Option Uuid × Database)
insert_job now fresh job db =
    elim (find_where (same_message job.telegram_chat_id job.telegram_message_id)
      db.processing_jobs) [
        | none ↦
            if any_where (has_chat_id job.monitored_chat_id) db.monitored_chats
            then ok (
              some fresh,
              record db { processing_jobs = db.processing_jobs ++ new_row now fresh job ∷ [] },
            )
            else err integrity_error
        | some existing ↦ ok (none, db)
      ]

-- The second statement does not see the rows in `gone`, which other transactions have deleted since
-- the first.
existing_id : (Uuid → Bool) → NewJob → Database → Result Exception (Uuid × Database)
existing_id gone job db =
    elim (find_where
      (λ row. same_message job.telegram_chat_id job.telegram_message_id row && not (gone row.id))
      db.processing_jobs) [ none ↦ err runtime_error | some existing ↦ ok (existing.id, db) ]

inserted_or_existing :
    (Uuid → Bool) → NewJob → Option Uuid × Database → Result Exception (Uuid × Database)
inserted_or_existing gone job (some id, db) = ok (id, db)
inserted_or_existing gone job (none, db) = existing_id gone job db

unfoldable pub enqueue :
    Timestamp → Uuid → (Uuid → Bool) → NewJob → Database → Result Exception (Uuid × Database)
unfolding insert_job existing_id inserted_or_existing
enqueue now fresh gone job db = insert_job now fresh job db >>= inserted_or_existing gone job

abbrev pub is_claimable : ProcessingJobStatus → Bool
is_claimable ProcessingJobStatus.pending = true
is_claimable ProcessingJobStatus.retry = true
is_claimable _ = false

abbrev pub is_processing : ProcessingJobStatus → Bool
is_processing ProcessingJobStatus.processing = true
is_processing _ = false

-- `ORDER BY created_at, id`
abbrev pub created_before : ProcessingJob → ProcessingJob → Bool
created_before a b =
    ltb a.created_at b.created_at || (a.created_at == b.created_at && ltb a.id b.id)

-- The rows that `claim` may take: ready, due, and not locked by another transaction.
abbrev pub is_ready : Timestamp → (Uuid → Bool) → ProcessingJob → Bool
is_ready now held row =
    is_claimable row.status && (leb row.next_attempt_at now && not (held row.id))

-- `flush`: the mapped object overwrites its row.
unfoldable pub save_job : ProcessingJob → Database → Database
save_job job db = record db {
  processing_jobs = update_where (has_id job.id) (λ _. job) db.processing_jobs;
}

abbrev pub claimed : Timestamp → String → ProcessingJob → ProcessingJob
claimed now worker_id job = record job {
  status = ProcessingJobStatus.processing;
  locked_at = some now;
  locked_by = some worker_id;
  attempt_count = job.attempt_count + 1;
}

unfoldable pub claim :
    Timestamp → (Uuid → Bool) → String → Database → Option ProcessingJob × Database
claim now held worker_id db =
    elim (first_where created_before (is_ready now held) db.processing_jobs) [
      | none ↦ (none, db)
      | some job ↦ let job' = claimed now worker_id job in (some job', save_job job' db)
    ]

unfoldable pub get_locked : Uuid → Database → Result Exception ProcessingJob
get_locked job_id db = elim (find_where (has_id job_id) db.processing_jobs) [
  | none ↦ err lookup_error
  | some job ↦ ok job
]

unfoldable pub retry :
    Uuid → String → Timestamp → Option String → Database → Result Exception Database
retry job_id error_code retry_at error_message db = do
  job ← get_locked job_id db
  ok (
      save_job
        (record job {
          status = ProcessingJobStatus.retry;
          next_attempt_at = retry_at;
          locked_at = none;
          locked_by = none;
          last_error_code = some error_code;
          last_error_message = error_message;
        })
        db)

unfoldable pub complete : Uuid → Database → Database
complete job_id db = record db { processing_jobs = delete_where (has_id job_id) db.processing_jobs }

abbrev pub is_downstream : ProcessingJobStatus → Bool
is_downstream ProcessingJobStatus.awaiting_relevant_processing = true
is_downstream ProcessingJobStatus.awaiting_reply_context = true
is_downstream _ = false

unfoldable pub route : Uuid → ProcessingJobStatus → Database → Result Exception Database
route job_id status db = do
  guard (is_downstream status) value_error
  job ← get_locked job_id db
  ok (
      save_job
        (record job {
          status = status;
          locked_at = none;
          locked_by = none;
          last_error_code = none;
          last_error_message = none;
          attempt_count = 0;
        })
        db)

unfoldable pub fail : Uuid → String → Option String → Database → Result Exception Database
fail job_id error_code error_message db = do
  job ← get_locked job_id db
  ok (
      save_job
        (record job {
          status = ProcessingJobStatus.failed;
          locked_at = none;
          locked_by = none;
          last_error_code = some error_code;
          last_error_message = error_message;
        })
        db)

-- `extract(epoch from now() - min(created_at))` over the claimable rows, in microseconds, and 0 for
-- none or a negative age: the subtraction stops at 0 as `max(…, 0.0)` does.
abbrev earliest : ProcessingJob → ProcessingJob → Bool
earliest a b = ltb a.created_at b.created_at

unfoldable pub oldest_job_age : Timestamp → Database → Timedelta
oldest_job_age now db =
    elim (first_where earliest (λ row. is_claimable row.status) db.processing_jobs) [
      | none ↦ 0
      | some oldest ↦ now - oldest.created_at
    ]

abbrev locked_before : Timestamp → Option Timestamp → Bool
locked_before limit none = false
locked_before limit (some at) = ltb at limit

abbrev pub is_stale : Timestamp → ProcessingJob → Bool
is_stale stale_before row = is_processing row.status && locked_before stale_before row.locked_at

abbrev pub recovered : Timestamp → ProcessingJob → ProcessingJob
recovered now row = record row {
  status = ProcessingJobStatus.retry;
  next_attempt_at = now;
  locked_at = none;
  locked_by = none;
  last_error_code = some "STALE_LOCK_RECOVERED";
}

unfoldable pub recover_stale : Timestamp → Timestamp → Database → List Uuid × Database
recover_stale now stale_before db = (
  map (λ row. row.id) (select_where (is_stale stale_before) db.processing_jobs),
  record db {
    processing_jobs = update_where (is_stale stale_before) (recovered now) db.processing_jobs;
  },
)
