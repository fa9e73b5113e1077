-- ===== src/Classifier/Stage1/Routing.antt =====
-- What the first stage makes of a claimed job.
use telegram_lead_assistent.Prelude.{
  ◌≡◌, refl, ◌∙◌, Bool, true, false, Option, none, some, String, ok, find_where,
  find_where-append_none, find_where-delete, Option-cases, inl, inr, ==_refl,
}
use telegram_lead_assistent.Domain.{ProcessingJobStatus}
use telegram_lead_assistent.Database.Models.{Uuid, Timestamp, Date, ProcessingJob, Database}
use telegram_lead_assistent.Database.Records.{ClassificationRun}
use telegram_lead_assistent.Database.Queue
use telegram_lead_assistent.Database.Queue.{
  has_id, save_job, get_locked, is_processing, is_downstream,
}
use telegram_lead_assistent.Database.Queue.Lookup.{
  job_by_id, job_by_id-save_job, job_by_id_of_get_locked,
}
use telegram_lead_assistent.Database.Queue.Claim.{claim-some, get_locked-claim}
use telegram_lead_assistent.Database.Worker.{RetryPolicy, JobDisposition, finish, run_once}
use telegram_lead_assistent.Classifier.Adapter.{
  ClassificationAdapter, ClassificationResponse, classify, stage1_system_prompt,
}
use telegram_lead_assistent.Classifier.Usage.{
  ClassificationPricing, StageCall, is_stage, run_of, record_stage,
}
use telegram_lead_assistent.Classifier.Usage.Accounting.{
  run_row, record_stage_new, record_stage_old,
}
use telegram_lead_assistent.Classifier.Stage1.{stage1_call, route_result, stage1_handler}

-- A job that waits downstream, tried no time yet there.
abbrev pub routed : ProcessingJobStatus → ProcessingJob → ProcessingJob
routed status job = record job {
  status = status;
  locked_at = none;
  locked_by = none;
  last_error_code = none;
  last_error_message = none;
  attempt_count = 0;
}

-- The row of the job after the answer.
abbrev pub after_stage1 :
    (context_required is_relevant : Bool) → ProcessingJob → Option ProcessingJob
after_stage1 true is_relevant job = some (routed ProcessingJobStatus.awaiting_reply_context job)
after_stage1 false true job = some (routed ProcessingJobStatus.awaiting_relevant_processing job)
after_stage1 false false job = none

-- Recording leaves the queue as it is.
pub record_stage_jobs :
    (now : Timestamp) (today : Date) (fresh : Uuid) (call : StageCall) (db : Database)
    → (record_stage now today fresh call db).1.processing_jobs ≡ db.processing_jobs
record_stage_jobs now today fresh call db = elim (Option-cases (run_row call db)) [
  | inl e ↦ rw (record_stage_new now today fresh call db e) refl
  | inr (run, e) ↦ rw (record_stage_old now today fresh call db run e) refl
]

-- Routing and completing, as reads of the queue afterwards.
pub route_lem :
    (status : ProcessingJobStatus) (job : ProcessingJob) (db : Database)
    → is_downstream status ≡ true
    → get_locked job.id db ≡ ok job
    → (db' : Database) × (Queue.route job.id status db ≡ ok db')
      × (job_by_id job.id db' ≡ some (routed status job))
      × (db'.classification_runs ≡ db.classification_runs)
unfolding Queue.route
route_lem status job db down found = (
  save_job (routed status job) db,
  rw (Queue.route, down, found) refl,
  rw (job_by_id-save_job job.id (routed status job) db)
      (rw (==_refl job.id, job_by_id_of_get_locked job.id job db found) refl),
  unfold save_job in refl,
)

pub complete_lem :
    (job : ProcessingJob) (db : Database) → job_by_id job.id (Queue.complete job.id db) ≡ none
unfolding Queue.complete
complete_lem job db = find_where-delete (has_id job.id) db.processing_jobs

-- What is read of the queue depends on its rows only.
pub get_locked_same :
    (id : Uuid) (db db' : Database)
    → db.processing_jobs ≡ db'.processing_jobs
    → get_locked id db ≡ get_locked id db'
unfolding get_locked
get_locked_same id db db' e = rw e refl

route_result_lem :
    (context_required is_relevant : Bool) (job : ProcessingJob) (db : Database)
    → get_locked job.id db ≡ ok job
    → (disposition : Option JobDisposition) × (db' : Database) × (route_result job.id
          context_required is_relevant db
        ≡ ok (disposition, db'))
      × (job_by_id job.id (finish job.id disposition db')
          ≡ after_stage1 context_required is_relevant job)
      × ((finish job.id disposition db').classification_runs ≡ db.classification_runs)
unfolding route_result finish Queue.complete
route_result_lem true is_relevant job db found =
    let (db', e, row, runs) =
      route_lem ProcessingJobStatus.awaiting_reply_context job db refl found in
    (some JobDisposition.retain, db', rw e refl, row, runs)
route_result_lem false true job db found =
    let (db', e, row, runs) =
      route_lem ProcessingJobStatus.awaiting_relevant_processing job db refl found in
    (some JobDisposition.retain, db', rw e refl, row, runs)
route_result_lem false false job db found =
    (some JobDisposition.complete, db, refl, complete_lem job db, refl)

-- The run of the first stage of the job's message.
abbrev pub stage1_run : ProcessingJob → Database → Option ClassificationRun
stage1_run job db =
    find_where (is_stage job.telegram_chat_id job.telegram_message_id 1) db.classification_runs

-- The run that stays when a call is recorded.
abbrev pub recorded_run : Option ClassificationRun → ClassificationRun → ClassificationRun
recorded_run none new = new
recorded_run (some existing) new = existing

record_stage-run :
    (now : Timestamp) (today : Date) (fresh : Uuid) (call : StageCall) (db : Database)
    → run_row call (record_stage now today fresh call db).1
      ≡ some (recorded_run (run_row call db) (run_of now fresh call))
record_stage-run now today fresh call db = elim (Option-cases (run_row call db)) [
  | inl e ↦ rw (record_stage_new now today fresh call db e) (
      rw e (
        find_where-append_none (is_stage call.telegram_chat_id call.telegram_message_id call.stage)
          db.classification_runs (run_of now fresh call) e
        ∙ rw (==_refl call.telegram_chat_id, ==_refl call.telegram_message_id, ==_refl call.stage)
            refl))
  | inr (run, e) ↦ rw (record_stage_old now today fresh call db run e) (rw e refl)
]

-- When a worker whose handler is the first stage claims a job, and the model answers, the iteration
-- succeeds; afterwards the run of the first stage of the job's message is the one that was recorded
-- before, or else the one of this call, and the job's row waits for its reply context if the answer asks for it, waits for the relevant processing if
-- the answer is that it is relevant, in both cases unlocked and with no attempt counted, and is gone
-- otherwise.
pub stage1_routes :
    (policy : RetryPolicy) (now : Timestamp) (held : Uuid → Bool) (worker_id : String)
    (adapter : ClassificationAdapter) (pricing : ClassificationPricing) (today : Date)
    (fresh : Uuid) (db claimed_db : Database) (job : ProcessingJob)
    (response : ClassificationResponse)
    → Queue.claim now held worker_id db ≡ (some job, claimed_db)
    → classify adapter stage1_system_prompt job.message_text ≡ ok response
    → (db' : Database) × (run_once policy now held worker_id
          (stage1_handler adapter pricing now today fresh)
          db
        ≡ ok (true, db'))
      × (job_by_id job.id db'
          ≡ after_stage1 response.result.context_required response.result.is_relevant job)
      × (find_where
            (is_stage job.telegram_chat_id job.telegram_message_id 1)
            db'.classification_runs
          ≡ some (
              recorded_run
                (stage1_run job claimed_db)
                (run_of now fresh (stage1_call adapter pricing job response))))
unfolding run_once stage1_handler
stage1_routes policy now held worker_id adapter pricing today fresh db claimed_db job response c a =
    let (old, oldest, t, d) = claim-some now held worker_id db claimed_db job c in
    let call = stage1_call adapter pricing job response in
    let recorded = (record_stage now today fresh call claimed_db).1 in
    let (disposition, db', e, row, runs) =
      route_result_lem response.result.context_required response.result.is_relevant job recorded (
        get_locked_same job.id recorded claimed_db
          (record_stage_jobs now today fresh call claimed_db)
        ∙ get_locked-claim now held worker_id db claimed_db job c) in
    let busy : is_processing job.status ≡ true = rw t refl in
    (
      finish job.id disposition db',
      rw (c, stage1_handler, busy, a, e) refl,
      row,
      rw runs (record_stage-run now today fresh call claimed_db),
    )
