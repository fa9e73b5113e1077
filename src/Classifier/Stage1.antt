-- ===== src/Classifier/Stage1.antt =====
-- app/classifier/worker.py: `Stage1ClassificationHandler`, the handler of the processing queue. `today`
-- and `fresh` are the database's date and the identifier of the recorded run.
pub mod Routing
use telegram_lead_assistent.Prelude.{
  if◌then◌else◌, Bool, true, false, Option, none, some, Result, ok, err, ◌>>=◌, ◌>>◌,
}
use telegram_lead_assistent.Domain.{Exception, ProcessingJobStatus}
use telegram_lead_assistent.Database.Models.{Uuid, Timestamp, Date, ProcessingJob, Database}
use telegram_lead_assistent.Database.Queue
use telegram_lead_assistent.Database.Queue.{is_processing}
use telegram_lead_assistent.Database.Worker.{JobDisposition, JobHandler}
use telegram_lead_assistent.Classifier.Schemas.{ClassificationResult}
use telegram_lead_assistent.Classifier.Adapter.{
  ClassificationAdapter, ClassificationResponse, classify, stage1_system_prompt,
}
use telegram_lead_assistent.Classifier.Usage.{ClassificationPricing, StageCall, record_stage}

abbrev pub stage1_call :
    ClassificationAdapter
    → ClassificationPricing
    → ProcessingJob
    → ClassificationResponse
    → StageCall
stage1_call adapter pricing job response = record {
  telegram_chat_id = job.telegram_chat_id;
  telegram_message_id = job.telegram_message_id;
  stage = 1;
  queued_at = job.created_at;
  model = adapter.model;
  response = response;
  pricing = pricing;
}

-- `return JobDisposition.RETAIN` after the step.
abbrev pub retained :
    Result Exception Database → Result Exception (Option JobDisposition × Database)
retained step = step >>= λ db. ok (some JobDisposition.retain, db)

-- What follows the recording: the route of the result.
unfoldable pub route_result :
    Uuid
    → (context_required is_relevant : Bool) → Database
    → Result Exception (Option JobDisposition × Database)
route_result job_id context_required is_relevant db =
    if context_required
    then retained (Queue.route job_id ProcessingJobStatus.awaiting_reply_context db)
    else if is_relevant
    then retained (Queue.route job_id ProcessingJobStatus.awaiting_relevant_processing db)
    else ok (some JobDisposition.complete, db)

unfoldable pub stage1_handler :
    ClassificationAdapter → ClassificationPricing → Timestamp → Date → Uuid → JobHandler
unfolding route_result
stage1_handler adapter pricing now today fresh job db = elim (is_processing job.status) [
  | false ↦ ok (some JobDisposition.retain, db)
  | true ↦ do
    response ← classify adapter stage1_system_prompt job.message_text
    route_result job.id response.result.context_required response.result.is_relevant
        (record_stage now today fresh (stage1_call adapter pricing job response) db).1
]
