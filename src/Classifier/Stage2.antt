-- ===== src/Classifier/Stage2.antt =====
-- app/classifier/stage2.py: the final classification, over a reply chain. A listing of the rows of a
-- message is read only through the tests of the stages, so that it is a query of each.
pub mod Input
pub mod Final
use Prim.Native.String.{◌++◌ as text_append}
use telegram_lead_assistent.Prelude.{
  ℕ, ◌+◌, ◌==◌, leb, if◌then◌else◌, Bool, true, false, not, ◌&&◌, Option, none, some, List, [], ◌∷◌,
  String, Result, ok, err, ◌>>=◌, ◌>>◌, guard, length, any_where, find_where,
}
use telegram_lead_assistent.Domain.{Exception, value_error, raised, ProcessingJobStatus}
use telegram_lead_assistent.Database.Models.{Uuid, Timestamp, Date, ProcessingJob, Database}
use telegram_lead_assistent.Database.Records.{ClassificationRun, RunResult}
use telegram_lead_assistent.Database.Queue
use telegram_lead_assistent.Database.Worker.{JobDisposition}
use telegram_lead_assistent.Classifier.Adapter.{
  ClassificationAdapter, ClassificationResponse, classify, stage2_system_prompt,
}
use telegram_lead_assistent.Classifier.Usage.{
  ClassificationPricing, StageCall, is_stage, record_stage,
}
use telegram_lead_assistent.Listener.ReplyChain.{ReplyChain, ReplyChainItem}

abbrev pub stage2_error : Exception
stage2_error = raised "Stage2ClassificationError" none true

abbrev pub stage2_non_final_result : Exception
stage2_non_final_result = raised "Stage2NonFinalResultError" (some "STAGE2_NON_FINAL_RESULT") false

-- `sum(item.is_target for item in items)`
unfoldable pub target_count : List ReplyChainItem → ℕ
target_count [] = 0
target_count (item ∷ items) = (if item.is_target then 1 else 0) + target_count items

-- `items[-1].is_target`; the list is not empty where it is read.
unfoldable pub ends_in_target : List ReplyChainItem → Bool
ends_in_target [] = false
ends_in_target (item ∷ []) = item.is_target
ends_in_target (item ∷ next ∷ rest) = ends_in_target (next ∷ rest)

-- `text` of the loop, `None` for an available item without one.
unfoldable pub shown_text : ReplyChainItem → Option String
shown_text item = if item.is_unavailable then some "[unavailable message]" else item.text

abbrev pub rendered : ReplyChainItem → String → String
rendered item text = text_append (if item.is_target then "[TARGET]\n" else "[CONTEXT]\n") text

unfoldable pub render : List ReplyChainItem → Result Exception (List String)
unfolding shown_text
render [] = ok []
render (item ∷ items) =
    let rest = render items in
    elim (shown_text item) [
      | none ↦ err value_error
      | some text ↦ rest >>= λ texts. ok (rendered item text ∷ texts)
    ]

-- `"\n\n".join(rendered)`
unfoldable pub join : List String → String
join [] = ""
join (text ∷ []) = text
join (text ∷ next ∷ rest) = text_append text (text_append "\n\n" (join (next ∷ rest)))

unfoldable pub format_stage2_input : ReplyChain → Result Exception String
unfolding target_count ends_in_target render join
format_stage2_input chain =
    if leb 1 (length chain.items) && leb (length chain.items) 10
    then if target_count chain.items == 1 && ends_in_target chain.items
      then (render chain.items >>= λ texts. ok (join texts))
      else err value_error
    else err value_error

abbrev pub awaits_context : ProcessingJobStatus → Bool
awaits_context ProcessingJobStatus.awaiting_reply_context = true
awaits_context _ = false

-- `stage1 is not None and stage1.result == "context_required"`
abbrev pub asks_for_context : Option ClassificationRun → Bool
asks_for_context none = false
asks_for_context (some run) = elim run.result [ RunResult.context_required ↦ true | _ ↦ false ]

abbrev pub run_at : ℕ → ProcessingJob → Database → Option ClassificationRun
run_at stage job db =
    find_where (is_stage job.telegram_chat_id job.telegram_message_id stage) db.classification_runs

abbrev pub stage2_call :
    ClassificationAdapter
    → ClassificationPricing
    → ProcessingJob
    → ClassificationResponse
    → StageCall
stage2_call adapter pricing job response = record {
  telegram_chat_id = job.telegram_chat_id;
  telegram_message_id = job.telegram_message_id;
  stage = 2;
  queued_at = job.created_at;
  model = adapter.model;
  response = response;
  pricing = pricing;
}

-- What follows the recording: the final route.
unfoldable pub finish_stage2 : Uuid → Bool → Database → Result Exception (JobDisposition × Database)
finish_stage2 job_id is_relevant db =
    if is_relevant
    then (Queue.route job_id ProcessingJobStatus.awaiting_relevant_processing db >>= λ db'.
        ok (JobDisposition.retain, db'))
    else ok (JobDisposition.complete, Queue.complete job_id db)

-- What follows the answer of the model.
unfoldable pub settle_stage2 :
    Timestamp
    → Date
    → Uuid
    → StageCall
    → Uuid
    → Database
    → Result Exception (JobDisposition × Database)
settle_stage2 now today fresh call job_id db = do
  guard (not call.response.result.context_required) stage2_non_final_result
  let recorded = record_stage now today fresh call db
  guard recorded.0 stage2_error
  finish_stage2 job_id call.response.result.is_relevant recorded.1

unfoldable pub may_run : ProcessingJob → Database → Result Exception (Unit {0})
may_run job db = do
  guard (awaits_context job.status) stage2_error
  guard (asks_for_context (run_at 1 job db)) stage2_error
  guard
      (not (
        any_where (is_stage job.telegram_chat_id job.telegram_message_id 2) db.classification_runs))
      stage2_error

-- `Stage2ClassificationService.classify`
unfoldable pub classify_stage2 :
    ClassificationAdapter
    → ClassificationPricing
    → Timestamp
    → Date
    → Uuid
    → ProcessingJob
    → ReplyChain
    → Database
    → Result Exception (JobDisposition × Database)
unfolding may_run settle_stage2
classify_stage2 adapter pricing now today fresh job chain db = do
  may_run job db
  text ← format_stage2_input chain
  response ← classify adapter stage2_system_prompt text
  settle_stage2 now today fresh (stage2_call adapter pricing job response) job.id db
