-- ===== src/Tests/Answers.antt =====
-- The model and the rows of the classifier's examples.
use telegram_lead_assistent.Prelude.{Bool, true, false, none, some, [], ◌∷◌}
use telegram_lead_assistent.Database.Models.{Uuid, Date, ProcessingJob, Database, empty_database}
use telegram_lead_assistent.Database.Queue.{new_row}
use telegram_lead_assistent.Listener.ReplyChain.{ReplyChain, ReplyChainItem, available_item}
use telegram_lead_assistent.Classifier.Schemas.{ClassificationCategory, ClassificationReasonCode}
use telegram_lead_assistent.Classifier.Adapter.{
  ClassificationAdapter, ClassificationResponse, parsed,
}
use telegram_lead_assistent.Classifier.Usage.{ClassificationPricing, StageCall}
use telegram_lead_assistent.Classifier.Stage1.{stage1_call}
use telegram_lead_assistent.Tests.Fixtures.{new_job, message}

abbrev pub free : Uuid → Bool
free id = false

abbrev pub today : Date
today = record { year = 2026; month = 2; day = 3 }

abbrev pub pricing : ClassificationPricing
pricing = record { input_per_million_usd = 150000; output_per_million_usd = 600000 }

abbrev pub answer : Bool → Bool → ClassificationResponse
answer context_required is_relevant = record {
  result = record {
    is_relevant = is_relevant;
    category = ClassificationCategory.technical;
    confidence = 9000;
    context_required = context_required;
    reason_code = ClassificationReasonCode.technical_problem;
  };
  usage = record { input_tokens = 100; output_tokens = 20; total_tokens = 120 };
}

abbrev pub adapter : Bool → Bool → ClassificationAdapter
adapter context_required is_relevant = record {
  model = "small";
  client = λ model instructions input.
      let response = answer context_required is_relevant in
      parsed (some response.result) (some response.usage);
}

abbrev pub row : ProcessingJob
row = new_row 10 101 (new_job 5)

abbrev pub one_job_db : ProcessingJob → Database
one_job_db job = record empty_database { processing_jobs = job ∷ [] }

abbrev pub call : StageCall
call = stage1_call (adapter false true) pricing row (answer false true)

abbrev pub item : ReplyChainItem
item = record (available_item (message none 70 5)) { is_target = true }

abbrev pub chain : ReplyChain
chain = record {
  chat_id = 70;
  items = item ∷ [];
  topic_id = none;
  reply_to_top_message_id = none;
  topic_title = none;
  stop_reason = none;
}
