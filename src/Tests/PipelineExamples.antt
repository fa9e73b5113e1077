-- ===== src/Tests/PipelineExamples.antt =====
-- The theorems of the relevant questions on concrete messages.
use telegram_lead_assistent.Prelude.{
  ◌+◌, ◌≡◌, refl, true, false, none, List, [], ◌∷◌, map, ok, arith, any_where, find_where,
  first_where, first_by, select_where, update_where,
}
use telegram_lead_assistent.Domain.{ProcessingJobStatus}
use telegram_lead_assistent.Database.Models.{ProcessingJob, Database}
use telegram_lead_assistent.Database.Records.{
  ClassificationRun, QuestionChainMessage, TranslationStatus,
}
use telegram_lead_assistent.Database.Queue
use telegram_lead_assistent.Database.Queue.{new_row, claimed, save_job, get_locked}
use telegram_lead_assistent.Database.Downstream
use telegram_lead_assistent.Database.Downstream.{DownstreamPhase, taken, published}
use telegram_lead_assistent.Database.Worker.{default_policy, run_downstream_once}
use telegram_lead_assistent.Listener.ReplyChain.{
  ReplyChain, get_reply_chain, mark_target, walk, turn, start, chain_of,
}
use telegram_lead_assistent.Listener.ReplyChain.Snapshot.{serialize_reply_chain, snapshot_handler}
use telegram_lead_assistent.Translation.Client.{TranslationResult}
use telegram_lead_assistent.Classifier.Usage.{run_of}
use telegram_lead_assistent.Classifier.Stage1.Routing.{routed}
use telegram_lead_assistent.Classifier.Relevant.{
  PersistenceService, NewIds, with_question, question_of, available, persist, untranslated,
  chain_message, store_question, translate_items, translate, translation_of_target, chain_messages,
}
use telegram_lead_assistent.Classifier.Relevant.Once.{persist_once}
use telegram_lead_assistent.Classifier.Relevant.Stored.{numbered}
use telegram_lead_assistent.Classifier.Downstream.{DownstreamSetting, downstream_handler}
use telegram_lead_assistent.Classifier.Pipeline.{relevant_message_becomes_question}
use telegram_lead_assistent.Tests.Fixtures.{source}
use telegram_lead_assistent.Tests.Snapshots.{snapshot_model, snapshot_model-ValidatesDumps}
use telegram_lead_assistent.Tests.Answers.{
  free, today, pricing, adapter, row, one_job_db, call, item, chain,
}

abbrev waiting : ProcessingJob
waiting = routed ProcessingJobStatus.awaiting_relevant_processing row

abbrev relevant_run_row : ClassificationRun
relevant_run_row = run_of 20 3 call

abbrev relevant_db : Database
relevant_db = record (one_job_db waiting) { classification_runs = relevant_run_row ∷ [] }

abbrev ids : NewIds
ids = record { question_id = 500; notification_id = 501; chain_message_id = λ n. 510 + n }

abbrev service : PersistenceService
service = record {
  operator_telegram_user_id = 9;
  translation_service = none;
  translation_enabled = false;
}

abbrev setting : DownstreamSetting
setting = record {
  model = snapshot_model;
  adapter = adapter false true;
  pricing = pricing;
  service = service;
  now = 70;
  today = today;
  run_id = 7;
  ids = ids;
}

abbrev loaded : ReplyChain
loaded = chain_of source 70 (walk source 70 10 5 start)

abbrev listener_job : ProcessingJob
listener_job = taken 50 "listener" waiting

abbrev published_job : ProcessingJob
published_job = published 50 (serialize_reply_chain snapshot_model loaded) listener_job

abbrev classifier_job : ProcessingJob
classifier_job = taken 60 "classifier" published_job

abbrev with_job : ProcessingJob → Database
with_job job = record relevant_db { processing_jobs = job ∷ [] }

relevant_message_becomes_question_example :
    (run_downstream_once default_policy 50 free "listener" DownstreamPhase.reply_chain
        (snapshot_handler snapshot_model source 50)
        relevant_db
      ≡ ok (
        true,
        save_job
            (published 50 (serialize_reply_chain snapshot_model loaded) listener_job)
            (with_job listener_job),
      ))
    × (target : TranslationResult) × (rows : List QuestionChainMessage) × (run_downstream_once
          default_policy 60 free "classifier" DownstreamPhase.classification
          (downstream_handler setting)
          (save_job
            (published 50 (serialize_reply_chain snapshot_model loaded) listener_job)
            (with_job listener_job))
        ≡ ok (
          true,
          with_question service 70 ids classifier_job
              (question_of 70 500 classifier_job loaded relevant_run_row target)
              rows
              (with_job classifier_job),
        ))
    × (map (λ r. (r.position, r.telegram_message_id)) rows ≡ numbered 0 (available loaded.items))
unfolding Downstream.claim first_where first_by select_where update_where save_job find_where
    any_where get_reply_chain walk turn mark_target
relevant_message_becomes_question_example =
    relevant_message_becomes_question default_policy 50 60 free free "listener" "classifier" source
      setting loaded relevant_run_row relevant_db (with_job listener_job) (with_job classifier_job)
      listener_job classifier_job (λ chat_id id m e. ground arith) snapshot_model-ValidatesDumps
      refl refl refl refl refl refl refl refl

abbrev untranslated_target : TranslationResult
untranslated_target = untranslated "So?" TranslationStatus.disabled none

abbrev persisted_db : Database
persisted_db =
    with_question service 70 ids waiting
      (question_of 70 500 waiting chain relevant_run_row untranslated_target)
      (chain_message ids 0 item untranslated_target 1 "So?" ∷ []) relevant_db

persist_once_example :
    persist service 90 ids waiting chain persisted_db ≡ ok (500, Queue.complete 101 persisted_db)
unfolding persist store_question find_where select_where first_where first_by translate_items
    translate translation_of_target chain_messages
persist_once_example =
    persist_once service 70 ids waiting chain relevant_db persisted_db 500 service 90 ids waiting
      chain refl refl refl refl refl
