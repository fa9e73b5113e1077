-- ===== src/Classifier/Relevant.antt =====
-- app/classifier/relevant.py: the persistence of a relevant question, with its translations, its
-- messages and its notification. `now` is the database's; `fresh` gives the identifiers of the new
-- rows: of the question, of the notification, and of the chain's messages by their position.
pub mod Once
pub mod Stored
use telegram_lead_assistent.Prelude.{
  ℕ, zero, suc, ◌+◌, ◌*◌, ◌==◌, ltb, if◌then◌else◌, Bool, true, false, not, ◌&&◌, Option, none,
  some, List, [], ◌∷◌, ◌++◌, String, Result, ok, err, ◌>>=◌, ◌>>◌, guard, find_where, select_where,
  first_where, length,
}
use telegram_lead_assistent.Domain.{
  Exception, value_error, raised, ProcessingJobStatus, QuestionStatus,
}
use telegram_lead_assistent.Database.Models.{
  Uuid, TelegramId, Timestamp, seconds, ProcessingJob, DetectedQuestion, Database,
}
use telegram_lead_assistent.Database.Records.{
  ClassificationRun, RunResult, QuestionChainMessage, BotNotification, DeliveryStatus,
  TranslationStatus,
}
use telegram_lead_assistent.Database.Queue
use telegram_lead_assistent.Listener.ReplyChain.{ReplyChain, ReplyChainItem}
use telegram_lead_assistent.Translation.Client.{TranslationResult, TranslationService}

abbrev pub persistence_error : Exception
persistence_error = raised "RelevantQuestionPersistenceError" none true

pub record PersistenceService : Type 0 where
  pub operator_telegram_user_id : TelegramId
  pub translation_service : Option TranslationService
  pub translation_enabled : Bool

-- `__init__`
unfoldable pub make_service :
    TelegramId → Option TranslationService → Bool → Result Exception PersistenceService
make_service operator none true = err value_error
make_service zero service enabled = err value_error
make_service operator service enabled = ok (record {
  operator_telegram_user_id = operator;
  translation_service = service;
  translation_enabled = enabled;
})

pub record NewIds : Type 0 where
  pub question_id : Uuid
  pub notification_id : Uuid
  pub chain_message_id : ℕ → Uuid

abbrev pub untranslated : String → TranslationStatus → Option String → TranslationResult
untranslated text status error_code = record {
  original_text = text;
  translated_text = none;
  source_language = none;
  status = status;
  error_code = error_code;
}

-- `except Exception`
abbrev pub or_failed : String → Result Exception TranslationResult → TranslationResult
or_failed text (ok result) = result
or_failed text (err e) =
    untranslated text TranslationStatus.failed (some "unexpected_translation_error")

-- `_translate`; with the translation enabled there is a service, as `__init__` demands.
unfoldable pub translate : PersistenceService → String → TranslationResult
translate service text =
    if service.translation_enabled
    then elim service.translation_service [
      | none ↦ untranslated text TranslationStatus.failed (some "unexpected_translation_error")
      | some client ↦
          or_failed text
            (client.detect_language text >>= λ language. client.translate_to_russian text language)
    ]
    else untranslated text TranslationStatus.disabled none

-- `zip(available_items, translations)`, an error for an available item without a text.
unfoldable pub translate_items :
    PersistenceService
    → List ReplyChainItem
    → Result Exception (List (ReplyChainItem × TranslationResult))
unfolding translate
translate_items service [] = ok []
translate_items service (item ∷ items) =
    let rest = translate_items service items in
    elim item.text [
      | none ↦ err persistence_error
      | some text ↦ rest >>= λ pairs. ok ((item, translate service text) ∷ pairs)
    ]

-- `translations[available_items.index(target)]`. An item that equals the target is marked as one,
-- which only the target is; `index` raises a `ValueError` when the target is not available.
unfoldable pub translation_of_target :
    List (ReplyChainItem × TranslationResult) → Result Exception TranslationResult
translation_of_target pairs = elim (find_where (λ pair. pair.0.is_target) pairs) [
  | none ↦ err value_error
  | some (item, result) ↦ ok result
]

abbrev pub is_question_of : TelegramId → TelegramId → DetectedQuestion → Bool
is_question_of chat_id message_id row =
    row.telegram_chat_id == chat_id && row.telegram_message_id == message_id

abbrev pub is_relevant_run : TelegramId → TelegramId → ClassificationRun → Bool
is_relevant_run chat_id message_id run =
    run.telegram_chat_id == chat_id
    && (run.telegram_message_id == message_id
        && elim run.result [ RunResult.relevant ↦ true | _ ↦ false ])

-- `ORDER BY stage DESC`
abbrev pub later_stage : ClassificationRun → ClassificationRun → Bool
later_stage a b = ltb b.stage a.stage

abbrev or_else : Option TelegramId → Option TelegramId → Option TelegramId
or_else none b = b
or_else (some a) b = some a

abbrev pub question_of :
    Timestamp
    → Uuid
    → ProcessingJob
    → ReplyChain
    → ClassificationRun
    → TranslationResult
    → DetectedQuestion
question_of now id job chain classification target = record {
  id = id;
  monitored_chat_id = some job.monitored_chat_id;
  telegram_chat_id = job.telegram_chat_id;
  telegram_message_id = job.telegram_message_id;
  topic_id = or_else chain.topic_id job.topic_id;
  topic_title = chain.topic_title;
  author_telegram_id = job.sender_telegram_id;
  author_display_name = job.sender_display_name;
  telegram_created_at = job.telegram_created_at;
  original_text = job.message_text;
  translated_text = target.translated_text;
  source_language = target.source_language;
  category = classification.category;
  confidence = classification.confidence;
  status = QuestionStatus.detected;
  detected_at = now;
  expires_at = now + seconds (60 * 86400);
  updated_at = now;
}

abbrev pub chain_message :
    NewIds → ℕ → ReplyChainItem → TranslationResult → Timestamp → String → QuestionChainMessage
chain_message ids position item result created_at text = record {
  id = ids.chain_message_id position;
  question_id = ids.question_id;
  position = position;
  telegram_message_id = item.telegram_message_id;
  reply_to_message_id = item.reply_to_message_id;
  author_telegram_id = item.author_telegram_id;
  author_display_name = item.author_display_name;
  telegram_created_at = created_at;
  original_text = text;
  translated_text = result.translated_text;
  source_language = result.source_language;
  translation_status = result.status;
  is_target = item.is_target;
}

-- The loop over `enumerate(zip(…))`.
unfoldable pub chain_messages :
    NewIds
    → ℕ
    → List (ReplyChainItem × TranslationResult)
    → Result Exception (List QuestionChainMessage)
chain_messages ids position [] = ok []
chain_messages ids position ((item, result) ∷ pairs) =
    let rest = chain_messages ids (suc position) pairs in
    elim item.text [
      | none ↦ err persistence_error
      | some text ↦ elim item.telegram_created_at [
        | none ↦ err persistence_error
        | some at ↦ rest >>= λ rows. ok (chain_message ids position item result at text ∷ rows)
      ]
    ]

abbrev pub notification_of : Timestamp → NewIds → TelegramId → BotNotification
notification_of now ids operator = record {
  id = ids.notification_id;
  question_id = ids.question_id;
  operator_telegram_user_id = operator;
  bot_chat_id = operator;
  bot_message_id = none;
  status = DeliveryStatus.pending;
  attempt_count = 0;
  next_attempt_at = now;
  sent_at = none;
  last_error = none;
  created_at = now;
  updated_at = now;
}

abbrev pub awaits_processing : ProcessingJobStatus → Bool
awaits_processing ProcessingJobStatus.awaiting_relevant_processing = true
awaits_processing _ = false

-- `len(target_items) == 1 and target_items[0].telegram_message_id == message_id`
abbrev pub identifies : TelegramId → List ReplyChainItem → Bool
identifies message_id (item ∷ []) = item.telegram_message_id == message_id
identifies message_id _ = false

abbrev pub available : List ReplyChainItem → List ReplyChainItem
available items = select_where (λ item. not item.is_unavailable) items

abbrev pub question_row : ProcessingJob → Database → Option DetectedQuestion
question_row job db =
    find_where (is_question_of job.telegram_chat_id job.telegram_message_id) db.detected_questions

abbrev pub relevant_run : ProcessingJob → Database → Option ClassificationRun
relevant_run job db =
    first_where later_stage (is_relevant_run job.telegram_chat_id job.telegram_message_id)
      db.classification_runs

-- The tables with the new rows, and without the job.
abbrev pub with_question :
    PersistenceService
    → Timestamp
    → NewIds
    → ProcessingJob
    → DetectedQuestion
    → List QuestionChainMessage
    → Database
    → Database
with_question service now ids job question rows db = Queue.complete job.id (record db {
  detected_questions = db.detected_questions ++ question ∷ [];
  question_chain_messages = db.question_chain_messages ++ rows;
  bot_notifications =
      db.bot_notifications ++ notification_of now ids service.operator_telegram_user_id ∷ [];
})

-- The part of `persist` for a message without a question.
unfoldable pub store_question :
    PersistenceService
    → Timestamp
    → NewIds
    → ProcessingJob
    → ReplyChain
    → ClassificationRun
    → Database
    → Result Exception (Uuid × Database)
store_question service now ids job chain classification db = do
  guard (identifies job.telegram_message_id (select_where (λ item. item.is_target) chain.items))
      persistence_error
  pairs ← translate_items service (available chain.items)
  target ← translation_of_target pairs
  rows ← chain_messages ids 0 pairs
  ok (
    ids.question_id,
    with_question service now ids job
        (question_of now ids.question_id job chain classification target) rows db,
  )

unfoldable pub persist :
    PersistenceService
    → Timestamp
    → NewIds
    → ProcessingJob
    → ReplyChain
    → Database
    → Result Exception (Uuid × Database)
unfolding store_question
persist service now ids job chain db = do
  guard (awaits_processing job.status) persistence_error
  guard (chain.chat_id == job.telegram_chat_id) persistence_error
  elim (question_row job db) [
    | some existing ↦ ok (existing.id, Queue.complete job.id db)
    | none ↦ elim (relevant_run job db) [
      | none ↦ err persistence_error
      | some classification ↦ store_question service now ids job chain classification db
    ]
  ]
