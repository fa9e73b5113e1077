-- ===== src/Database/Records.antt =====
-- app/database/models/entities.py: the rows that the classifier, the notifications, the operator's
-- sessions, the alerts and the translation manager keep. An amount of money is in millionths of a
-- dollar (`Numeric(12, 6)`) and a confidence in ten-thousandths (`Numeric(5, 4)`).
use telegram_lead_assistent.Prelude.{ℕ, Bool, Option, String}
use telegram_lead_assistent.Domain.{TranslationManagerAction, TranslationManagerJobStatus}
use telegram_lead_assistent.Database.Columns.{Uuid, TelegramId, Timestamp, Date, Json}

-- `result` of a classification run.
pub data RunResult : Type 0 where
  context_required relevant irrelevant : RunResult

pub record ClassificationRun : Type 0 where
  pub id : Uuid
  pub telegram_chat_id : TelegramId
  pub telegram_message_id : TelegramId
  pub stage : ℕ
  pub result : RunResult
  pub category : String
  pub confidence : Option ℕ
  pub reason_code : Option String
  pub context_used : Bool
  pub model : String
  pub input_tokens : ℕ
  pub output_tokens : ℕ
  pub estimated_cost_usd : ℕ
  pub queued_at : Timestamp
  pub created_at : Timestamp

pub record ApiUsageDaily : Type 0 where
  pub usage_date : Date
  pub model : String
  pub request_count : ℕ
  pub input_tokens : ℕ
  pub output_tokens : ℕ
  pub estimated_cost_usd : ℕ

-- `TranslationStatus` of app/translation/client.py, which a column keeps by its value.
pub data TranslationStatus : Type 0 where
  translated bypassed failed disabled : TranslationStatus

pub record QuestionChainMessage : Type 0 where
  pub id : Uuid
  pub question_id : Uuid
  pub position : ℕ
  pub telegram_message_id : TelegramId
  pub reply_to_message_id : Option TelegramId
  pub author_telegram_id : Option TelegramId
  pub author_display_name : Option String
  pub telegram_created_at : Timestamp
  pub original_text : String
  pub translated_text : Option String
  pub source_language : Option String
  pub translation_status : TranslationStatus
  pub is_target : Bool

-- `status` of a notification or an alert.
pub data DeliveryStatus : Type 0 where
  pending sending retry sent failed : DeliveryStatus

pub record BotNotification : Type 0 where
  pub id : Uuid
  pub question_id : Uuid
  pub operator_telegram_user_id : TelegramId
  pub bot_chat_id : TelegramId
  pub bot_message_id : Option TelegramId
  pub status : DeliveryStatus
  pub attempt_count : ℕ
  pub next_attempt_at : Timestamp
  pub sent_at : Option Timestamp
  pub last_error : Option String
  pub created_at : Timestamp
  pub updated_at : Timestamp

pub record OperatorSession : Type 0 where
  pub operator_telegram_user_id : TelegramId
  pub state : Option String
  pub data_of_state : Json
  pub active_question_id : Option Uuid
  pub updated_at : Timestamp

pub data InstallationStatus : Type 0 where
  not_installed installing installed failed : InstallationStatus

pub record TranslationLanguage : Type 0 where
  pub language_code : String
  pub display_name : String
  pub is_required : Bool
  pub is_enabled : Bool
  pub installation_status : InstallationStatus
  pub installed_at : Option Timestamp
  pub updated_at : Timestamp

pub record TranslationManagerJob : Type 0 where
  pub id : Uuid
  pub action : TranslationManagerAction
  pub language_code : Option String
  pub status : TranslationManagerJobStatus
  pub result_code : Option String
  pub created_at : Timestamp
  pub completed_at : Option Timestamp

pub record AlertCondition : Type 0 where
  pub condition_key : String
  pub failing_since : Timestamp
  pub updated_at : Timestamp

-- The parts of a `deduplication_key`: `budget:{month}:{threshold}` or `failure:{condition}:{episode}`.
pub data AlertKey : Type 0 where
  budget : (month_key : String) (threshold : ℕ) → AlertKey
  failure : (condition_key : String) (episode : Timestamp) → AlertKey

pub record OperationalAlert : Type 0 where
  pub id : Uuid
  pub deduplication_key : AlertKey
  pub alert_type : String
  pub details : Json
  pub operator_telegram_user_id : TelegramId
  pub status : DeliveryStatus
  pub attempt_count : ℕ
  pub next_attempt_at : Timestamp
  pub sent_at : Option Timestamp
  pub last_error : Option String
  pub created_at : Timestamp
  pub updated_at : Timestamp
