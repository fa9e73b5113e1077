-- ===== src/Database/Models.antt =====
-- app/database/models/entities.py: the rows of the chats, the queue and the replies, and the database
-- as the tables that the model covers.
use telegram_lead_assistent.Prelude.{ℕ, List, [], Option, String}
use telegram_lead_assistent.Domain.{
  MonitoredChatStatus, MonitoredChatType, ProcessingJobStatus, QuestionStatus,
  OutboundCommandStatus, ReplyAction, CommandType,
}
use telegram_lead_assistent.Database.Records.{
  ClassificationRun, ApiUsageDaily, QuestionChainMessage, BotNotification, OperatorSession,
  TranslationLanguage, TranslationManagerJob, AlertCondition, OperationalAlert,
}
pub use telegram_lead_assistent.Database.Columns.{
  Uuid, TelegramId, Timestamp, Timedelta, seconds, minutes, Date, same_date, Json, JsonItems,
  JsonFields,
}

pub record MonitoredChat : Type 0 where
  pub id : Uuid
  pub telegram_chat_id : TelegramId
  pub title : String
  pub username : Option String
  pub chat_type : MonitoredChatType
  pub status : MonitoredChatStatus
  pub added_by_telegram_user_id : TelegramId
  pub added_at : Timestamp
  pub last_verified_at : Option Timestamp
  pub next_verification_at : Timestamp
  pub consecutive_access_failures : ℕ
  pub last_message_received_at : Option Timestamp
  pub access_lost_at : Option Timestamp
  pub last_error_code : Option String
  pub last_error_message : Option String
  pub updated_at : Timestamp

pub record ProcessingJob : Type 0 where
  pub id : Uuid
  pub monitored_chat_id : Uuid
  pub telegram_chat_id : TelegramId
  pub telegram_message_id : TelegramId
  pub topic_id : Option TelegramId
  pub sender_telegram_id : Option TelegramId
  pub sender_display_name : Option String
  pub message_text : String
  pub telegram_created_at : Timestamp
  pub status : ProcessingJobStatus
  pub attempt_count : ℕ
  pub next_attempt_at : Timestamp
  pub locked_at : Option Timestamp
  pub locked_by : Option String
  pub last_error_code : Option String
  pub last_error_message : Option String
  pub reply_chain_snapshot : Option Json
  pub created_at : Timestamp
  pub expires_at : Timestamp

pub record RecentMessageFingerprint : Type 0 where
  pub telegram_chat_id : TelegramId
  pub fingerprint : String
  pub last_seen_at : Timestamp

pub record DetectedQuestion : Type 0 where
  pub id : Uuid
  pub monitored_chat_id : Option Uuid
  pub telegram_chat_id : TelegramId
  pub telegram_message_id : TelegramId
  pub topic_id : Option TelegramId
  pub topic_title : Option String
  pub author_telegram_id : Option TelegramId
  pub author_display_name : Option String
  pub telegram_created_at : Timestamp
  pub original_text : String
  pub translated_text : Option String
  pub source_language : Option String
  pub category : String
  pub confidence : Option ℕ
  pub status : QuestionStatus
  pub detected_at : Timestamp
  pub expires_at : Timestamp
  pub updated_at : Timestamp

pub record ReplyVersion : Type 0 where
  pub id : Uuid
  pub question_id : Uuid
  pub version_number : ℕ
  pub text : String
  pub action : ReplyAction
  pub created_at : Timestamp

-- The unique text `f"{question_id}:{command_type}:{version}"`, by its three parts.
pub record IdempotencyKey : Type 0 where
  pub key_question_id : Uuid
  pub key_command_type : CommandType
  pub key_version : ℕ

pub record OutboundCommand : Type 0 where
  pub id : Uuid
  pub question_id : Uuid
  pub command_type : CommandType
  pub reply_version : ℕ
  pub idempotency_key : IdempotencyKey
  pub telegram_chat_id : TelegramId
  pub source_message_id : TelegramId
  pub topic_id : Option TelegramId
  pub sent_message_id : Option TelegramId
  pub text : String
  pub status : OutboundCommandStatus
  pub attempt_count : ℕ
  pub next_attempt_at : Timestamp
  pub locked_at : Option Timestamp
  pub locked_by : Option String
  pub last_error_code : Option String
  pub last_error_message : Option String
  pub created_at : Timestamp
  pub completed_at : Option Timestamp

pub record Database : Type 0 where
  pub monitored_chats : List MonitoredChat
  pub processing_jobs : List ProcessingJob
  pub recent_message_fingerprints : List RecentMessageFingerprint
  pub detected_questions : List DetectedQuestion
  pub reply_versions : List ReplyVersion
  pub outbound_commands : List OutboundCommand
  pub classification_runs : List ClassificationRun
  pub api_usage_daily : List ApiUsageDaily
  pub question_chain_messages : List QuestionChainMessage
  pub bot_notifications : List BotNotification
  pub operator_sessions : List OperatorSession
  pub translation_languages : List TranslationLanguage
  pub translation_manager_jobs : List TranslationManagerJob
  pub alert_conditions : List AlertCondition
  pub operational_alerts : List OperationalAlert

abbrev pub empty_database : Database
empty_database = record {
  monitored_chats = [];
  processing_jobs = [];
  recent_message_fingerprints = [];
  detected_questions = [];
  reply_versions = [];
  outbound_commands = [];
  classification_runs = [];
  api_usage_daily = [];
  question_chain_messages = [];
  bot_notifications = [];
  operator_sessions = [];
  translation_languages = [];
  translation_manager_jobs = [];
  alert_conditions = [];
  operational_alerts = [];
}
