-- ===== src/Listener/Events/Ingestion.antt =====
-- app/listener/events/ingestion.py: the short transaction that admits a message, and the handler of the
-- events. `now` and `clock` are the clocks of the database and of the application.
pub mod Admission
use telegram_lead_assistent.Prelude.{
  ℕ, Bool, true, false, not, ◌||◌, if◌then◌else◌, Option, none, some, List, String, Result, ok, err,
  ◌>>=◌, is_none,
}
use telegram_lead_assistent.Domain.{Exception}
use telegram_lead_assistent.Database.Models.{Uuid, TelegramId, Timestamp, Timedelta, Database}
use telegram_lead_assistent.Database.Queue.{NewJob, enqueue}
use telegram_lead_assistent.Database.Fingerprints.{register_fingerprint}
use telegram_lead_assistent.Database.Chats.{get_active_id_by_telegram_chat_id}
use telegram_lead_assistent.Listener.ActiveChats.{ActiveChatAllowList, contains}
use telegram_lead_assistent.Listener.Events.Incoming.{
  IncomingMessage, TelethonMessageEvent, extract_topic_id, map_telethon_event,
}
use telegram_lead_assistent.Listener.Events.Characters.{Unicode, codes}
use telegram_lead_assistent.Listener.Events.Fingerprint.{message_fingerprint}
use telegram_lead_assistent.Listener.Events.Prefilter.{prefilter_message}

pub data PersistOutcome : Type 0 where
  enqueued duplicate_suppressed inactive_chat : PersistOutcome

-- What the listener is built with.
pub record Ingestion : Type 0 where
  pub unicode : Unicode
  pub sha256 : List ℕ → String
  pub dedup_window : Timedelta

-- The clocks and the fresh identifier of one transaction, and the rows that other transactions delete
-- in the meantime.
pub record Instant : Type 0 where
  pub now : Timestamp
  pub clock : Timestamp
  pub fresh : Uuid
  pub gone : Uuid → Bool

abbrev pub job_of : Uuid → String → IncomingMessage → NewJob
job_of monitored_chat_id text message = record {
  monitored_chat_id = monitored_chat_id;
  telegram_chat_id = message.telegram_chat_id;
  telegram_message_id = message.telegram_message_id;
  message_text = text;
  telegram_created_at = message.telegram_created_at;
  topic_id = message.topic_id;
  sender_telegram_id = message.sender_telegram_id;
  sender_display_name = message.sender_display_name;
}

abbrev pub register : Ingestion → Instant → String → IncomingMessage → Database → Bool × Database
register s at text message db =
    register_fingerprint at.now at.clock message.telegram_chat_id
      (message_fingerprint s.unicode s.sha256 (codes text)) s.dedup_window db

-- The transaction, once the chat is known to be active.
unfoldable pub admit_registered :
    Ingestion → Instant → NewJob → Bool × Database → Result Exception (PersistOutcome × Database)
admit_registered s at job (false, db) = ok (duplicate_suppressed, db)
admit_registered s at job (true, db) =
    enqueue at.now at.fresh at.gone job db >>= λ done. ok (enqueued, done.1)

unfoldable pub admit :
    Ingestion
    → Instant
    → String
    → IncomingMessage
    → Uuid
    → Database
    → Result Exception (PersistOutcome × Database)
unfolding admit_registered
admit s at text message monitored_chat_id db =
    admit_registered s at (job_of monitored_chat_id text message) (register s at text message db)

-- The answer to whether the chat is active.
unfoldable pub admit_active :
    Ingestion
    → Instant
    → String
    → IncomingMessage
    → Option Uuid
    → Database
    → Result Exception (PersistOutcome × Database)
unfolding admit
admit_active s at text message none db = ok (inactive_chat, db)
admit_active s at text message (some monitored_chat_id) db =
    admit s at text message monitored_chat_id db

unfoldable pub persist_text :
    Ingestion
    → Instant
    → Option String
    → IncomingMessage
    → Database
    → Result Exception (PersistOutcome × Database)
unfolding admit_active
persist_text s at none message db = ok (inactive_chat, db)
persist_text s at (some text) message db =
    admit_active s at text message (get_active_id_by_telegram_chat_id message.telegram_chat_id db)
      db

-- `persist` of `database_message_persister`
unfoldable pub persist :
    Ingestion → Instant → IncomingMessage → Database → Result Exception (PersistOutcome × Database)
unfolding persist_text
persist s at message db = persist_text s at message.text message db

-- The `try` of the handler: what was written is dropped when the transaction raises.
abbrev pub or_unchanged : Database → Result Exception (PersistOutcome × Database) → Database
or_unchanged db (ok (outcome, db')) = db'
or_unchanged db (err e) = db

-- The handler after the mapping.
unfoldable pub ingest_message : Ingestion → Instant → IncomingMessage → Database → Database
unfolding persist
ingest_message s at message db =
    if not (prefilter_message s.unicode message).should_classify || is_none message.text
    then db
    else or_unchanged db (persist s at message db)

-- The handler, by the chat of the event.
unfoldable pub ingest_in :
    Ingestion
    → Instant
    → ActiveChatAllowList
    → Option TelegramId
    → TelethonMessageEvent
    → Database
    → Result Exception Database
unfolding ingest_message
ingest_in s at allow_list none event db = ok db
ingest_in s at allow_list (some chat_id) event db = elim (contains chat_id allow_list) [
  | false ↦ ok db
  | true ↦ map_telethon_event event (extract_topic_id event.message) >>= λ message.
      ok (ingest_message s at message db)
]

-- `IngestionHandler.__call__`
unfoldable pub ingest :
    Ingestion
    → Instant
    → ActiveChatAllowList
    → TelethonMessageEvent
    → Database
    → Result Exception Database
unfolding ingest_in
ingest s at allow_list event db = ingest_in s at allow_list event.chat_id event db
