-- ===== src/Tests/Fixtures.antt =====
-- The rows and the client of the examples.
use telegram_lead_assistent.Prelude.{
  ℕ, zero, suc, ◌+◌, true, false, Option, none, some, List, [], ◌∷◌, ok,
}
use telegram_lead_assistent.Domain.{
  MonitoredChatStatus, MonitoredChatType, QuestionStatus, OutboundCommandStatus,
  waiting_confirmation, send_requested,
}
use telegram_lead_assistent.Listener.Mtproto.{ChatVerificationOutcome, ChatVerificationResult}
use telegram_lead_assistent.Listener.Outbound.{MtprotoOutboundClient}
use telegram_lead_assistent.Listener.ReplyChain.{ReplyMessage, ReplyMessageSource}
use telegram_lead_assistent.Database.Models.{
  Uuid, TelegramId, MonitoredChat, DetectedQuestion, ReplyVersion, OutboundCommand, Database,
  empty_database,
}
use telegram_lead_assistent.Database.Queue.{NewJob, new_row}
use telegram_lead_assistent.Database.Drafts.{draft_version}
use telegram_lead_assistent.Database.Sends.{send_command, sent_version}

abbrev pub new_job : TelegramId → NewJob
new_job message_id = record {
  monitored_chat_id = 1;
  telegram_chat_id = 70;
  telegram_message_id = message_id;
  message_text = "Who rents out a flat?";
  telegram_created_at = 5;
  topic_id = none;
  sender_telegram_id = some 8;
  sender_display_name = some "Ann";
}

abbrev pub chat : MonitoredChatStatus → MonitoredChat
chat status = record {
  id = 1;
  telegram_chat_id = 70;
  title = "Flats";
  username = none;
  chat_type = MonitoredChatType.group;
  status = status;
  added_by_telegram_user_id = 9;
  added_at = 1;
  last_verified_at = none;
  next_verification_at = 1;
  consecutive_access_failures = 0;
  last_message_received_at = none;
  access_lost_at = none;
  last_error_code = none;
  last_error_message = none;
  updated_at = 1;
}

abbrev pub chats_db : Database
chats_db = record empty_database { monitored_chats = chat MonitoredChatStatus.active ∷ [] }

abbrev pub queue_db : Database
queue_db = record chats_db {
  processing_jobs = new_row 10 101 (new_job 1) ∷ (new_row 20 102 (new_job 2) ∷ []);
}

abbrev pub verification : ChatVerificationOutcome → ChatVerificationResult
verification outcome = record {
  outcome = outcome;
  is_supergroup = true;
  is_forum = false;
  error_code = none;
}

abbrev pub question : Uuid → QuestionStatus → DetectedQuestion
question id status = record {
  id = id;
  monitored_chat_id = some 1;
  telegram_chat_id = 70;
  telegram_message_id = 300 + id;
  topic_id = none;
  topic_title = none;
  author_telegram_id = some 8;
  author_display_name = some "Ann";
  telegram_created_at = 5;
  original_text = "Who rents out a flat?";
  translated_text = none;
  source_language = none;
  category = "housing";
  confidence = some 9000;
  status = status;
  detected_at = 6;
  expires_at = 900;
  updated_at = 6;
}

-- Question 5 waits for a draft, or for the confirmation of its draft.
abbrev pub waiting_db : QuestionStatus → List ReplyVersion → Database
waiting_db status versions = record empty_database {
  monitored_chats = chat MonitoredChatStatus.active ∷ [];
  detected_questions = question 5 status ∷ [];
  reply_versions = versions;
}

abbrev pub preview : ReplyVersion
preview = draft_version 31 50 5 1 "I do."

abbrev pub preview_db : Database
preview_db = waiting_db waiting_confirmation (preview ∷ [])

-- The sends of the questions 5 and 6 were confirmed.
abbrev pub send_of : Uuid → OutboundCommand
send_of id = send_command (40 + id) (100 + id) (question id send_requested) id 2 "I do."

abbrev pub send_db : Database
send_db = record empty_database {
  detected_questions = question 5 send_requested ∷ (question 6 send_requested ∷ []);
  outbound_commands = send_of 5 ∷ (send_of 6 ∷ []);
}

-- The reply to question 5 was sent as message 800, and a draft of an edit is stored.
abbrev pub sent_db : Database
sent_db = record empty_database {
  detected_questions = question 5 QuestionStatus.sent ∷ [];
  reply_versions =
      preview ∷ (sent_version 32 60 5 2 "I do." ∷ (draft_version 33 70 5 3 "I do, twice." ∷ []));
  outbound_commands =
      record (send_of 5) {
        status = OutboundCommandStatus.succeeded;
        sent_message_id = some 800;
        completed_at = some 65;
      }
      ∷ [];
}

-- A message of a chat that answers the one before it, if its identifier is positive.
abbrev pub parent_of : ℕ → Option ℕ
parent_of zero = none
parent_of (suc n) = some n

abbrev pub message : Option TelegramId → TelegramId → TelegramId → ReplyMessage
message topic_id chat_id id = record {
  telegram_chat_id = chat_id;
  telegram_message_id = id;
  reply_to_message_id = parent_of id;
  topic_id = topic_id;
  reply_to_top_message_id = none;
  author_telegram_id = none;
  author_display_name = none;
  telegram_created_at = 1;
  text = "So?";
}

-- A client for which everything succeeds.
abbrev pub client : MtprotoOutboundClient
client = record {
  verify_chat = λ chat_id. ok (verification ChatVerificationOutcome.active);
  get_reply_message = λ chat_id message_id. ok (some (message none chat_id message_id));
  send_reply = λ chat_id message_id text. ok 800;
  edit_message = λ chat_id message_id text. ok tt;
}

abbrev pub source : ReplyMessageSource
source = record {
  get_reply_message = λ chat_id id. some (message (some 3) chat_id id);
  get_forum_topic_title = λ chat_id topic_id. some "Rent";
}
