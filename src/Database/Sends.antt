-- ===== src/Database/Sends.antt =====
-- app/database/repositories/outbound_commands.py: the life of a send command, from the confirmation
-- of a preview to its outcome.
pub mod Confirmation
pub mod Requirements
use telegram_lead_assistent.Prelude.{
  ℕ, ◌+◌, ◌==◌, if◌then◌else◌, Bool, true, false, ◌&&◌, Option, none, some, List, String, Result,
  ok, err, ◌>>=◌, ◌>>◌, guard, find_where, update_where,
}
use telegram_lead_assistent.Domain.{
  Exception, confirmation_unavailable, OutboundCommandStatus, QuestionStatus, waiting_confirmation,
  send_requested, send_failed, CommandType, send_reply, is_send, ReplyAction, is_draft,
}
use telegram_lead_assistent.Database.Models.{
  Uuid, TelegramId, Timestamp, seconds, DetectedQuestion, ReplyVersion, OutboundCommand, Database,
}
use telegram_lead_assistent.Database.Questions.{
  question_by_id, save_question, latest_version, latest_version_number, add_version,
}
use telegram_lead_assistent.Database.Commands.{ConfirmedCommand, save_command, add_command}
use telegram_lead_assistent.Database.Drafts.{is_waiting_confirmation}

abbrev pub is_send_requested : QuestionStatus → Bool
is_send_requested send_requested = true
is_send_requested _ = false

abbrev pub is_send_of : Uuid → OutboundCommand → Bool
is_send_of question_id command = command.question_id == question_id && is_send command.command_type

abbrev pub confirmation_of : OutboundCommand → Bool → ConfirmedCommand
confirmation_of command created = record {
  command_id = command.id;
  reply_version = command.reply_version;
  text = command.text;
  created = created;
}

-- The version and the command that a confirmation adds, with the column defaults.
abbrev pub sent_version : Uuid → Timestamp → Uuid → ℕ → String → ReplyVersion
sent_version fresh now question_id number text = record {
  id = fresh;
  question_id = question_id;
  version_number = number;
  text = text;
  action = ReplyAction.sent;
  created_at = now;
}

abbrev pub send_command : Uuid → Timestamp → DetectedQuestion → Uuid → ℕ → String → OutboundCommand
send_command fresh now question question_id version text = record {
  id = fresh;
  question_id = question_id;
  command_type = send_reply;
  reply_version = version;
  idempotency_key = record {
    key_question_id = question_id;
    key_command_type = send_reply;
    key_version = version;
  };
  telegram_chat_id = question.telegram_chat_id;
  source_message_id = question.telegram_message_id;
  topic_id = question.topic_id;
  sent_message_id = none;
  text = text;
  status = OutboundCommandStatus.pending;
  attempt_count = 0;
  next_attempt_at = now;
  locked_at = none;
  locked_by = none;
  last_error_code = none;
  last_error_message = none;
  created_at = now;
  completed_at = none;
}

-- A repeated confirmation.
confirm_again :
    OutboundCommand → DetectedQuestion → Database → Result Exception (ConfirmedCommand × Database)
confirm_again existing question db = do
  guard (is_send_requested question.status) confirmation_unavailable
  ok (confirmation_of existing false, db)

-- The preview that a confirmation needs: the last version, if it is a draft.
unfoldable pub preview_of : Uuid → Database → Result Exception ReplyVersion
preview_of question_id db = elim (latest_version question_id db) [
  | none ↦ err confirmation_unavailable
  | some preview ↦ do guard (is_draft preview.action) confirmation_unavailable; ok preview
]

confirm_first :
    Uuid
    → Uuid
    → Timestamp
    → Uuid
    → DetectedQuestion
    → Database
    → Result Exception (ConfirmedCommand × Database)
confirm_first version_id command_id now question_id question db = do
  guard (is_waiting_confirmation question.status) confirmation_unavailable
  preview ← preview_of question_id db
  let final_version = latest_version_number question_id db + 1
  db' ← add_version (sent_version version_id now question_id final_version preview.text) db
  let command = send_command command_id now question question_id final_version preview.text
  db'' ← add_command command db'
  ok (
    confirmation_of command true,
    save_question (record question { status = send_requested }) db'',
  )

pub confirm_locked :
    Uuid
    → Uuid
    → Timestamp
    → Uuid
    → DetectedQuestion
    → Option OutboundCommand
    → Database
    → Result Exception (ConfirmedCommand × Database)
confirm_locked version_id command_id now question_id question (some existing) db =
    confirm_again existing question db
confirm_locked version_id command_id now question_id question none db =
    confirm_first version_id command_id now question_id question db

-- `version_id`, `command_id` and `now` are the column defaults of the new rows.
unfoldable pub confirm_send :
    Uuid → Uuid → Timestamp → Uuid → Database → Result Exception (ConfirmedCommand × Database)
unfolding confirm_again confirm_first confirm_locked
confirm_send version_id command_id now question_id db = elim (question_by_id question_id db) [
  | none ↦ err confirmation_unavailable
  | some question ↦
      confirm_locked version_id command_id now question_id question
        (find_where (is_send_of question_id) db.outbound_commands) db
]

unfoldable pub complete_send :
    Timestamp → OutboundCommand → TelegramId → Database → Result Exception Database
complete_send now command sent_message_id db = elim (question_by_id command.question_id db) [
  | none ↦ err confirmation_unavailable
  | some question ↦ do
    guard (is_send_requested question.status) confirmation_unavailable
    ok (
        save_question (record question { status = QuestionStatus.sent; updated_at = now })
          (save_command
            (record command {
              sent_message_id = some sent_message_id;
              status = OutboundCommandStatus.succeeded;
              completed_at = some now;
              locked_at = none;
              locked_by = none;
            })
            db))
]

unfoldable pub retry_send : Timestamp → OutboundCommand → String → ℕ → Database → Database
retry_send now command error_code delay_seconds db =
    save_command
      (record command {
        status = OutboundCommandStatus.pending;
        next_attempt_at = now + seconds delay_seconds;
        last_error_code = some error_code;
        last_error_message = some error_code;
        locked_at = none;
        locked_by = none;
      })
      db

-- The command's question is the row of its foreign key.
unfoldable pub fail_question : Timestamp → Uuid → Database → Database
fail_question now question_id db = record db {
  detected_questions =
      update_where (λ q. q.id == question_id)
        (λ q. record q { status = send_failed; updated_at = now }) db.detected_questions;
}

unfoldable pub fail_send : Timestamp → OutboundCommand → String → Bool → Database → Database
unfolding fail_question
fail_send now command error_code needs_review db = fail_question now command.question_id (
    save_command
      (record command {
        status =
            if needs_review
            then OutboundCommandStatus.needs_review
            else OutboundCommandStatus.failed;
        last_error_code = some error_code;
        last_error_message = some error_code;
        locked_at = none;
        locked_by = none;
      })
      db)
