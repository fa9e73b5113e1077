-- ===== src/Database/Edits.antt =====
-- app/database/repositories/outbound_commands.py: the editing of a reply that was sent.
pub mod Numbering
pub mod Collision
use telegram_lead_assistent.Prelude.{
  ℕ, ◌+◌, ◌==◌, ltb, if◌then◌else◌, Bool, true, false, ◌&&◌, Option, none, some, List, String,
  Result, ok, err, ◌>>=◌, ◌>>◌, guard, is_some, find_where, first_where,
}
use telegram_lead_assistent.Domain.{
  Exception, confirmation_unavailable, OutboundCommandStatus, QuestionStatus, CommandType,
  edit_reply, is_send, ReplyAction, draft, edited, is_draft,
}
use telegram_lead_assistent.Database.Models.{
  Uuid, TelegramId, Timestamp, DetectedQuestion, ReplyVersion, IdempotencyKey, OutboundCommand,
  Database,
}
use telegram_lead_assistent.Database.Questions.{
  question_by_id, of_question, newer, latest_version, latest_version_number, add_version,
}
use telegram_lead_assistent.Database.Commands.{
  ConfirmedCommand, is_succeeded, same_key, save_command, add_command,
}
use telegram_lead_assistent.Database.Drafts.{draft_version}
use telegram_lead_assistent.Database.Sends.{preview_of, confirmation_of}

pub record SentEditPreview : Type 0 where
  pub question_id : Uuid
  pub old_text : String
  pub new_text : String

abbrev pub is_sent : QuestionStatus → Bool
is_sent QuestionStatus.sent = true
is_sent _ = false

abbrev pub is_final : ReplyAction → Bool
is_final ReplyAction.sent = true
is_final edited = true
is_final draft = false

-- `ORDER BY completed_at DESC`, which puts `NULL` first.
abbrev pub completed_later : OutboundCommand → OutboundCommand → Bool
completed_later a b = elim a.completed_at [
  | none ↦ is_some b.completed_at
  | some at ↦ elim b.completed_at [ none ↦ false | some bt ↦ ltb bt at ]
]

abbrev pub is_stored_send : Uuid → OutboundCommand → Bool
is_stored_send question_id command =
    command.question_id == question_id
    && (is_send command.command_type
        && (is_succeeded command.status && is_some command.sent_message_id))

-- `_stored_sent_message_id`
unfoldable pub stored_sent_message_id : Uuid → Database → Option TelegramId
stored_sent_message_id question_id db =
    elim (first_where completed_later (is_stored_send question_id) db.outbound_commands) [
      | none ↦ none
      | some command ↦ command.sent_message_id
    ]

-- `_latest_final`
unfoldable pub latest_final : Uuid → Database → Option ReplyVersion
latest_final question_id db =
    first_where newer (λ version. of_question question_id version && is_final version.action)
      db.reply_versions

pub or_unavailable {ℓ} : {A : Type ℓ} → Option A → Result Exception A
or_unavailable none = err confirmation_unavailable
or_unavailable (some a) = ok a

-- The locked question, which must have been sent.
unfoldable pub sent_question : Uuid → Database → Result Exception DetectedQuestion
unfolding or_unavailable
sent_question question_id db = do
  question ← or_unavailable (question_by_id question_id db)
  guard (is_sent question.status) confirmation_unavailable
  ok question

unfoldable pub prepare_edit :
    Uuid → Timestamp → Uuid → String → Database → Result Exception (SentEditPreview × Database)
unfolding or_unavailable
prepare_edit fresh now question_id text db = do
  question ← sent_question question_id db
  current ← or_unavailable (latest_final question_id db)
  message_id ← or_unavailable (stored_sent_message_id question_id db)
  db' ←
      add_version
        (draft_version fresh now question_id (latest_version_number question_id db + 1) text) db
  ok (record { question_id = question_id; old_text = current.text; new_text = text }, db')

abbrev pub edit_key : Uuid → ℕ → IdempotencyKey
edit_key question_id version = record {
  key_question_id = question_id;
  key_command_type = edit_reply;
  key_version = version;
}

abbrev pub edit_command :
    Uuid → Timestamp → DetectedQuestion → Uuid → ReplyVersion → TelegramId → OutboundCommand
edit_command fresh now question question_id preview message_id = record {
  id = fresh;
  question_id = question_id;
  command_type = edit_reply;
  reply_version = preview.version_number + 1;
  idempotency_key = edit_key question_id preview.version_number;
  telegram_chat_id = question.telegram_chat_id;
  source_message_id = question.telegram_message_id;
  topic_id = question.topic_id;
  sent_message_id = some message_id;
  text = preview.text;
  status = OutboundCommandStatus.pending;
  attempt_count = 0;
  next_attempt_at = now;
  locked_at = none;
  locked_by = none;
  last_error_code = none;
  last_error_message = none;
  created_at = now;
  completed_at = none;
}

pub confirm_keyed :
    Uuid
    → Timestamp
    → Uuid
    → DetectedQuestion
    → ReplyVersion
    → Option OutboundCommand
    → Database
    → Result Exception (ConfirmedCommand × Database)
unfolding or_unavailable
confirm_keyed fresh now question_id question preview (some existing) db =
    ok (confirmation_of existing false, db)
confirm_keyed fresh now question_id question preview none db = do
  message_id ← or_unavailable (stored_sent_message_id question_id db)
  let command = edit_command fresh now question question_id preview message_id
  db' ← add_command command db
  ok (confirmation_of command true, db')

unfoldable pub confirm_edit :
    Uuid → Timestamp → Uuid → Database → Result Exception (ConfirmedCommand × Database)
unfolding confirm_keyed
confirm_edit fresh now question_id db = do
  question ← sent_question question_id db
  preview ← preview_of question_id db
  confirm_keyed fresh now question_id question preview
      (find_where (λ c. same_key (edit_key question_id preview.version_number) c.idempotency_key)
        db.outbound_commands)
      db

-- The final version that a completed edit appends.
abbrev pub edited_version : Uuid → Timestamp → OutboundCommand → ReplyVersion
edited_version fresh now command = record {
  id = fresh;
  question_id = command.question_id;
  version_number = command.reply_version;
  text = command.text;
  action = edited;
  created_at = now;
}

abbrev pub completed : Timestamp → OutboundCommand → OutboundCommand
completed now command = record command {
  status = OutboundCommandStatus.succeeded;
  completed_at = some now;
  locked_at = none;
  locked_by = none;
}

unfoldable pub complete_edit :
    Uuid → Timestamp → OutboundCommand → Database → Result Exception Database
complete_edit fresh now command db = do
  question ← sent_question command.question_id db
  db' ← add_version (edited_version fresh now command) db
  ok (save_command (completed now command) db')

unfoldable pub fail_edit : OutboundCommand → String → Database → Database
fail_edit command error_code db =
    save_command
      (record command {
        status = OutboundCommandStatus.failed;
        last_error_code = some error_code;
        last_error_message = some error_code;
        locked_at = none;
        locked_by = none;
      })
      db
