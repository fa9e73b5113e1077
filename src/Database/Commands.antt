-- ===== src/Database/Commands.antt =====
-- app/database/repositories/outbound_commands.py: the outbound command rows, and what sends and
-- edits share: claiming, requeueing and the recovery of stale claims.
pub mod Claim
pub mod Recovery
use telegram_lead_assistent.Prelude.{
  ℕ, ◌+◌, ◌==◌, ltb, leb, if◌then◌else◌, Bool, true, false, not, ◌&&◌, ◌||◌, Option, none, some,
  List, [], ◌∷◌, ◌++◌, map, String, str_eq, Result, ok, err, ◌>>=◌, ◌>>◌, guard, is_some, row_by,
  put_row, first_where, any_where, select_where, update_where,
}
use telegram_lead_assistent.Domain.{
  Exception, integrity_error, confirmation_unavailable, outbound_retry_unavailable,
  MonitoredChatStatus, QuestionStatus, OutboundCommandStatus, CommandType, is_send, is_edit,
  send_failed,
}
use telegram_lead_assistent.Database.Models.{
  Uuid, TelegramId, Timestamp, MonitoredChat, DetectedQuestion, IdempotencyKey, OutboundCommand,
  Database,
}

pub record ConfirmedCommand : Type 0 where
  pub command_id : Uuid
  pub reply_version : ℕ
  pub text : String
  pub created : Bool

unfoldable pub command_by_id : Uuid → Database → Option OutboundCommand
command_by_id id db = row_by (λ command. command.id) id db.outbound_commands

unfoldable pub save_command : OutboundCommand → Database → Database
save_command command db = record db {
  outbound_commands = put_row (λ row. row.id) command db.outbound_commands;
}

abbrev pub is_send_key : CommandType → CommandType → Bool
is_send_key a b = (is_send a && is_send b) || (is_edit a && is_edit b)

abbrev pub same_key : IdempotencyKey → IdempotencyKey → Bool
same_key a b =
    a.key_question_id == b.key_question_id
    && (is_send_key a.key_command_type b.key_command_type && a.key_version == b.key_version)

-- An insert into `outbound_commands`, whose idempotency keys are unique.
unfoldable pub add_command : OutboundCommand → Database → Result Exception Database
add_command command db =
    if any_where (λ row. same_key command.idempotency_key row.idempotency_key) db.outbound_commands
    then err integrity_error
    else ok (record db { outbound_commands = db.outbound_commands ++ command ∷ [] })

abbrev pub is_enabled : MonitoredChatStatus → Bool
is_enabled MonitoredChatStatus.disabled = false
is_enabled _ = true

-- `request_chat_verification`
unfoldable pub request_chat_verification : Timestamp → TelegramId → Database → Bool × Database
request_chat_verification now telegram_chat_id db =
    let concerned : MonitoredChat → Bool =
      λ chat. chat.telegram_chat_id == telegram_chat_id && is_enabled chat.status in
    (
      any_where concerned db.monitored_chats,
      record db {
        monitored_chats =
            update_where concerned
              (λ chat. record chat { next_verification_at = now; updated_at = now })
              db.monitored_chats;
      },
    )

abbrev pub is_pending : OutboundCommandStatus → Bool
is_pending OutboundCommandStatus.pending = true
is_pending _ = false

abbrev pub is_processing : OutboundCommandStatus → Bool
is_processing OutboundCommandStatus.processing = true
is_processing _ = false

abbrev pub is_failed : OutboundCommandStatus → Bool
is_failed OutboundCommandStatus.failed = true
is_failed _ = false

abbrev pub is_succeeded : OutboundCommandStatus → Bool
is_succeeded OutboundCommandStatus.succeeded = true
is_succeeded _ = false

abbrev locked_before : Timestamp → Option Timestamp → Bool
locked_before limit none = false
locked_before limit (some at) = ltb at limit

abbrev pub is_stale : Timestamp → OutboundCommand → Bool
is_stale stale_before command =
    is_processing command.status && locked_before stale_before command.locked_at

abbrev pub to_review : OutboundCommand → OutboundCommand
to_review command = record command {
  status = OutboundCommandStatus.needs_review;
  locked_at = none;
  locked_by = none;
  last_error_code = some "STALE_LOCK_RECOVERED";
  last_error_message = some "STALE_LOCK_RECOVERED";
}

-- `recover_stale`: the questions of the recovered sends are failed with them.
unfoldable pub recover_stale : Timestamp → Timestamp → Database → List Uuid × Database
recover_stale now stale_before db =
    let recovered = select_where (is_stale stale_before) db.outbound_commands in
    let concerned : DetectedQuestion → Bool = λ question.
      any_where (λ c. is_send c.command_type && c.question_id == question.id) recovered in
    (
      map (λ c. c.id) recovered,
      record db {
        outbound_commands = update_where (is_stale stale_before) to_review db.outbound_commands;
        detected_questions =
            update_where concerned (λ q. record q { status = send_failed; updated_at = now })
              db.detected_questions;
      },
    )

abbrev is_text : String → Option String → Bool
is_text t none = false
is_text t (some s) = str_eq s t

-- `_manual_retry_allowed`
abbrev pub manual_retry_allowed : OutboundCommand → Bool
manual_retry_allowed command =
    is_failed command.status
    && (is_edit command.command_type
        && (is_some command.sent_message_id && is_text "UNKNOWN_ERROR" command.last_error_code))

-- The command of the identifier, if it may be retried, is pending again.
pub retry_found : Timestamp → Option OutboundCommand → Database → Result Exception Database
retry_found now none db = err outbound_retry_unavailable
retry_found now (some command) db = do
  guard (manual_retry_allowed command) outbound_retry_unavailable
  ok (
      save_command
        (record command {
          status = OutboundCommandStatus.pending;
          next_attempt_at = now;
          locked_at = none;
          locked_by = none;
        })
        db)

unfoldable pub retry_failed : Timestamp → Uuid → Database → Result Exception Database
unfolding retry_found
retry_failed now command_id db = retry_found now (command_by_id command_id db) db

-- `ORDER BY next_attempt_at, created_at`
abbrev pub due_before : OutboundCommand → OutboundCommand → Bool
due_before a b =
    ltb a.next_attempt_at b.next_attempt_at
    || (a.next_attempt_at == b.next_attempt_at && ltb a.created_at b.created_at)

abbrev pub is_due : (CommandType → Bool) → Timestamp → (Uuid → Bool) → OutboundCommand → Bool
is_due of_type now held command =
    of_type command.command_type
    && (is_pending command.status && (leb command.next_attempt_at now && not (held command.id)))

abbrev pub claimed : Timestamp → String → OutboundCommand → OutboundCommand
claimed now worker_id command = record command {
  status = OutboundCommandStatus.processing;
  attempt_count = command.attempt_count + 1;
  locked_at = some now;
  locked_by = some worker_id;
}

pub claim :
    (CommandType → Bool)
    → Timestamp
    → (Uuid → Bool)
    → String
    → Database
    → Option OutboundCommand × Database
claim of_type now held worker_id db =
    elim (first_where due_before (is_due of_type now held) db.outbound_commands) [
      | none ↦ (none, db)
      | some command ↦
          let command' = claimed now worker_id command in (some command', save_command command' db)
    ]

unfoldable pub claim_send :
    Timestamp → (Uuid → Bool) → String → Database → Option OutboundCommand × Database
unfolding claim
claim_send = claim is_send

unfoldable pub claim_edit :
    Timestamp → (Uuid → Bool) → String → Database → Option OutboundCommand × Database
unfolding claim
claim_edit = claim is_edit
