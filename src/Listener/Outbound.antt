-- ===== src/Listener/Outbound.antt =====
-- app/listener/outbound/__init__.py: the workers that send and edit confirmed replies. The MTProto
-- client is a parameter: what it answers in the iteration. A call that writes to Telegram is kept in
-- a trace, since it is not undone when the transaction is rolled back.
pub mod Sending
pub mod Settling
pub mod Stores
pub mod History
pub mod Final
pub mod Delivery
pub mod Editing
use telegram_lead_assistent.Prelude.{
  ℕ, zero, suc, ◌==◌, Bool, true, false, not, ◌&&◌, ◌||◌, if◌then◌else◌, Option, none, some, List,
  [], ◌∷◌, String, Result, ok, err, ◌>>=◌, ◌>>◌, guard, opt_eq,
}
use telegram_lead_assistent.Domain.{
  Exception, raised, outbound_validation, TelegramErrorCode, source_message_deleted,
  chat_write_forbidden, topic_closed, topic_deleted, flood_wait, unknown_error, TelegramFailureKind,
  permanent, temporary, ambiguous, TelegramOutboundError, code_value,
}
use telegram_lead_assistent.Listener.Mtproto.{ChatVerificationOutcome, ChatVerificationResult}
use telegram_lead_assistent.Listener.ReplyChain.{ReplyMessage}
use telegram_lead_assistent.Database.Models.{
  Uuid, TelegramId, Timestamp, DetectedQuestion, OutboundCommand, Database,
}
use telegram_lead_assistent.Database.Questions.{question_by_id}
use telegram_lead_assistent.Database.Commands.{request_chat_verification, claim_send, claim_edit}
use telegram_lead_assistent.Database.Sends.{is_send_requested, complete_send, retry_send, fail_send}
use telegram_lead_assistent.Database.Edits.{is_sent, complete_edit, fail_edit}

-- What a client call raises: the two exceptions that the workers catch, and any other.
pub data ClientError : Type 0 where
  outbound : TelegramOutboundError → ClientError
  verification_transient : ClientError
  other : Exception → ClientError

-- `MTProtoOutboundClient`
pub record MtprotoOutboundClient : Type 0 where
  pub verify_chat : TelegramId → Result ClientError ChatVerificationResult
  pub get_reply_message : TelegramId → TelegramId → Result ClientError (Option ReplyMessage)
  pub send_reply : TelegramId → TelegramId → String → Result ClientError TelegramId
  pub edit_message : TelegramId → TelegramId → String → Result ClientError (Unit {0})

-- A call of `send_reply` or `edit_message`, with the command that it is made for.
pub record ClientCall : Type 0 where
  pub command_id : Uuid
  pub chat_id : TelegramId
  pub message_id : TelegramId
  pub text : String

-- An iteration: the calls that wrote to Telegram, and what `run_once` returns with the database that
-- is committed, or the exception that rolls the transaction back.
pub record Run : Type 0 where
  pub calls : List ClientCall
  pub result : Result Exception (Bool × Database)

-- An exception that is not caught.
abbrev pub propagated : ClientError → Exception
propagated (outbound error) = raised "TelegramOutboundError" none true
propagated verification_transient = raised "ChatVerificationTransientError" none true
propagated (other error) = error

-- `retry_delays[attempt_count - 1]`, if `attempt_count <= len(retry_delays)`; index -1 is the last.
abbrev pub send_delay : ℕ → Option ℕ
send_delay zero = some 1800
send_delay (suc zero) = some 15
send_delay (suc (suc zero)) = some 60
send_delay (suc (suc (suc zero))) = some 300
send_delay (suc (suc (suc (suc zero)))) = some 1800
send_delay (suc (suc (suc (suc (suc n))))) = none

abbrev pub is_access_error : TelegramErrorCode → Bool
is_access_error TelegramErrorCode.access_lost = true
is_access_error chat_write_forbidden = true
is_access_error _ = false

abbrev pub is_flood_wait : TelegramErrorCode → Bool
is_flood_wait flood_wait = true
is_flood_wait _ = false

abbrev pub is_ambiguous : TelegramFailureKind → Bool
is_ambiguous ambiguous = true
is_ambiguous _ = false

-- `error.retry_after_seconds or 0`
abbrev pub or_zero : Option ℕ → ℕ
or_zero none = 0
or_zero (some n) = n

-- The delay of a temporary error, if it is tried again.
abbrev pub temporary_delay : TelegramOutboundError → ℕ → Option ℕ
temporary_delay error attempts =
    if is_flood_wait error.code
    then some (or_zero error.retry_after_seconds)
    else send_delay attempts

pub settle_error : Timestamp → OutboundCommand → TelegramOutboundError → Database → Database
settle_error now command error db = elim error.kind [
  | permanent ↦ fail_send now command (code_value error.code) false db
  | ambiguous ↦ fail_send now command (code_value error.code) true db
  | temporary ↦ elim (temporary_delay error command.attempt_count) [
    | some delay ↦ retry_send now command (code_value error.code) delay db
    | none ↦ fail_send now command (code_value error.code) true db
  ]
]

-- `_record_error`
pub record_error : Timestamp → OutboundCommand → TelegramOutboundError → Database → Database
unfolding settle_error
record_error now command error db = settle_error now command error (
    if is_access_error error.code
    then (request_chat_verification now command.telegram_chat_id db).1
    else db)

abbrev pub permanent_error : TelegramErrorCode → ClientError
permanent_error code =
    outbound (record { code = code; kind = permanent; retry_after_seconds = none })

abbrev pub has_destination : OutboundCommand → DetectedQuestion → Bool
has_destination command question =
    is_send_requested question.status
    && (question.telegram_chat_id == command.telegram_chat_id
        && (question.telegram_message_id == command.source_message_id
            && opt_eq question.topic_id command.topic_id))

abbrev pub is_target : OutboundCommand → ReplyMessage → Bool
is_target command target =
    target.telegram_chat_id == command.telegram_chat_id
    && (target.telegram_message_id == command.source_message_id
        && opt_eq target.topic_id command.topic_id)

pub check_access : ChatVerificationOutcome → Result ClientError (Unit {0})
check_access ChatVerificationOutcome.active = ok tt
check_access ChatVerificationOutcome.read_only = err (permanent_error chat_write_forbidden)
check_access _ = err (permanent_error TelegramErrorCode.access_lost)

pub check_target : OutboundCommand → Option ReplyMessage → Result ClientError (Unit {0})
check_target command none = err (permanent_error source_message_deleted)
check_target command (some target) = guard (is_target command target) (other outbound_validation)

-- `_validate`
unfoldable pub validate :
    MtprotoOutboundClient → OutboundCommand → DetectedQuestion → Result ClientError (Unit {0})
unfolding check_access check_target
validate client command question = do
  guard (has_destination command question) (other outbound_validation)
  access ← client.verify_chat command.telegram_chat_id
  check_access access.outcome
  target ← client.get_reply_message command.telegram_chat_id command.source_message_id
  check_target command target

abbrev pub send_call : OutboundCommand → ClientCall
send_call command = record {
  command_id = command.id;
  chat_id = command.telegram_chat_id;
  message_id = command.source_message_id;
  text = command.text;
}

-- The `except` clauses around `_validate`.
pub after_validation_error :
    Timestamp → OutboundCommand → ClientError → Database → Result Exception (Bool × Database)
after_validation_error now command (outbound error) db =
    ok (true, record_error now command error db)
after_validation_error now command verification_transient db = ok (
  true,
  record_error now command
      (record { code = unknown_error; kind = temporary; retry_after_seconds = none }) db,
)
after_validation_error now command (other error) db = err error

-- What follows the call of `send_reply`.
pub after_send :
    Timestamp
    → OutboundCommand
    → Result ClientError TelegramId
    → Database
    → Result Exception (Bool × Database)
after_send now command (ok sent_message_id) db = do
  db' ← complete_send now command sent_message_id db
  ok (true, db')
after_send now command (err (outbound error)) db = ok (true, record_error now command error db)
after_send now command (err verification_transient) db = err (propagated verification_transient)
after_send now command (err (other error)) db = err error

pub send_validated :
    MtprotoOutboundClient
    → Timestamp
    → OutboundCommand
    → Result ClientError (Unit {0})
    → Database
    → Run
unfolding after_validation_error after_send
send_validated client now command (ok _) db = record {
  calls = send_call command ∷ [];
  result =
      after_send now command
        (client.send_reply command.telegram_chat_id command.source_message_id command.text) db;
}
send_validated client now command (err error) db = record {
  calls = [];
  result = after_validation_error now command error db;
}

-- `command.question` is the row of the command's foreign key.
pub send_claimed : MtprotoOutboundClient → Timestamp → Option OutboundCommand × Database → Run
unfolding send_validated
send_claimed client now (none, db) = record { calls = []; result = ok (false, db) }
send_claimed client now (some command, db) = elim (question_by_id command.question_id db) [
  | none ↦ record { calls = []; result = err (raised "AttributeError" none true) }
  | some question ↦ send_validated client now command (validate client command question) db
]

-- The database after the transaction of an iteration.
unfoldable pub committed : Database → Run → Database
committed before run = elim run.result [ ok (worked, db) ↦ db | err error ↦ before ]

-- `SendReplyWorker.run_once`
unfoldable pub run_send_once :
    MtprotoOutboundClient → Timestamp → (Uuid → Bool) → String → Database → Run
unfolding send_claimed
run_send_once client now held worker_id db =
    send_claimed client now (claim_send now held worker_id db)

abbrev pub edit_call : OutboundCommand → TelegramId → ClientCall
edit_call command message_id = record {
  command_id = command.id;
  chat_id = command.telegram_chat_id;
  message_id = message_id;
  text = command.text;
}

-- What follows the call of `edit_message`: `fresh` identifies the version that a success adds.
pub after_edit :
    Uuid
    → Timestamp
    → OutboundCommand
    → Result ClientError (Unit {0})
    → Database
    → Result Exception (Bool × Database)
after_edit fresh now command (ok _) db = do db' ← complete_edit fresh now command db; ok (true, db')
after_edit fresh now command (err (outbound error)) db =
    ok (true, fail_edit command (code_value error.code) db)
after_edit fresh now command (err verification_transient) db =
    err (propagated verification_transient)
after_edit fresh now command (err (other error)) db = err error

abbrev pub has_edit_target : OutboundCommand → DetectedQuestion → Bool
has_edit_target command question =
    is_sent question.status && command.telegram_chat_id == question.telegram_chat_id

abbrev pub invalid_target : OutboundCommand → Database → Run
invalid_target command db = record {
  calls = [];
  result = ok (true, fail_edit command "INVALID_EDIT_TARGET" db);
}

pub edit_target :
    MtprotoOutboundClient
    → Uuid
    → Timestamp
    → OutboundCommand
    → Bool
    → Option TelegramId
    → Database
    → Run
unfolding after_edit
edit_target client fresh now command true (some message_id) db = record {
  calls = edit_call command message_id ∷ [];
  result =
      after_edit fresh now command
        (client.edit_message command.telegram_chat_id message_id command.text) db;
}
edit_target client fresh now command true none db = invalid_target command db
edit_target client fresh now command false message_id db = invalid_target command db

pub edit_claimed :
    MtprotoOutboundClient → Uuid → Timestamp → Option OutboundCommand × Database → Run
unfolding edit_target
edit_claimed client fresh now (none, db) = record { calls = []; result = ok (false, db) }
edit_claimed client fresh now (some command, db) = elim (question_by_id command.question_id db) [
  | none ↦ record { calls = []; result = err (raised "AttributeError" none true) }
  | some question ↦
      edit_target client fresh now command (has_edit_target command question)
        command.sent_message_id db
]

-- `EditReplyWorker.run_once`
unfoldable pub run_edit_once :
    MtprotoOutboundClient → Uuid → Timestamp → (Uuid → Bool) → String → Database → Run
unfolding edit_claimed
run_edit_once client fresh now held worker_id db =
    edit_claimed client fresh now (claim_edit now held worker_id db)
