-- ===== src/Listener/Outbound/Final.antt =====
-- The answers of Telegram that end a send.
use telegram_lead_assistent.Prelude.{
  ℕ, ◌≡◌, refl, subst, Bool, true, false, some, List, Result, ok, err, arith, inl, inr, ◌∈◌,
  put_row_sound, is_none,
}
use telegram_lead_assistent.Domain.{
  QuestionStatus, permanent, temporary, ambiguous, TelegramOutboundError, is_send,
}
use telegram_lead_assistent.Database.Models.{
  TelegramId, Timestamp, DetectedQuestion, OutboundCommand, Database,
}
use telegram_lead_assistent.Database.Questions.{question_by_id, save_question}
use telegram_lead_assistent.Database.Commands.{save_command}
use telegram_lead_assistent.Database.Commands.Claim.{IsSettled}
use telegram_lead_assistent.Database.Commands.Recovery.{IsSend}
use telegram_lead_assistent.Database.Sends.{complete_send, is_send_requested}
use telegram_lead_assistent.Listener.Outbound.{
  ClientCall, temporary_delay, record_error, ClientError, outbound, other, verification_transient,
  after_send, committed,
}
use telegram_lead_assistent.Listener.Outbound.Settling.{after_error, record_error-commands}
use telegram_lead_assistent.Listener.Outbound.Stores.{
  delivered, record_error-Stores, complete_send-Stores, Stores-IsSend,
}

-- The answers after which the same message is not to be tried again.
abbrev pub is_final_error : TelegramOutboundError → ℕ → Bool
is_final_error error attempts = elim error.kind [
  | permanent ↦ true
  | ambiguous ↦ true
  | temporary ↦ is_none (temporary_delay error attempts)
]

error_settles :
    (now : Timestamp) (command : OutboundCommand) (error : TelegramOutboundError) (db : Database)
    → is_final_error error command.attempt_count ≡ true
    → IsSettled command.id (record_error now command error db)
error_settles now command error db final row m p =
    elim (put_row_sound (λ r. r.id) (after_error now command error) db.outbound_commands row
      (subst (λ rows. row ∈ rows) (record_error-commands now command error db) m)) [
        | inl it ↦ absurd (ground arith)
        | inr (i, apart) ↦ λ h. ground arith
      ]

-- A send that Telegram accepted is stored as succeeded, with the identifier of the new message, and
-- its question as sent.
complete_send-requested :
    (now : Timestamp) (command : OutboundCommand) (id : TelegramId) (question : DetectedQuestion)
    (db : Database)
    → question_by_id command.question_id db ≡ some question
    → is_send_requested question.status ≡ true
    → complete_send now command id db
      ≡ ok (
          save_question
            (record question { status = QuestionStatus.sent; updated_at = now })
            (save_command (delivered now id command) db))
unfolding complete_send save_question
complete_send-requested now command id question db q requested =
    rw (q, complete_send) (rw requested refl)

delivered_settles :
    (now : Timestamp) (command : OutboundCommand) (id : TelegramId) (question : DetectedQuestion)
    (db : Database)
    → IsSettled command.id (save_question question (save_command (delivered now id command) db))
unfolding save_question save_command
delivered_settles now command id question db row m p =
    elim (put_row_sound (λ r. r.id) (delivered now id command) db.outbound_commands row m) [
      | inl it ↦ absurd (ground arith)
      | inr (i, apart) ↦ λ h. ground arith
    ]

-- Whether the attempt was the last: it succeeded, or failed for good.
abbrev pub is_final_answer : Result ClientError TelegramId → ℕ → Bool
is_final_answer (ok id) attempts = true
is_final_answer (err (outbound error)) attempts = is_final_error error attempts
is_final_answer (err _) attempts = false

pub after_send-IsSettled :
    (now : Timestamp) (command : OutboundCommand) (question : DetectedQuestion)
    (before db : Database) (calls : List ClientCall) (answer : Result ClientError TelegramId)
    → question_by_id command.question_id db ≡ some question
    → is_send_requested question.status ≡ true
    → is_final_answer answer command.attempt_count ≡ true
    → IsSettled command.id
        (committed before (record { calls = calls; result = after_send now command answer db }))
unfolding committed after_send
after_send-IsSettled now command question before db calls (ok id) q requested final =
    rw (complete_send-requested now command id question db q requested) (
      delivered_settles now command id
        (record question { status = QuestionStatus.sent; updated_at = now }) db)
after_send-IsSettled now command question before db calls (err (outbound error)) q requested final =
    error_settles now command error db final
after_send-IsSettled now command question before db calls (err verification_transient) q requested
      final =
    cc
after_send-IsSettled now command question before db calls (err (other error)) q requested final = cc

pub after_send-IsSend :
    (now : Timestamp) (command : OutboundCommand) (question : DetectedQuestion)
    (before db : Database) (calls : List ClientCall) (answer : Result ClientError TelegramId)
    → question_by_id command.question_id db ≡ some question
    → is_send_requested question.status ≡ true
    → is_final_answer answer command.attempt_count ≡ true
    → is_send command.command_type ≡ true
    → IsSend command.id db
    → IsSend command.id
        (committed before (record { calls = calls; result = after_send now command answer db }))
unfolding committed after_send
after_send-IsSend now command question before db calls (ok id) q requested final a_send sends =
    let done = complete_send-requested now command id question db q requested in
    let after =
      save_question (record question { status = QuestionStatus.sent; updated_at = now })
        (save_command (delivered now id command) db) in
    rw done (
      Stores-IsSend command.id command db after (complete_send-Stores now command id db after done)
        a_send sends)
after_send-IsSend now command question before db calls (err (outbound error)) q requested final
      a_send sends =
    Stores-IsSend command.id command db (record_error now command error db)
      (record_error-Stores now command error db) a_send sends
after_send-IsSend now command question before db calls (err verification_transient) q requested
      final a_send sends =
    cc
after_send-IsSend now command question before db calls (err (other error)) q requested final a_send
      sends =
    cc
