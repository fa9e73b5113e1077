-- ===== src/Listener/Outbound/Stores.antt =====
-- What an iteration of the send worker stores for the command that it claimed.
use telegram_lead_assistent.Prelude.{
  ◌≡◌, ◌≢◌, refl, ap, subst, ◌∙◌, true, Option, none, some, List, [], ◌∷◌, Result, ok, err, arith,
  ◌⊎◌, inl, inr, ◌∈◌, Option-cases, put_row, put_row_sound,
}
use telegram_lead_assistent.Domain.{
  OutboundCommandStatus, TelegramOutboundError, is_send, Exception,
}
use telegram_lead_assistent.Database.Models.{Uuid, TelegramId, Timestamp, OutboundCommand, Database}
use telegram_lead_assistent.Database.Questions.{question_by_id, save_question}
use telegram_lead_assistent.Database.Commands.{save_command}
use telegram_lead_assistent.Database.Commands.Claim.{IsSettled}
use telegram_lead_assistent.Database.Commands.Recovery.{IsSend}
use telegram_lead_assistent.Database.Sends.{complete_send}
use telegram_lead_assistent.Listener.Outbound.{
  MtprotoOutboundClient, ClientCall, Run, record_error, ClientError, outbound, other,
  verification_transient, after_send, committed, send_claimed, send_validated,
  after_validation_error, validate, send_call,
}
use telegram_lead_assistent.Listener.Outbound.Settling.{after_error, record_error-commands}

-- What an iteration that claimed `taken` leaves of the commands: one row is stored for `taken`.
abbrev pub Stores : OutboundCommand → Database → Database → Type 0
Stores taken claimed_db db =
    (new : OutboundCommand) × (new.id ≡ taken.id)
    × (new.command_type ≡ taken.command_type)
    × (db.outbound_commands ≡ put_row (λ row. row.id) new claimed_db.outbound_commands)

pub record_error-Stores :
    (now : Timestamp) (command : OutboundCommand) (error : TelegramOutboundError) (db : Database)
    → Stores command db (record_error now command error db)
record_error-Stores now command error db = (
  after_error now command error,
  ground arith,
  ground arith,
  record_error-commands now command error db,
)

-- The row of a command that was sent.
abbrev pub delivered : Timestamp → TelegramId → OutboundCommand → OutboundCommand
delivered now id command = record command {
  sent_message_id = some id;
  status = OutboundCommandStatus.succeeded;
  completed_at = some now;
  locked_at = none;
  locked_by = none;
}

pub complete_send-Stores :
    (now : Timestamp) (command : OutboundCommand) (id : TelegramId) (db db' : Database)
    → complete_send now command id db ≡ ok db'
    → Stores command db db'
unfolding complete_send save_command save_question
complete_send-Stores now command id db db' h = (delivered now id command, refl, refl, ground arith)

-- Storing the row of another command leaves one settled; so does storing a row that is not pending.
pub Stores-IsSettled :
    (id : Uuid) (taken : OutboundCommand) (claimed_db db : Database)
    → Stores taken claimed_db db
    → taken.id ≢ id
    → IsSettled id claimed_db
    → IsSettled id db
Stores-IsSettled id taken claimed_db db (new, same, kind, e) distinct settled row m p =
    elim (put_row_sound (λ r. r.id) new claimed_db.outbound_commands row
      (subst (λ rows. row ∈ rows) e m)) [
        | inl it ↦ λ h. distinct (ground arith)
        | inr (i, apart) ↦ settled row i p
      ]

module _ (client : MtprotoOutboundClient) (now : Timestamp) (before : Database)
    (command : OutboundCommand) (db : Database) where
  after_validation_error-Stores :
      (error : ClientError) (calls : List ClientCall)
      → let run : Run = record {
        calls = calls;
        result = after_validation_error now command error db;
      } in
        (committed before run ≡ before) ⊎ Stores command db (committed before run)
  unfolding committed after_validation_error
  after_validation_error-Stores (outbound error) calls =
      inr (record_error-Stores now command error db)
  after_validation_error-Stores verification_transient calls =
      inr (record_error-Stores now command _ db)
  after_validation_error-Stores (other error) calls = inl refl

  after_sent-Stores :
      (id : TelegramId) (calls : List ClientCall) (outcome : Result Exception Database)
      → complete_send now command id db ≡ outcome
      → let run : Run = record { calls = calls; result = after_send now command (ok id) db } in
        (committed before run ≡ before) ⊎ Stores command db (committed before run)
  unfolding committed after_send
  after_sent-Stores id calls (ok db') e = inr (rw e (complete_send-Stores now command id db db' e))
  after_sent-Stores id calls (err error) e = inl (rw e refl)

  after_send-Stores :
      (answer : Result ClientError TelegramId) (calls : List ClientCall)
      → let run : Run = record { calls = calls; result = after_send now command answer db } in
        (committed before run ≡ before) ⊎ Stores command db (committed before run)
  unfolding committed after_send
  after_send-Stores (ok id) calls =
      after_sent-Stores id calls (complete_send now command id db) refl
  after_send-Stores (err (outbound error)) calls = inr (record_error-Stores now command error db)
  after_send-Stores (err verification_transient) calls = inl refl
  after_send-Stores (err (other error)) calls = inl refl

  send_validated-Stores :
      (validation : Result ClientError (Unit {0}))
      → (committed before (send_validated client now command validation db) ≡ before)
        ⊎ Stores command db (committed before (send_validated client now command validation db))
  unfolding send_validated
  send_validated-Stores (ok t) =
      after_send-Stores
        (client.send_reply command.telegram_chat_id command.source_message_id command.text)
        (send_call command ∷ [])
  send_validated-Stores (err error) = after_validation_error-Stores error []

module _ (client : MtprotoOutboundClient) (now : Timestamp) (before : Database) where
  pub send_claimed-Stores :
      (taken : Option OutboundCommand) (db : Database)
      → (committed before (send_claimed client now (taken, db)) ≡ before)
        ⊎ ((taken ≡ none) × (committed before (send_claimed client now (taken, db)) ≡ db))
        ⊎ ((command : OutboundCommand) × (taken ≡ some command)
            × Stores command db (committed before (send_claimed client now (taken, db))))
  unfolding send_claimed committed
  send_claimed-Stores none db = inr (inl (refl, refl))
  send_claimed-Stores (some command) db =
      elim (Option-cases (question_by_id command.question_id db)) [
        | inl e ↦ inl (rw (e, send_claimed) refl)
        | inr (question, e) ↦
            elim (send_validated-Stores client now before command db
              (validate client command question)) [
                | inl same ↦ inl (rw (e, send_claimed) same)
                | inr stores ↦ inr (inr (command, refl, rw (e, send_claimed) stores))
              ]
      ]

pub Stores-IsSend :
    (id : Uuid) (taken : OutboundCommand) (claimed_db db : Database)
    → Stores taken claimed_db db
    → is_send taken.command_type ≡ true
    → IsSend id claimed_db
    → IsSend id db
Stores-IsSend id taken claimed_db db (new, same, kind, e) a_send sends row m p =
    elim (put_row_sound (λ r. r.id) new claimed_db.outbound_commands row
      (subst (λ rows. row ∈ rows) e m)) [
        | inl it ↦ ap is_send (ap (λ (r : OutboundCommand). r.command_type) it ∙ kind) ∙ a_send
        | inr (i, apart) ↦ sends row i p
      ]

pub save_command-Stores :
    (command : OutboundCommand) (db : Database) → Stores command db (save_command command db)
unfolding save_command
save_command-Stores command db = (command, refl, refl, refl)
