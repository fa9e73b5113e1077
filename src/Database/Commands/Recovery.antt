-- ===== src/Database/Commands/Recovery.antt =====
-- The recovery of the claims whose worker did not come back, and the operator's retries.
use telegram_lead_assistent.Prelude.{
  ◌≡◌, ◌≢◌, refl, subst, true, false, Option, none, some, arith, inl, inr, ◌∈◌, Bool-cases,
  update_where_sound, put_row_sound, row_by_sound, ok, guard->>-eq-ok, ok-injective,
}
use telegram_lead_assistent.Domain.{
  OutboundCommandStatus, is_send, send_failed, outbound_retry_unavailable,
}
use telegram_lead_assistent.Database.Models.{
  Uuid, Timestamp, OutboundCommand, DetectedQuestion, Database,
}
use telegram_lead_assistent.Database.Commands.{
  is_stale, to_review, recover_stale, retry_found, retry_failed, manual_retry_allowed,
  command_by_id, save_command,
}
use telegram_lead_assistent.Database.Commands.Claim.{IsSettled, save_command-IsSettled_ne}

-- A settled command stays settled when stale claims are recovered.
pub recover_stale-IsSettled :
    (id : Uuid) (now limit : Timestamp) (db : Database)
    → IsSettled id db
    → IsSettled id (recover_stale now limit db).1
unfolding recover_stale
recover_stale-IsSettled id now limit db settled row m p =
    let (old, i, e) = update_where_sound (is_stale limit) to_review db.outbound_commands row m in
    elim (Bool-cases (is_stale limit old)) [
      | inl stale ↦ absurd (ground arith)
      | inr fresh ↦ settled row (subst (λ r. r ∈ db.outbound_commands) (ground arith) i) p
    ]

-- The rows of the command are sends.
abbrev pub IsSend : Uuid → Database → Type 0
IsSend id db =
    (row : OutboundCommand)
    → row ∈ db.outbound_commands
    → row.id ≡ id
    → is_send row.command_type ≡ true

pub save_command-IsSend_ne :
    (id : Uuid) (command : OutboundCommand) (db : Database)
    → command.id ≢ id
    → IsSend id db
    → IsSend id (save_command command db)
unfolding save_command
save_command-IsSend_ne id command db distinct sends row m p =
    elim (put_row_sound (λ r. r.id) command db.outbound_commands row m) [
      | inl it ↦ absurd (distinct (ground arith))
      | inr (i, apart) ↦ sends row i p
    ]

-- The row of a question whose send was recovered.
abbrev pub failed_question : Timestamp → DetectedQuestion → DetectedQuestion
failed_question now question = record question { status = send_failed; updated_at = now }

-- A command that waits for the operator's review, unlocked and with the code of the recovery.
abbrev pub reviewed : OutboundCommand → OutboundCommand
reviewed command = record command {
  status = OutboundCommandStatus.needs_review;
  locked_at = none;
  locked_by = none;
  last_error_code = some "STALE_LOCK_RECOVERED";
  last_error_message = some "STALE_LOCK_RECOVERED";
}

-- Recovery changes no command's type.
pub recover_stale-IsSend :
    (id : Uuid) (now limit : Timestamp) (db : Database)
    → IsSend id db
    → IsSend id (recover_stale now limit db).1
unfolding recover_stale
recover_stale-IsSend id now limit db sends row m p =
    let (old, i, e) = update_where_sound (is_stale limit) to_review db.outbound_commands row m in
    let old_send : old.id ≡ id → is_send old.command_type ≡ true = sends old i in
    elim (Bool-cases (is_stale limit old)) [ inl stale ↦ ground arith | inr fresh ↦ ground arith ]

-- A row that the operator may retry is an edit.
retried_is_edit :
    (command : OutboundCommand)
    → manual_retry_allowed command ≡ true
    → is_send command.command_type ≡ false
retried_is_edit command h = ground arith

retried_ne :
    (id : Uuid) (db : Database) (command : OutboundCommand)
    → IsSend id db
    → command ∈ db.outbound_commands
    → manual_retry_allowed command ≡ true
    → command.id ≢ id
retried_ne id db command sends m allowed same =
    clash (sends command m same) (retried_is_edit command allowed)
  where
    clash : is_send command.command_type ≡ true → is_send command.command_type ≡ false → ⊥
    clash a b = cc

retry_found-keeps :
    (id : Uuid) (now : Timestamp) (command_id : Uuid) (found : Option OutboundCommand)
    (db db' : Database)
    → command_by_id command_id db ≡ found
    → IsSend id db
    → IsSettled id db
    → retry_found now found db ≡ ok db'
    → IsSend id db' × IsSettled id db'
unfolding retry_found command_by_id
retry_found-keeps id now command_id none db db' e sends settled h = cc
retry_found-keeps id now command_id (some command) db db' e sends settled h =
    let (allowed, last) =
      guard->>-eq-ok (manual_retry_allowed command) outbound_retry_unavailable _ h in
    let (m, its_id) = row_by_sound (λ c. c.id) command_id db.outbound_commands command e in
    let apart = retried_ne id db command sends m allowed in
    let retried = record command {
      status = OutboundCommandStatus.pending;
      next_attempt_at = now;
      locked_at = none;
      locked_by = none;
    } in
    (
      subst (IsSend id) (ok-injective last) (save_command-IsSend_ne id retried db apart sends),
      subst (IsSettled id) (ok-injective last)
          (save_command-IsSettled_ne id retried db apart settled),
    )

-- A retry by the operator leaves the settled sends as they are.
pub retry_failed-keeps :
    (id : Uuid) (now : Timestamp) (command_id : Uuid) (db db' : Database)
    → IsSend id db
    → IsSettled id db
    → retry_failed now command_id db ≡ ok db'
    → IsSend id db' × IsSettled id db'
unfolding retry_failed
retry_failed-keeps id now command_id db db' sends settled h =
    retry_found-keeps id now command_id (command_by_id command_id db) db db' refl sends settled h
