-- ===== src/Listener/Outbound/Settling.antt =====
-- What the send worker records of an answer: the row that the command is left with.
use telegram_lead_assistent.Prelude.{
  ℕ, zero, suc, ◌+◌, ◌≤◌, ◌<◌, ◌≢◌, ◌⊎◌, inl, inr, ◌∈◌, List, [], ◌∷◌, true, false, ◌≡◌, refl, ap,
  ◌∙◌, Option, none, some, arith, put_row, row_by-put_row_self, if◌then◌else◌,
}
use telegram_lead_assistent.Domain.{
  OutboundCommandStatus, TelegramFailureKind, permanent, temporary, ambiguous, TelegramErrorCode,
  flood_wait, TelegramOutboundError, code_value,
}
use telegram_lead_assistent.Database.Models.{
  TelegramId, Timestamp, seconds, OutboundCommand, Database,
}
use telegram_lead_assistent.Database.Commands.{
  request_chat_verification, save_command, command_by_id,
}
use telegram_lead_assistent.Database.Sends.{fail_question, fail_send, retry_send}
use telegram_lead_assistent.Listener.Outbound.{
  is_access_error, is_flood_wait, or_zero, send_delay, temporary_delay, settle_error, record_error,
}

-- The row of a failed attempt: pending again after the delay of a temporary error that has one, for
-- review if the message may have been sent or the delays are used up, and failed otherwise.
abbrev released : OutboundCommand → TelegramOutboundError → OutboundCommand
released command error = record command {
  last_error_code = some (code_value error.code);
  last_error_message = some (code_value error.code);
  locked_at = none;
  locked_by = none;
}

abbrev after_delay :
    Timestamp → OutboundCommand → TelegramOutboundError → Option ℕ → OutboundCommand
after_delay now command error none = record (released command error) {
  status = OutboundCommandStatus.needs_review;
}
after_delay now command error (some delay) = record (released command error) {
  status = OutboundCommandStatus.pending;
  next_attempt_at = now + seconds delay;
}

abbrev after_kind :
    Timestamp → OutboundCommand → TelegramOutboundError → TelegramFailureKind → OutboundCommand
after_kind now command error permanent = record (released command error) {
  status = OutboundCommandStatus.failed;
}
after_kind now command error ambiguous = record (released command error) {
  status = OutboundCommandStatus.needs_review;
}
after_kind now command error temporary =
    after_delay now command error (temporary_delay error command.attempt_count)

abbrev pub after_error : Timestamp → OutboundCommand → TelegramOutboundError → OutboundCommand
after_error now command error = after_kind now command error error.kind

settle_error-commands :
    (now : Timestamp) (command : OutboundCommand) (error : TelegramOutboundError) (db : Database)
    → (settle_error now command error db).outbound_commands
      ≡ put_row (λ row. row.id) (after_error now command error) db.outbound_commands
unfolding settle_error fail_send retry_send fail_question save_command
settle_error-commands now command error db = ground arith

request_chat_verification-commands :
    (now : Timestamp) (chat_id : TelegramId) (db : Database)
    → (request_chat_verification now chat_id db).1.outbound_commands ≡ db.outbound_commands
unfolding request_chat_verification
request_chat_verification-commands now chat_id db = refl

-- Recording an error changes no command but the one that failed, whose row becomes `after_error`.
pub record_error-commands :
    (now : Timestamp) (command : OutboundCommand) (error : TelegramOutboundError) (db : Database)
    → (record_error now command error db).outbound_commands
      ≡ put_row (λ row. row.id) (after_error now command error) db.outbound_commands
unfolding record_error
record_error-commands now command error db =
    let requested = (request_chat_verification now command.telegram_chat_id db).1 in
    settle_error-commands now command error (if is_access_error error.code then requested else db)
    ∙ ap (put_row (λ row. row.id) (after_error now command error)) same
  where
    same :
        (if is_access_error error.code
          then (request_chat_verification now command.telegram_chat_id db).1
          else db).outbound_commands
        ≡ db.outbound_commands
    same = ground (arith, request_chat_verification-commands now command.telegram_chat_id db)

-- The delays of the attempts, in seconds.
abbrev pub schedule : List (ℕ × ℕ)
schedule = (1, 15) ∷ ((2, 60) ∷ ((3, 300) ∷ ((4, 1800) ∷ [])))

-- The row, unlocked, with the code of the error.
abbrev pub left :
    OutboundCommandStatus → Timestamp → TelegramErrorCode → OutboundCommand → OutboundCommand
left status due code command = record command {
  status = status;
  next_attempt_at = due;
  last_error_code = some (code_value code);
  last_error_message = some (code_value code);
  locked_at = none;
  locked_by = none;
}

-- How a failed attempt leaves its command.
abbrev pub IsLeft : Timestamp → OutboundCommand → TelegramOutboundError → OutboundCommand → Type 0
IsLeft now command error row =
    ((error.kind ≡ permanent)
      × (row ≡ left OutboundCommandStatus.failed command.next_attempt_at error.code command))
    ⊎ ((error.kind ≡ ambiguous)
        × (row
            ≡ left OutboundCommandStatus.needs_review command.next_attempt_at error.code command))
    ⊎ ((error.kind ≡ temporary)
        × (error.code ≡ flood_wait)
        × (row
            ≡ left OutboundCommandStatus.pending (now + seconds (or_zero error.retry_after_seconds))
                error.code command))
    ⊎ ((delay : ℕ) × (error.kind ≡ temporary)
        × (error.code ≢ flood_wait)
        × ((command.attempt_count, delay) ∈ schedule)
        × (row ≡ left OutboundCommandStatus.pending (now + seconds delay) error.code command))
    ⊎ ((error.kind ≡ temporary)
        × (error.code ≢ flood_wait)
        × (5 ≤ command.attempt_count)
        × (row
            ≡ left OutboundCommandStatus.needs_review command.next_attempt_at error.code command))

flood_cases :
    (code : TelegramErrorCode)
    → ((code ≡ flood_wait) × (is_flood_wait code ≡ true))
      ⊎ ((code ≢ flood_wait) × (is_flood_wait code ≡ false))
flood_cases flood_wait = inl (refl, refl)
flood_cases _ = inr (λ e. cc, refl)

scheduled :
    (attempts : ℕ)
    → 0 < attempts
    → ((delay : ℕ) × (send_delay attempts ≡ some delay) × ((attempts, delay) ∈ schedule))
      ⊎ ((send_delay attempts ≡ none) × (5 ≤ attempts))
scheduled zero h = absurd (omega arith)
scheduled (suc zero) h = inl (15, refl, inl refl)
scheduled (suc (suc zero)) h = inl (60, refl, inr (inl refl))
scheduled (suc (suc (suc zero))) h = inl (300, refl, inr (inr (inl refl)))
scheduled (suc (suc (suc (suc zero)))) h = inl (1800, refl, inr (inr (inr (inl refl))))
scheduled (suc (suc (suc (suc (suc n))))) h = inr (refl, omega arith)

after_error-IsLeft :
    (now : Timestamp) (command : OutboundCommand) (error : TelegramOutboundError)
    (kind : TelegramFailureKind)
    → 0 < command.attempt_count
    → error.kind ≡ kind
    → IsLeft now command error (after_error now command error)
after_error-IsLeft now command error permanent h k = inl (k, ap (after_kind now command error) k)
after_error-IsLeft now command error ambiguous h k =
    inr (inl (k, ap (after_kind now command error) k))
after_error-IsLeft now command error temporary h k = elim (flood_cases error.code) [
  | inl (flood, e) ↦
      inr (inr (inl (k, flood, by_delay (some (or_zero error.retry_after_seconds)) (rw e refl))))
  | inr (other, e) ↦ elim (scheduled command.attempt_count h) [
    | inl (delay, d, m) ↦ inr (inr (inr (inl (delay, k, other, m, by_delay (some delay) (rw e d)))))
    | inr (d, used_up) ↦ inr (inr (inr (inr (k, other, used_up, by_delay none (rw e d)))))
  ]
]
  where
    by_delay :
        (delay : Option ℕ)
        → temporary_delay error command.attempt_count ≡ delay
        → after_error now command error ≡ after_delay now command error delay
    by_delay delay d = ap (after_kind now command error) k ∙ ap (after_delay now command error) d

-- A failed attempt of a stored command that was claimed leaves its row unlocked with the code of the
-- error: failed if the error is permanent, and for review if the outcome is ambiguous; after a
-- temporary error pending again, after the wait that a flood error names, and otherwise 15, 60, 300
-- and 1800 seconds after the first four attempts; for review after the fifth or a later one.
pub command_by_id-record_error :
    (now : Timestamp) (command old : OutboundCommand) (error : TelegramOutboundError)
    (db : Database)
    → 0 < command.attempt_count
    → command_by_id command.id db ≡ some old
    → (row : OutboundCommand) × (command_by_id command.id (record_error now command error db)
        ≡ some row)
      × IsLeft now command error row
unfolding command_by_id
command_by_id-record_error now command old error db attempted found = (
  after_error now command error,
  rw (record_error-commands now command error db) (
      row_by-put_row_self (λ row. row.id) command.id old (after_error now command error)
        db.outbound_commands found (ground arith)),
  after_error-IsLeft now command error error.kind attempted refl,
)
