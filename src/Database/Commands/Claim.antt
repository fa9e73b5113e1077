-- ===== src/Database/Commands/Claim.antt =====
-- Claiming a command, and the commands that no claim returns.
use telegram_lead_assistent.Prelude.{
  ◌≡◌, ◌≢◌, Bool, true, false, none, some, arith, String, ◌⊎◌, inl, inr, ◌∈◌, Option-cases, IsOrder,
  first_where, IsFirst, first_where-IsFirst, first_where-none, ==_refl, update_where_sound,
  update_where, put_row, ◌==◌,
}
use telegram_lead_assistent.Domain.{CommandType}
use telegram_lead_assistent.Database.Models.{Uuid, Timestamp, OutboundCommand, Database}
use telegram_lead_assistent.Database.Commands.{
  is_pending, due_before, is_due, claimed, claim, save_command,
}

due_before-IsOrder : IsOrder due_before
due_before-IsOrder = record { asymm = λ x y h. ground arith; trans = λ x y z h k. ground arith }

-- `command` is the pending command of the type that is due first.
abbrev pub IsFirstDue :
    (CommandType → Bool) → Timestamp → (Uuid → Bool) → Database → OutboundCommand → Type 0
IsFirstDue of_type now held db command =
    IsFirst due_before (is_due of_type now held) db.outbound_commands command

-- A claim takes the pending command that is due first, if there is one, and nothing otherwise.
pub claim_command_lem :
    (of_type : CommandType → Bool) (now : Timestamp) (held : Uuid → Bool) (worker_id : String)
    (db : Database)
    → ((command : OutboundCommand) × IsFirstDue of_type now held db command
        × (claim of_type now held worker_id db ≡ (
          some (claimed now worker_id command),
          save_command (claimed now worker_id command) db,
        )))
      ⊎ ((claim of_type now held worker_id db ≡ (none, db))
          × ((other : OutboundCommand)
              → other ∈ db.outbound_commands
              → is_due of_type now held other ≡ false))
unfolding claim
claim_command_lem of_type now held worker_id db =
    elim (Option-cases (first_where due_before (is_due of_type now held) db.outbound_commands)) [
      | inl e ↦ inr (
        ground arith,
        first_where-none due_before (is_due of_type now held) db.outbound_commands e,
      )
      | inr (command, e) ↦ inl (
        command,
        first_where-IsFirst due_before (is_due of_type now held) db.outbound_commands
            due_before-IsOrder command e,
        ground arith,
      )
    ]

pub claim_command-some :
    (of_type : CommandType → Bool) (now : Timestamp) (held : Uuid → Bool) (worker_id : String)
    (db db' : Database) (taken : OutboundCommand)
    → claim of_type now held worker_id db ≡ (some taken, db')
    → (command : OutboundCommand) × IsFirstDue of_type now held db command
      × (taken ≡ claimed now worker_id command)
      × (db' ≡ save_command taken db)
claim_command-some of_type now held worker_id db db' taken h =
    elim (claim_command_lem of_type now held worker_id db) [
      | inl (command, first, e) ↦ (command, first, ground arith, ground arith)
      | inr (e, empty) ↦ absurd (ground arith)
    ]

-- No row of the command is pending.
abbrev pub IsSettled : Uuid → Database → Type 0
IsSettled id db =
    (row : OutboundCommand)
    → row ∈ db.outbound_commands
    → is_pending row.status ≡ true
    → row.id ≢ id

-- A command that is settled is not claimed.
pub claim-IsSettled :
    (id : Uuid) (of_type : CommandType → Bool) (now : Timestamp) (held : Uuid → Bool)
    (worker_id : String) (db db' : Database) (taken : OutboundCommand)
    → IsSettled id db
    → claim of_type now held worker_id db ≡ (some taken, db')
    → taken.id ≢ id
claim-IsSettled id of_type now held worker_id db db' taken settled h =
    let (command, first, t, d) = claim_command-some of_type now held worker_id db db' taken h in
    let apart : command.id ≢ id = settled command first.stored (ground (arith, first.meets)) in
    λ e. apart (ground arith)

-- Storing another command, or this one as settled, leaves it settled.
pub save_command-IsSettled_ne :
    (id : Uuid) (command : OutboundCommand) (db : Database)
    → command.id ≢ id
    → IsSettled id db
    → IsSettled id (save_command command db)
unfolding save_command put_row update_where
save_command-IsSettled_ne id command db other settled row m p =
    let (old, i, f) =
      update_where_sound (λ r. r.id == command.id) (λ _. command) db.outbound_commands row m in
    let apart : is_pending old.status ≡ true → old.id ≢ id = settled old i in ground arith

pub save_command-IsSettled :
    (id : Uuid) (command : OutboundCommand) (db : Database)
    → command.id ≡ id
    → is_pending command.status ≡ false
    → IsSettled id (save_command command db)
unfolding save_command put_row update_where
save_command-IsSettled id command db same final row m p =
    let (old, i, f) =
      update_where_sound (λ r. r.id == command.id) (λ _. command) db.outbound_commands row m in
    λ e. ground (arith, ==_refl row.id)
