-- ===== src/Bot/Delivery/Partial.antt =====
-- A notification of which a part was counted as sent is not delivered again.
use telegram_lead_assistent.Prelude.{
  ◌+◌, List, [], ◌∷◌, ℕ, zero, suc, ◌<◌, ◌≡◌, refl, sym, ap, ◌∙◌, Bool, true, Option, none, some,
  Result, ok, err, arith, ◌⊎◌, inl, inr, Option-cases, row_by, row_by-put_row_self, first_where,
  IsOrder, IsFirst, first_where-IsFirst, row_by-mem,
}
use telegram_lead_assistent.Domain.{Exception, runtime_error}
use telegram_lead_assistent.Database.Models.{
  Uuid, TelegramId, Timestamp, Timedelta, DetectedQuestion, Database,
}
use telegram_lead_assistent.Database.Records.{BotNotification, DeliveryStatus}
use telegram_lead_assistent.Database.Worker.{RetryPolicy, delay_at, delay_after_attempt}
use telegram_lead_assistent.Database.Notifications.{
  is_waiting, due_before, taken, claim, save_notification, marked_sent,
}
use telegram_lead_assistent.Bot.Notifications.{NumberFormat, NotificationPart}
use telegram_lead_assistent.Bot.Delivery.{
  NotificationBot, send_parts, parts_of, attempt, after_error, settle_error, settle, run_once,
}

-- How a notification leaves an iteration in which `sent` of its parts were counted.
abbrev pub Leaves : ℕ → BotNotification → Type 0
Leaves sent row =
    ((row.status ≡ DeliveryStatus.retry) × (sent ≡ 0))
    ⊎ (row.status ≡ DeliveryStatus.failed)
    ⊎ (row.status ≡ DeliveryStatus.sent)

positive_delay :
    (policy : RetryPolicy) (n : ℕ)
    → 0 < n
    → (delay : Option Timedelta) × (delay_after_attempt policy n ≡ ok delay)
unfolding delay_after_attempt
positive_delay policy zero h = absurd (omega arith)
positive_delay policy (suc n) h = (delay_at policy n, refl)

after_error-Leaves :
    (now : Timestamp) (error : Exception) (sent : ℕ) (delay : Option Timedelta)
    (row : BotNotification)
    → ((after_error now error sent delay row).id ≡ row.id)
      × Leaves sent (after_error now error sent delay row)
unfolding after_error
after_error-Leaves now error sent none row = (refl, inr (inl refl))
after_error-Leaves now error zero (some delay) row = (refl, inl (refl, refl))
after_error-Leaves now error (suc sent) (some delay) row = (refl, inr (inl refl))

abbrev Settles : ℕ → BotNotification → Result Exception BotNotification → Type 0
Settles sent row result =
    (row' : BotNotification) × (result ≡ ok row') × (row'.id ≡ row.id) × Leaves sent row'

settle_error-Settles :
    (policy : RetryPolicy) (now : Timestamp) (error : Exception) (sent : ℕ) (row : BotNotification)
    → 0 < row.attempt_count
    → Settles sent row (settle_error policy now error sent row)
unfolding settle_error
settle_error-Settles policy now error sent row positive =
    let (delay, e) = positive_delay policy row.attempt_count positive in
    let (same, leaves) = after_error-Leaves now error sent delay row in
    (after_error now error sent delay row, rw e refl, same, leaves)

settle-Settles :
    (policy : RetryPolicy) (now : Timestamp) (row : BotNotification) (sent : ℕ)
    (outcome : Result Exception (Option TelegramId))
    → 0 < row.attempt_count
    → Settles sent row (settle policy now row (sent, outcome))
unfolding settle
settle-Settles policy now row sent (ok (some id)) positive =
    (marked_sent now id row, refl, refl, inr (inr refl))
settle-Settles policy now row sent (ok none) positive =
    settle_error-Settles policy now runtime_error sent row positive
settle-Settles policy now row sent (err e) positive =
    settle_error-Settles policy now e sent row positive

due_before-IsOrder : IsOrder due_before
due_before-IsOrder = record { asymm = λ x y h. ground arith; trans = λ x y z h k. ground arith }

-- A claim that returns a row stored it, and took a row of the table for it.
claim_notification-some :
    (now : Timestamp) (held : Uuid → Bool) (operator : TelegramId) (db db' : Database)
    (got : BotNotification)
    → claim now held operator db ≡ (some got, db')
    → (row : BotNotification) × IsFirst due_before
        (is_waiting now held operator)
        db.bot_notifications
        row
      × (got ≡ taken now row)
      × (db' ≡ save_notification got db)
unfolding claim
claim_notification-some now held operator db db' got h =
    elim (Option-cases
      (first_where due_before (is_waiting now held operator) db.bot_notifications)) [
        | inl e ↦ absurd (ground arith)
        | inr (row, e) ↦ (
          row,
          first_where-IsFirst due_before (is_waiting now held operator) db.bot_notifications
              due_before-IsOrder row e,
          ground arith,
          ground arith,
        )
      ]

abbrev pub notification_by : Uuid → Database → Option BotNotification
notification_by id db = row_by (λ n. n.id) id db.bot_notifications

-- What is saved is read again, where a row of its identifier is in the table.
saved_notification :
    (old row : BotNotification) (db : Database)
    → notification_by row.id db ≡ some old
    → notification_by row.id (save_notification row db) ≡ some row
unfolding save_notification
saved_notification old row db e =
    row_by-put_row_self (λ n. n.id) row.id old row db.bot_notifications e refl

answer_cases :
    (answer : Result Exception (Option TelegramId))
    → ((id : TelegramId) × (answer ≡ ok (some id)))
      ⊎ (answer ≡ ok none)
      ⊎ ((e : Exception) × (answer ≡ err e))
answer_cases (ok (some id)) = inl (id, refl)
answer_cases (ok none) = inr (inl refl)
answer_cases (err e) = inr (inr (e, refl))

module _ {Controls : Type 0} (bot : NotificationBot Controls) (chat_id : TelegramId) where
  abbrev pub named : Result Exception (Option TelegramId) → ℕ → ℕ
  named (ok (some id)) more = suc more
  named (ok none) more = 0
  named (err e) more = 0

  -- How many parts, from the first on, the Bot API accepts with a message that has an identifier.
  abbrev pub accepted : List (NotificationPart Controls) → ℕ
  accepted [] = 0
  accepted (part ∷ parts) = named (bot chat_id part) (accepted parts)

  abbrev pub accepted_of : Result Exception (List (NotificationPart Controls)) → ℕ
  accepted_of (ok parts) = accepted parts
  accepted_of (err e) = 0

  count-send_parts :
      (n : ℕ) (final : Option TelegramId) (parts : List (NotificationPart Controls))
      → (send_parts bot chat_id n final parts).0 ≡ n + accepted parts
  unfolding send_parts
  count-send_parts n final [] = omega arith
  count-send_parts n final (part ∷ parts) = elim (answer_cases (bot chat_id part)) [
    | inl (id, e) ↦ rw (send_parts, e) (ground (arith, count-send_parts (suc n) (some id) parts))
    | inr (inl e) ↦ rw (send_parts, e) (omega arith)
    | inr (inr (error, e)) ↦ rw (send_parts, e) (omega arith)
  ]

  count-attempt :
      (parts : Result Exception (List (NotificationPart Controls)))
      → (attempt bot chat_id parts).0 ≡ accepted_of parts
  unfolding attempt
  count-attempt (ok parts) = ground (arith, count-send_parts 0 none parts)
  count-attempt (err e) = refl

-- When a notification is claimed, the iteration succeeds, whatever the renderer and the Bot API do.
-- The parts that are counted are those that the Bot API accepted with an identifier before the first
-- failure. The claimed row is then sent, or failed, or it waits to be tried again; and it waits only
-- if no part was counted.
pub run_once-Leaves :
    {Controls : Type 0} (policy : RetryPolicy) (format : NumberFormat)
    (controls : DetectedQuestion → Controls) (bot : NotificationBot Controls) (now : Timestamp)
    (held : Uuid → Bool) (operator : TelegramId) (db claimed_db : Database) (row : BotNotification)
    → claim now held operator db ≡ (some row, claimed_db)
    → (sent : ℕ) × (db' : Database) × (row' : BotNotification) × (run_once policy format controls
          bot now held operator db
        ≡ ok ((true, sent), db'))
      × (sent ≡ accepted_of bot row.bot_chat_id (parts_of format controls row claimed_db))
      × (notification_by row.id db' ≡ some row')
      × Leaves sent row'
unfolding run_once
run_once-Leaves policy format controls bot now held operator db claimed_db row c =
    let (old, first, t, d) = claim_notification-some now held operator db claimed_db row c in
    let sending = attempt bot row.bot_chat_id (parts_of format controls row claimed_db) in
    let (row', e, same, leaves) =
      settle-Settles policy now row sending.0 sending.1 (rw t (omega arith)) in
    let (found, f) = row_by-mem (λ n. n.id) old db.bot_notifications first.stored in
    let there : notification_by row.id claimed_db ≡ some row =
      rw d (saved_notification found row db (rw t f)) in
    (
      sending.0,
      save_notification row' claimed_db,
      row',
      rw (c, e) refl,
      count-attempt bot row.bot_chat_id (parts_of format controls row claimed_db),
      ap (λ id. notification_by id (save_notification row' claimed_db)) (sym same)
          ∙ saved_notification row row' claimed_db
              (ap (λ id. notification_by id claimed_db) same ∙ there),
      leaves,
    )
