-- ===== src/Database/Notifications.antt =====
-- app/database/repositories/bot_notifications.py: the queue of the operator's notifications.
use telegram_lead_assistent.Prelude.{
  ◌+◌, ◌==◌, ltb, leb, Bool, true, false, not, ◌&&◌, ◌||◌, Option, none, some, String, first_where,
  put_row, truncate,
}
use telegram_lead_assistent.Database.Models.{Uuid, TelegramId, Timestamp, Database}
use telegram_lead_assistent.Database.Records.{BotNotification, DeliveryStatus}

-- `status IN ('pending', 'retry')`
abbrev pub is_open : DeliveryStatus → Bool
is_open DeliveryStatus.pending = true
is_open DeliveryStatus.retry = true
is_open _ = false

abbrev pub is_waiting : Timestamp → (Uuid → Bool) → TelegramId → BotNotification → Bool
is_waiting now held operator row =
    is_open row.status
    && (leb row.next_attempt_at now
        && (row.operator_telegram_user_id == operator
            && (row.bot_chat_id == operator && not (held row.id))))

-- `ORDER BY next_attempt_at, created_at`
abbrev pub due_before : BotNotification → BotNotification → Bool
due_before a b =
    ltb a.next_attempt_at b.next_attempt_at
    || (a.next_attempt_at == b.next_attempt_at && ltb a.created_at b.created_at)

unfoldable pub save_notification : BotNotification → Database → Database
save_notification row db = record db {
  bot_notifications = put_row (λ n. n.id) row db.bot_notifications;
}

abbrev pub taken : Timestamp → BotNotification → BotNotification
taken now row = record row {
  status = DeliveryStatus.sending;
  attempt_count = row.attempt_count + 1;
  last_error = none;
  updated_at = now;
}

unfoldable pub claim :
    Timestamp → (Uuid → Bool) → TelegramId → Database → Option BotNotification × Database
claim now held operator db =
    elim (first_where due_before (is_waiting now held operator) db.bot_notifications) [
      | none ↦ (none, db)
      | some row ↦ (some (taken now row), save_notification (taken now row) db)
    ]

abbrev pub marked_sent : Timestamp → TelegramId → BotNotification → BotNotification
marked_sent now bot_message_id row = record row {
  status = DeliveryStatus.sent;
  bot_message_id = some bot_message_id;
  sent_at = some now;
  last_error = none;
  updated_at = now;
}

abbrev pub retried : Timestamp → String → Timestamp → BotNotification → BotNotification
retried now error_code retry_at row = record row {
  status = DeliveryStatus.retry;
  next_attempt_at = retry_at;
  last_error = some (truncate 100 error_code);
  updated_at = now;
}

abbrev pub given_up : Timestamp → String → BotNotification → BotNotification
given_up now error_code row = record row {
  status = DeliveryStatus.failed;
  last_error = some (truncate 100 error_code);
  updated_at = now;
}
