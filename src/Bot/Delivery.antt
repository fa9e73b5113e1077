-- ===== src/Bot/Delivery.antt =====
-- app/bot/delivery.py: the worker that delivers the notifications. The Bot API is a parameter; an
-- iteration returns how many parts were counted as sent, since a call is not undone with a
-- transaction.
-- The keyboard under a notification is a parameter, too.
pub mod Partial
use telegram_lead_assistent.Prelude.{
  ℕ, zero, suc, ◌+◌, ◌==◌, ltb, if◌then◌else◌, Bool, true, false, ◌||◌, Option, none, some, List,
  [], ◌∷◌, map, String, Result, ok, err, ◌>>=◌, find_where, select_where, row_by, truncate, is_none,
}
use telegram_lead_assistent.Domain.{Exception, runtime_error, raised}
use telegram_lead_assistent.Database.Models.{
  Uuid, TelegramId, Timestamp, Timedelta, MonitoredChat, DetectedQuestion, Database,
}
use telegram_lead_assistent.Database.Records.{BotNotification, QuestionChainMessage}
use telegram_lead_assistent.Database.Worker.{RetryPolicy, class_name, delay_after_attempt}
use telegram_lead_assistent.Database.Notifications.{
  claim, save_notification, marked_sent, retried, given_up,
}
use telegram_lead_assistent.Listener.Events.Characters.{codes}
use telegram_lead_assistent.Bot.Notifications.{
  NumberFormat, NotificationChainItem, NotificationContent, NotificationPart, sort_items,
  render_notification,
}

-- `NotificationBot.send_message`, to a chat: the `message_id` of what it returns, if that has an
-- integer there, or what it raises.
abbrev pub NotificationBot : Type 0 → Type 0
NotificationBot Controls =
    TelegramId → NotificationPart Controls → Result Exception (Option TelegramId)

-- `_message_id`
abbrev pub message_id_of : Option TelegramId → Result Exception TelegramId
message_id_of none = err (raised "TypeError" none true)
message_id_of (some id) = ok id

abbrev text_of : Option String → Option (List ℕ)
text_of none = none
text_of (some text) = some (codes text)

abbrev title_of : Option MonitoredChat → List ℕ
title_of none = codes "Удалённый чат"
title_of (some chat) = codes chat.title

abbrev pub chain_item : QuestionChainMessage → NotificationChainItem
chain_item row = record {
  position = row.position;
  author_display_name = text_of row.author_display_name;
  original_text = codes row.original_text;
  translated_text = text_of row.translated_text;
  is_target = row.is_target;
}

-- `_build_content`
abbrev pub build_content :
    DetectedQuestion → Option MonitoredChat → List QuestionChainMessage → NotificationContent
build_content question chat rows = record {
  chat_title = title_of chat;
  topic_title = text_of question.topic_title;
  category = codes question.category;
  confidence = question.confidence;
  chain = sort_items (map chain_item rows);
}

abbrev chat_of : DetectedQuestion → Database → Option MonitoredChat
chat_of question db = elim question.monitored_chat_id [
  | none ↦ none
  | some id ↦ row_by (λ chat. chat.id) id db.monitored_chats
]

module _ {Controls : Type 0} where
  -- The parts of a notification; its question exists by the foreign key.
  unfoldable pub parts_of :
      NumberFormat
      → (DetectedQuestion → Controls)
      → BotNotification
      → Database
      → Result Exception (List (NotificationPart Controls))
  parts_of format controls notification db =
      elim (row_by (λ q. q.id) notification.question_id db.detected_questions) [
        | none ↦ err runtime_error
        | some question ↦ ok (
            render_notification (controls question) format (
              build_content question (chat_of question db)
                (select_where (λ row. row.question_id == question.id) db.question_chain_messages)))
      ]

  -- The loop over the parts: how many were counted as sent, and the last message or the error.
  unfoldable pub send_parts :
      NotificationBot Controls
      → TelegramId
      → ℕ
      → Option TelegramId
      → List (NotificationPart Controls)
      → ℕ × Result Exception (Option TelegramId)
  send_parts bot chat_id sent final [] = (sent, ok final)
  send_parts bot chat_id sent final (part ∷ parts) = elim (bot chat_id part >>= message_id_of) [
    | err e ↦ (sent, err e)
    | ok id ↦ send_parts bot chat_id (suc sent) (some id) parts
  ]

  -- The `try`.
  unfoldable pub attempt :
      NotificationBot Controls
      → TelegramId
      → Result Exception (List (NotificationPart Controls))
      → ℕ × Result Exception (Option TelegramId)
  unfolding send_parts
  attempt bot chat_id (err e) = (0, err e)
  attempt bot chat_id (ok parts) = send_parts bot chat_id 0 none parts

-- The `except` branch, by the delay of the attempt.
unfoldable pub after_error :
    Timestamp → Exception → ℕ → Option Timedelta → BotNotification → BotNotification
after_error now error sent none row = given_up now (truncate 100 (class_name error)) row
after_error now error zero (some delay) row =
    retried now (truncate 100 (class_name error)) (now + delay) row
after_error now error (suc sent) (some delay) row =
    given_up now (truncate 100 (class_name error)) row

settle_error :
    RetryPolicy → Timestamp → Exception → ℕ → BotNotification → Result Exception BotNotification
unfolding after_error
settle_error policy now error sent row = do
  delay ← delay_after_attempt policy row.attempt_count
  ok (after_error now error sent delay row)

unfoldable pub settle :
    RetryPolicy
    → Timestamp
    → BotNotification
    → ℕ × Result Exception (Option TelegramId)
    → Result Exception BotNotification
unfolding settle_error
settle policy now row (sent, ok (some id)) = ok (marked_sent now id row)
settle policy now row (sent, ok none) = settle_error policy now runtime_error sent row
settle policy now row (sent, err e) = settle_error policy now e sent row

module _ {Controls : Type 0} where
  deliver :
      RetryPolicy
      → NumberFormat
      → (DetectedQuestion → Controls)
      → NotificationBot Controls
      → Timestamp
      → Option BotNotification × Database
      → Result Exception ((Bool × ℕ) × Database)
  unfolding attempt parts_of settle
  deliver policy format controls bot now (none, db) = ok ((false, 0), db)
  deliver policy format controls bot now (some row, db) = do
    let sending = attempt bot row.bot_chat_id (parts_of format controls row db)
    row' ← settle policy now row sending
    ok ((true, sending.0), save_notification row' db)

  -- `run_once`: whether a notification was claimed, and how many of its parts were counted as sent.
  unfoldable pub run_once :
      RetryPolicy
      → NumberFormat
      → (DetectedQuestion → Controls)
      → NotificationBot Controls
      → Timestamp
      → (Uuid → Bool)
      → TelegramId
      → Database
      → Result Exception ((Bool × ℕ) × Database)
  unfolding deliver
  run_once policy format controls bot now held operator db =
      deliver policy format controls bot now (claim now held operator db)
