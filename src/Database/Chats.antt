-- ===== src/Database/Chats.antt =====
-- app/database/repositories/monitored_chats.py: the chats that the operator has the listener watch.
pub mod Verification
pub mod Paused
use telegram_lead_assistent.Prelude.{
  ℕ, ◌+◌, ◌*◌, ◌==◌, leb, if◌then◌else◌, Bool, true, false, not, ◌&&◌, Option, none, some, List, [],
  ◌∷◌, ◌++◌, String, Result, ok, err, opt_eq, row_by, find_where, any_where, update_where,
  delete_where, is_some,
}
use telegram_lead_assistent.Domain.{Exception, MonitoredChatStatus, MonitoredChatType}
use telegram_lead_assistent.Listener.Mtproto.{ChatVerificationOutcome, ChatVerificationResult}
use telegram_lead_assistent.Database.Models.{
  Uuid, TelegramId, Timestamp, Timedelta, minutes, MonitoredChat, Database,
}
use telegram_lead_assistent.Database.Commands.{is_enabled, request_chat_verification}

pub record NewMonitoredChat : Type 0 where
  pub telegram_chat_id : TelegramId
  pub title : String
  pub username : Option String
  pub added_by_telegram_user_id : TelegramId

unfoldable pub chat_by_id : Uuid → Database → Option MonitoredChat
chat_by_id id db = row_by (λ chat. chat.id) id db.monitored_chats

-- The row of a new chat: the values given and the column defaults.
abbrev pub new_chat : Uuid → Timestamp → NewMonitoredChat → MonitoredChat
new_chat fresh now chat = record {
  id = fresh;
  telegram_chat_id = chat.telegram_chat_id;
  title = chat.title;
  username = chat.username;
  chat_type = MonitoredChatType.group;
  status = MonitoredChatStatus.pending_verification;
  added_by_telegram_user_id = chat.added_by_telegram_user_id;
  added_at = now;
  last_verified_at = none;
  next_verification_at = now;
  consecutive_access_failures = 0;
  last_message_received_at = none;
  access_lost_at = none;
  last_error_code = none;
  last_error_message = none;
  updated_at = now;
}

-- The row that the chat has, and whether this call created it.
unfoldable pub add_pending :
    Uuid → Timestamp → NewMonitoredChat → Database → (MonitoredChat × Bool) × Database
add_pending fresh now chat db =
    elim (find_where (λ row. row.telegram_chat_id == chat.telegram_chat_id) db.monitored_chats) [
      | some row ↦ ((row, false), db)
      | none ↦ (
        (new_chat fresh now chat, true),
        record db { monitored_chats = db.monitored_chats ++ new_chat fresh now chat ∷ [] },
      )
    ]

abbrev pub is_active : MonitoredChatStatus → Bool
is_active MonitoredChatStatus.active = true
is_active _ = false

unfoldable pub get_active_id_by_telegram_chat_id : TelegramId → Database → Option Uuid
get_active_id_by_telegram_chat_id telegram_chat_id db =
    elim (find_where (λ chat. chat.telegram_chat_id == telegram_chat_id && is_active chat.status)
      db.monitored_chats) [ none ↦ none | some chat ↦ some chat.id ]

abbrev pub is_lost : ChatVerificationOutcome → Bool
is_lost ChatVerificationOutcome.access_lost = true
is_lost _ = false

-- `MonitoredChatStatus(result.outcome.value)`
abbrev pub status_of : ChatVerificationOutcome → MonitoredChatStatus
status_of ChatVerificationOutcome.active = MonitoredChatStatus.active
status_of ChatVerificationOutcome.read_only = MonitoredChatStatus.read_only
status_of ChatVerificationOutcome.access_lost = MonitoredChatStatus.access_lost
status_of ChatVerificationOutcome.verification_failed = MonitoredChatStatus.verification_failed

abbrev pub chat_type_of : ChatVerificationResult → MonitoredChatType
chat_type_of result =
    if result.is_forum
    then MonitoredChatType.forum_supergroup
    else if result.is_supergroup
    then MonitoredChatType.supergroup
    else MonitoredChatType.group

abbrev pub daily_interval : Timedelta
daily_interval = minutes 1440

abbrev pub confirmation_interval : Timedelta
confirmation_interval = minutes 5

-- `func.coalesce(at, func.now())`
abbrev pub coalesce : Option Timestamp → Timestamp → Timestamp
coalesce none now = now
coalesce (some at) now = at

-- `values` of `apply_verification`; the expressions read the row as it was.
abbrev pub verified : Timestamp → ChatVerificationResult → MonitoredChat → MonitoredChat
verified now result chat =
    let lost = is_lost result.outcome in
    let again = leb 1 chat.consecutive_access_failures in
    record chat {
      status =
          if lost
          then (if again then MonitoredChatStatus.access_lost else chat.status)
          else status_of result.outcome;
      chat_type = chat_type_of result;
      last_verified_at = some now;
      next_verification_at =
          now
          + (if lost
              then (if again then daily_interval else confirmation_interval)
              else daily_interval);
      consecutive_access_failures = if lost then chat.consecutive_access_failures + 1 else 0;
      updated_at = now;
      last_error_code = result.error_code;
      last_error_message = none;
      access_lost_at =
          if lost
          then (if again then some (coalesce chat.access_lost_at now) else chat.access_lost_at)
          else none;
    }

abbrev pub is_enabled_row : Uuid → MonitoredChat → Bool
is_enabled_row chat_id chat = chat.id == chat_id && is_enabled chat.status

-- `UPDATE … WHERE id = chat_id AND status != 'disabled' … RETURNING id`
abbrev pub update_enabled : Uuid → (MonitoredChat → MonitoredChat) → Database → Bool × Database
update_enabled chat_id f db = (
  any_where (is_enabled_row chat_id) db.monitored_chats,
  record db { monitored_chats = update_where (is_enabled_row chat_id) f db.monitored_chats },
)

unfoldable pub apply_verification :
    Timestamp → Uuid → ChatVerificationResult → Database → Bool × Database
apply_verification now chat_id result db = update_enabled chat_id (verified now result) db

unfoldable pub defer_verification : Timestamp → Uuid → Timedelta → Database → Bool × Database
defer_verification now chat_id retry_interval db =
    update_enabled chat_id
      (λ chat. record chat { next_verification_at = now + retry_interval; updated_at = now }) db

-- The statement of `request_chat_verification` of the outbound commands.
unfoldable pub request_verification : Timestamp → TelegramId → Database → Bool × Database
unfolding request_chat_verification
request_verification now telegram_chat_id db = request_chat_verification now telegram_chat_id db

unfoldable pub pause : Timestamp → Uuid → Database → Bool × Database
pause now chat_id db =
    update_enabled chat_id
      (λ chat. record chat { status = MonitoredChatStatus.disabled; updated_at = now }) db

unfoldable pub resume : Timestamp → Uuid → Database → Bool × Database
resume now chat_id db =
    let concerned : MonitoredChat → Bool =
      λ chat. chat.id == chat_id && not (is_enabled chat.status) in
    (
      any_where concerned db.monitored_chats,
      record db {
        monitored_chats =
            update_where concerned
              (λ chat. record chat {
                status = MonitoredChatStatus.pending_verification;
                next_verification_at = now;
                consecutive_access_failures = 0;
                updated_at = now;
              })
              db.monitored_chats;
      },
    )

unfoldable pub remove : Uuid → Database → Bool × Database
remove chat_id db = (
  any_where (λ chat. chat.id == chat_id) db.monitored_chats,
  record db { monitored_chats = delete_where (λ chat. chat.id == chat_id) db.monitored_chats },
)
