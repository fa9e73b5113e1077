-- ===== src/Listener/ActiveChats.antt =====
-- app/listener/active_chats.py: the snapshot of the active chats that an event is first checked against.
-- A cancellation, which ends the process, is left out.
use telegram_lead_assistent.Prelude.{
  ◌==◌, Bool, true, false, List, map, Result, ok, err, any_where, select_where,
}
use telegram_lead_assistent.Domain.{Exception}
use telegram_lead_assistent.Database.Models.{TelegramId, Database}
use telegram_lead_assistent.Database.Chats.{is_active}

-- `_chat_ids`
abbrev pub ActiveChatAllowList : Type 0
ActiveChatAllowList = List TelegramId

-- `MonitoredChatRepository.list_active_telegram_chat_ids`
unfoldable pub list_active_telegram_chat_ids : Database → List TelegramId
list_active_telegram_chat_ids db =
    map (λ chat. chat.telegram_chat_id)
      (select_where (λ chat. is_active chat.status) db.monitored_chats)

-- `__contains__`
unfoldable pub contains : TelegramId → ActiveChatAllowList → Bool
contains telegram_chat_id chat_ids = any_where (λ id. id == telegram_chat_id) chat_ids

-- `refresh`, by what the loader comes to: whether it succeeded, and the snapshot.
unfoldable pub refresh :
    Result Exception (List TelegramId) → ActiveChatAllowList → Bool × ActiveChatAllowList
refresh (ok loaded) chat_ids = (true, loaded)
refresh (err e) chat_ids = (false, chat_ids)
