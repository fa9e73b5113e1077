-- ===== src/Database/Chats/Paused.antt =====
-- A chat that the operator paused.
use telegram_lead_assistent.Prelude.{
  ◌==◌, ◌≡◌, refl, ◌∙◌, true, false, not, some, List, [], ◌∷◌, arith, ◌&&◌, find_where-update,
  find_where_sound, row_by,
}
use telegram_lead_assistent.Domain.{MonitoredChatStatus}
use telegram_lead_assistent.Listener.Mtproto.{ChatVerificationResult}
use telegram_lead_assistent.Database.Models.{
  Uuid, TelegramId, Timestamp, Timedelta, MonitoredChat, Database,
}
use telegram_lead_assistent.Database.Commands.{is_enabled, request_chat_verification}
use telegram_lead_assistent.Database.Chats.{
  chat_by_id, verified, is_enabled_row, apply_verification, defer_verification,
  request_verification, pause, resume,
}

-- What the listener does to the chats, in whatever order.
pub data ListenerCall : Type 0 where
  applies : (now : Timestamp) (chat_id : Uuid) (result : ChatVerificationResult) → ListenerCall
  defers : (now : Timestamp) (chat_id : Uuid) (retry_interval : Timedelta) → ListenerCall
  requests : (now : Timestamp) (telegram_chat_id : TelegramId) → ListenerCall

call_listener : ListenerCall → Database → Database
call_listener (applies now chat_id result) db = (apply_verification now chat_id result db).1
call_listener (defers now chat_id retry_interval) db =
    (defer_verification now chat_id retry_interval db).1
call_listener (requests now telegram_chat_id) db = (request_verification now telegram_chat_id db).1

pub call_all : List ListenerCall → Database → Database
call_all [] db = db
call_all (call ∷ rest) db = call_all rest (call_listener call db)

call_listener-paused :
    (call : ListenerCall) (id : Uuid) (chat : MonitoredChat) (db : Database)
    → chat_by_id id db ≡ some chat
    → is_enabled chat.status ≡ false
    → chat_by_id id (call_listener call db) ≡ some chat
unfolding call_listener chat_by_id row_by apply_verification defer_verification request_verification
    request_chat_verification
call_listener-paused (applies now chat_id result) id chat db found off =
    find_where-update (is_enabled_row chat_id) (λ c. c.id == id) (verified now result) (λ c h. refl)
      db.monitored_chats
    ∙ rw found (ground (arith, off))
call_listener-paused (defers now chat_id retry_interval) id chat db found off =
    find_where-update (is_enabled_row chat_id) (λ c. c.id == id) _ (λ c h. refl) db.monitored_chats
    ∙ rw found (ground (arith, off))
call_listener-paused (requests now telegram_chat_id) id chat db found off =
    find_where-update (λ c. c.telegram_chat_id == telegram_chat_id && is_enabled c.status)
      (λ c. c.id == id) _ (λ c h. refl) db.monitored_chats
    ∙ rw found (ground (arith, off))

call_all-paused :
    (calls : List ListenerCall) (id : Uuid) (chat : MonitoredChat) (db : Database)
    → chat_by_id id db ≡ some chat
    → is_enabled chat.status ≡ false
    → chat_by_id id (call_all calls db) ≡ some chat
unfolding call_all
call_all-paused [] id chat db found off = found
call_all-paused (call ∷ rest) id chat db found off =
    call_all-paused rest id chat (call_listener call db)
      (call_listener-paused call id chat db found off) off

-- The row of a paused chat.
abbrev pub paused : Timestamp → MonitoredChat → MonitoredChat
paused now chat = record chat { status = MonitoredChatStatus.disabled; updated_at = now }

-- The row of a resumed chat: to be verified at once, with no failures, and not active until it is.
abbrev pub resumed : Timestamp → MonitoredChat → MonitoredChat
resumed now chat = record chat {
  status = MonitoredChatStatus.pending_verification;
  next_verification_at = now;
  consecutive_access_failures = 0;
  updated_at = now;
}

chat_by_id-pause :
    (now : Timestamp) (id : Uuid) (chat : MonitoredChat) (db : Database)
    → chat_by_id id db ≡ some chat
    → is_enabled chat.status ≡ true
    → chat_by_id id (pause now id db).1 ≡ some (paused now chat)
unfolding chat_by_id row_by pause
chat_by_id-pause now id chat db found on =
    find_where-update (is_enabled_row id) (λ c. c.id == id) (paused now) (λ c h. refl)
      db.monitored_chats
    ∙ rw found (
        ground (
          arith,
          find_where_sound (λ (c : MonitoredChat). c.id == id) db.monitored_chats chat found,
        ))

chat_by_id-resume :
    (now : Timestamp) (id : Uuid) (chat : MonitoredChat) (db : Database)
    → chat_by_id id db ≡ some chat
    → is_enabled chat.status ≡ false
    → chat_by_id id (resume now id db).1 ≡ some (resumed now chat)
unfolding chat_by_id row_by resume
chat_by_id-resume now id chat db found off =
    find_where-update (λ c. c.id == id && not (is_enabled c.status)) (λ c. c.id == id) (resumed now)
      (λ c h. refl) db.monitored_chats
    ∙ rw found (
        ground (
          arith,
          find_where_sound (λ (c : MonitoredChat). c.id == id) db.monitored_chats chat found,
        ))

-- A chat that is paused stays as it is, whatever verifications the listener applies, defers or
-- requests of whatever chats, until it is resumed; then it waits for a verification, without failures.
pub resume_after_pause :
    (start later : Timestamp) (id : Uuid) (chat : MonitoredChat) (db : Database)
    (calls : List ListenerCall)
    → chat_by_id id db ≡ some chat
    → is_enabled chat.status ≡ true
    → let between = call_all calls (pause start id db).1 in
      (chat_by_id id between ≡ some (paused start chat))
      × (chat_by_id id (resume later id between).1 ≡ some (resumed later (paused start chat)))
resume_after_pause start later id chat db calls found on =
    let between = call_all calls (pause start id db).1 in
    let kept =
      call_all-paused calls id (paused start chat) (pause start id db).1
        (chat_by_id-pause start id chat db found on) refl in
    (kept, chat_by_id-resume later id (paused start chat) between kept refl)
