-- ===== src/Database/Chats/Verification.antt =====
-- The status of a chat after any number of verifications.
use telegram_lead_assistent.Prelude.{
  ℕ, ◌+◌, ◌==◌, leb, if◌then◌else◌, ◌≡◌, refl, ◌∙◌, true, some, List, [], ◌∷◌, arith,
  find_where-update, find_where_sound, row_by,
}
use telegram_lead_assistent.Domain.{MonitoredChatStatus}
use telegram_lead_assistent.Listener.Mtproto.{ChatVerificationOutcome, ChatVerificationResult}
use telegram_lead_assistent.Database.Models.{Uuid, Timestamp, MonitoredChat, Database}
use telegram_lead_assistent.Database.Commands.{is_enabled}
use telegram_lead_assistent.Database.Chats.{
  chat_by_id, is_lost, status_of, verified, is_enabled_row, apply_verification,
}

-- Verifications of one chat with the times of their transactions, the last one first.
abbrev pub Verifications : Type 0
Verifications = List (Timestamp × ChatVerificationResult)

pub apply_all : Uuid → Verifications → Database → Database
apply_all chat_id [] db = db
apply_all chat_id ((now, result) ∷ earlier) db =
    (apply_verification now chat_id result (apply_all chat_id earlier db)).1

-- How many of the last verifications in a row lost access.
pub losses : Verifications → ℕ
losses [] = 0
losses ((now, result) ∷ earlier) = if is_lost result.outcome then losses earlier + 1 else 0

-- What the last verification that did not lose access found; before the first, the status at the start.
pub last_found : MonitoredChatStatus → Verifications → MonitoredChatStatus
last_found status [] = status
last_found status ((now, result) ∷ earlier) =
    if is_lost result.outcome then last_found status earlier else status_of result.outcome

-- The status that the operator is shown: access is lost by two losses in a row.
abbrev pub confirmed_status : MonitoredChatStatus → Verifications → MonitoredChatStatus
confirmed_status status verifications =
    if leb 2 (losses verifications)
    then MonitoredChatStatus.access_lost
    else last_found status verifications

chat_by_id-apply_verification :
    (now : Timestamp) (chat_id : Uuid) (result : ChatVerificationResult) (db : Database)
    (chat : MonitoredChat)
    → chat_by_id chat_id db ≡ some chat
    → is_enabled chat.status ≡ true
    → chat_by_id chat_id (apply_verification now chat_id result db).1
      ≡ some (verified now result chat)
unfolding chat_by_id row_by apply_verification
chat_by_id-apply_verification now chat_id result db chat found enabled =
    find_where-update (is_enabled_row chat_id) (λ c. c.id == chat_id) (verified now result)
      (λ c h. refl) db.monitored_chats
    ∙ rw found (
        ground (
          arith,
          find_where_sound (λ (c : MonitoredChat). c.id == chat_id) db.monitored_chats chat found,
        ))

is_enabled-status_of : (outcome : ChatVerificationOutcome) → is_enabled (status_of outcome) ≡ true
is_enabled-status_of ChatVerificationOutcome.active = refl
is_enabled-status_of ChatVerificationOutcome.read_only = refl
is_enabled-status_of ChatVerificationOutcome.access_lost = refl
is_enabled-status_of ChatVerificationOutcome.verification_failed = refl

-- After any verifications of an enabled chat without failures, its count is that of the losses at
-- the end, and its status is lost access if these are two or more, and what the last other
-- verification found (or the status at the start) if not; the chat is still enabled.
pub apply_all-confirmed :
    (verifications : Verifications) (chat_id : Uuid) (db : Database) (chat : MonitoredChat)
    → chat_by_id chat_id db ≡ some chat
    → is_enabled chat.status ≡ true
    → chat.consecutive_access_failures ≡ 0
    → (chat' : MonitoredChat) × (chat_by_id chat_id (apply_all chat_id verifications db)
        ≡ some chat')
      × (chat'.consecutive_access_failures ≡ losses verifications)
      × (chat'.status ≡ confirmed_status chat.status verifications)
      × (is_enabled chat'.status ≡ true)
unfolding apply_all losses last_found
apply_all-confirmed [] chat_id db chat found enabled none_lost =
    (chat, found, none_lost, refl, enabled)
apply_all-confirmed ((now, result) ∷ earlier) chat_id db chat found enabled none_lost =
    let (c, f, count, status, on) =
      apply_all-confirmed earlier chat_id db chat found enabled none_lost in
    (
      verified now result c,
      chat_by_id-apply_verification now chat_id result (apply_all chat_id earlier db) c f on,
      ground arith,
      ground arith,
      ground (arith, is_enabled-status_of result.outcome),
    )
