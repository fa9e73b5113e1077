-- ===== src/Database/Fingerprints.antt =====
-- app/database/queue.py, `register_fingerprint`: the rolling window that suppresses repeated texts.
-- `now` is the database's clock, which stamps the row; `clock` is the application's, which the
-- window is measured by.
use telegram_lead_assistent.Prelude.{
  ◌+◌, ◌==◌, leb, if◌then◌else◌, Bool, true, ◌&&◌, Option, none, some, List, [], ◌∷◌, String,
  str_eq, eq_iff, ◌≡◌, arith, find_where,
}
use telegram_lead_assistent.Database.Models.{
  TelegramId, Timestamp, Timedelta, RecentMessageFingerprint, Database,
}

abbrev pub same_content : TelegramId → String → RecentMessageFingerprint → Bool
same_content chat_id fingerprint row =
    row.telegram_chat_id == chat_id && str_eq row.fingerprint fingerprint

-- `SELECT last_seen_at … WHERE …`, the row before this statement.
unfoldable pub last_seen : TelegramId → String → Database → Option Timestamp
last_seen chat_id fingerprint db =
    elim (find_where (same_content chat_id fingerprint) db.recent_message_fingerprints) [
      | none ↦ none
      | some row ↦ some row.last_seen_at
    ]

-- `INSERT … ON CONFLICT DO UPDATE SET last_seen_at = now()`
unfoldable pub touch :
    Timestamp → TelegramId → String → List RecentMessageFingerprint → List RecentMessageFingerprint
touch now chat_id fingerprint [] =
    record { telegram_chat_id = chat_id; fingerprint = fingerprint; last_seen_at = now } ∷ []
touch now chat_id fingerprint (row ∷ rows) =
    if same_content chat_id fingerprint row
    then record row { last_seen_at = now } ∷ rows
    else row ∷ touch now chat_id fingerprint rows

-- `prior is None or prior <= datetime.now(UTC) - window`
abbrev outside_window : Timestamp → Timedelta → Option Timestamp → Bool
outside_window clock window none = true
outside_window clock window (some prior) = leb (prior + window) clock

unfoldable pub register_fingerprint :
    Timestamp → Timestamp → TelegramId → String → Timedelta → Database → Bool × Database
unfolding last_seen touch
register_fingerprint now clock chat_id fingerprint window db = (
  outside_window clock window (last_seen chat_id fingerprint db),
  record db {
    recent_message_fingerprints = touch now chat_id fingerprint db.recent_message_fingerprints;
  },
)

find-touch :
    (now : Timestamp) (chat_id : TelegramId) (fingerprint : String)
    (rows : List RecentMessageFingerprint) (chat' : TelegramId) (other : String)
    → elim (find_where (same_content chat' other) (touch now chat_id fingerprint rows))
        as (λ _. Option Timestamp) [ none ↦ none | some row ↦ some row.last_seen_at ]
      ≡ (if chat_id == chat' && str_eq fingerprint other
          then some now
          else elim (find_where (same_content chat' other) rows) as (λ _. Option Timestamp) [
            | none ↦ none
            | some row ↦ some row.last_seen_at
          ])
unfolding touch find_where
find-touch now chat_id fingerprint [] chat' other = ground arith
find-touch now chat_id fingerprint (row ∷ rows) chat' other = ground (
  arith,
  find-touch now chat_id fingerprint rows chat' other,
  eq_iff row.fingerprint fingerprint,
  eq_iff row.fingerprint other,
  eq_iff fingerprint other,
)

-- Whatever a registration answers, the text is seen at its time, and every other text as before.
pub last_seen-register :
    (now clock : Timestamp) (chat_id : TelegramId) (fingerprint : String) (window : Timedelta)
    (db : Database) (chat' : TelegramId) (other : String)
    → last_seen chat' other (register_fingerprint now clock chat_id fingerprint window db).1 ≡ (
        if chat_id == chat' && str_eq fingerprint other then some now else last_seen chat' other db)
unfolding register_fingerprint
last_seen-register now clock chat_id fingerprint window db chat' other =
    find-touch now chat_id fingerprint db.recent_message_fingerprints chat' other

-- After a registration at `now`, admitted or not, the same text of the same chat is admitted again
-- exactly when the application's clock has passed the whole window since; a different text or chat is answered as it
-- would have been without the registration.
pub register_again :
    (now clock : Timestamp) (chat_id : TelegramId) (fingerprint : String) (window : Timedelta)
    (db : Database) (later clock' : Timestamp) (chat' : TelegramId) (other : String)
    → (register_fingerprint later clock' chat' other window
        (register_fingerprint now clock chat_id fingerprint window db).1).0
      ≡ (if chat_id == chat' && str_eq fingerprint other
          then leb (now + window) clock'
          else (register_fingerprint later clock' chat' other window db).0)
unfolding register_fingerprint
register_again now clock chat_id fingerprint window db later clock' chat' other =
    ground (arith, find-touch now chat_id fingerprint db.recent_message_fingerprints chat' other)
