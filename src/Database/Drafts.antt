-- ===== src/Database/Drafts.antt =====
-- app/database/repositories/reply_drafts.py: `ReplyDraftRepository`. What an operation wrote before
-- it raises is rolled back with its transaction, so an error comes without a database.
pub mod Composition
pub mod Flow
pub mod Preview
use telegram_lead_assistent.Prelude.{
  ℕ, ◌+◌, ◌==◌, Bool, true, false, Option, none, some, String, Result, ok, err, ◌>>=◌, ◌>>◌, guard,
  row_by, find_where,
}
use telegram_lead_assistent.Domain.{
  Exception, draft_unavailable, QuestionStatus, detected, waiting_for_draft, waiting_confirmation,
  cancelled, draft,
}
use telegram_lead_assistent.Database.Models.{
  Uuid, Timestamp, MonitoredChat, DetectedQuestion, ReplyVersion, Database,
}
use telegram_lead_assistent.Database.Questions.{
  question_by_id, save_question, latest_version, latest_version_number, add_version,
}

pub record DraftDestination : Type 0 where
  pub question_id : Uuid
  pub chat_title : String
  pub topic_title : Option String

pub record StoredDraft : Type 0 where
  pub destination : DraftDestination
  pub version_number : ℕ
  pub text : String

unfoldable pub lock_question : Uuid → Database → Result Exception DetectedQuestion
lock_question question_id db = elim (question_by_id question_id db) [
  | none ↦ err draft_unavailable
  | some question ↦ ok question
]

-- No row of the chats has the identifier `NULL`.
chat_of : Option Uuid → Database → Option MonitoredChat
chat_of none db = none
chat_of (some id) db = row_by (λ chat. chat.id) id db.monitored_chats

unfoldable pub destination_of : DetectedQuestion → Database → Result Exception DraftDestination
unfolding chat_of
destination_of question db = elim (chat_of question.monitored_chat_id db) [
  | none ↦ err draft_unavailable
  | some chat ↦ ok (record {
    question_id = question.id;
    chat_title = chat.title;
    topic_title = question.topic_title;
  })
]

abbrev pub can_open : QuestionStatus → Bool
can_open detected = true
can_open waiting_for_draft = true
can_open waiting_confirmation = true
can_open _ = false

abbrev pub is_waiting_for_draft : QuestionStatus → Bool
is_waiting_for_draft waiting_for_draft = true
is_waiting_for_draft _ = false

abbrev pub is_waiting_confirmation : QuestionStatus → Bool
is_waiting_confirmation waiting_confirmation = true
is_waiting_confirmation _ = false

unfoldable pub open_draft : Uuid → Database → Result Exception (DraftDestination × Database)
open_draft question_id db = do
  question ← lock_question question_id db
  guard (can_open question.status) draft_unavailable
  let opened = record question { status = waiting_for_draft }
  destination ← destination_of opened db
  ok (destination, save_question opened db)

-- `fresh` and `now` are the column defaults of the new row.
abbrev pub draft_version : Uuid → Timestamp → Uuid → ℕ → String → ReplyVersion
draft_version fresh now question_id number text = record {
  id = fresh;
  question_id = question_id;
  version_number = number;
  text = text;
  action = draft;
  created_at = now;
}

unfoldable pub create_version :
    Uuid → Timestamp → Uuid → String → Database → Result Exception (StoredDraft × Database)
create_version fresh now question_id text db = do
  question ← lock_question question_id db
  guard (is_waiting_for_draft question.status) draft_unavailable
  let version_number = latest_version_number question_id db + 1
  db' ← add_version (draft_version fresh now question_id version_number text) db
  let waiting = record question { status = waiting_confirmation }
  destination ← destination_of waiting db'
  ok (
    record { destination = destination; version_number = version_number; text = text },
    save_question waiting db',
  )

unfoldable pub reopen_for_edit : Uuid → Database → Result Exception Database
reopen_for_edit question_id db = do
  question ← lock_question question_id db
  guard (is_waiting_confirmation question.status) draft_unavailable
  ok (save_question (record question { status = waiting_for_draft }) db)

-- The three ways of `cancel`, by the status of the locked question.
cancel_locked : QuestionStatus → DetectedQuestion → Database → Result Exception (Bool × Database)
cancel_locked cancelled question db = ok (false, db)
cancel_locked waiting_for_draft question db =
    ok (true, save_question (record question { status = cancelled }) db)
cancel_locked waiting_confirmation question db =
    ok (true, save_question (record question { status = cancelled }) db)
cancel_locked _ question db = err draft_unavailable

unfoldable pub cancel : Uuid → Database → Result Exception (Bool × Database)
unfolding cancel_locked
cancel question_id db = do
  question ← lock_question question_id db
  cancel_locked question.status question db

-- The text of the last version with its destination; the database is only read.
unfoldable pub latest : Uuid → Database → Result Exception (Option StoredDraft)
latest question_id db = do
  question ← lock_question question_id db
  elim (latest_version question_id db) [
    | none ↦ ok none
    | some version ↦ do
      destination ← destination_of question db
      ok (
          some (record {
            destination = destination;
            version_number = version.version_number;
            text = version.text;
          }))
  ]
