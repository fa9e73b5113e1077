-- ===== src/Database/Drafts/Preview.antt =====
-- The preview of a written draft.
use telegram_lead_assistent.Prelude.{◌+◌, ◌≡◌, refl, ◌∙◌, some, [], ◌∷◌, ◌++◌, String, ok, arith}
use telegram_lead_assistent.Domain.{QuestionStatus, waiting_for_draft, waiting_confirmation}
use telegram_lead_assistent.Database.Models.{Uuid, Timestamp, DetectedQuestion, Database}
use telegram_lead_assistent.Database.Questions.{
  question_by_id, save_question, latest_version_number,
}
use telegram_lead_assistent.Database.Questions.Lookup.{
  question_by_id-cong, question_by_id-save_self,
}
use telegram_lead_assistent.Database.Questions.Versions.{add_version_fresh, latest_version-append}
use telegram_lead_assistent.Database.Drafts.{
  DraftDestination, StoredDraft, lock_question, destination_of, draft_version, create_version,
  latest,
}
use telegram_lead_assistent.Database.Drafts.Composition.{lock_question-found}

-- The destination does not depend on the status, nor on the tables of questions and versions.
destination_of-status :
    (question : DetectedQuestion) (status : QuestionStatus) (db db' : Database)
    → db'.monitored_chats ≡ db.monitored_chats
    → destination_of (record question { status = status }) db' ≡ destination_of question db
unfolding destination_of
destination_of-status question status db db' e = ground arith

lock_question-save :
    (question_id : Uuid) (old new : DetectedQuestion) (db : Database)
    → question_by_id question_id db ≡ some old
    → new.id ≡ question_id
    → lock_question question_id (save_question new db) ≡ ok new
unfolding lock_question
lock_question-save question_id old new db found e =
    ground (arith, question_by_id-save_self question_id old new db found e)

-- Writing a draft succeeds for a question that waits for one and whose chat is known: numbering
-- never collides. The number is one above the last, the question then waits for confirmation, and
-- asking for the latest draft returns exactly the text and the number that were stored.
pub create_version-latest :
    (fresh : Uuid) (now : Timestamp) (question_id : Uuid) (text : String) (db : Database)
    (question : DetectedQuestion) (destination : DraftDestination)
    → lock_question question_id db ≡ ok question
    → question.status ≡ waiting_for_draft
    → destination_of question db ≡ ok destination
    → (stored : StoredDraft) × (db' : Database) × (create_version fresh now question_id text db
        ≡ ok (stored, db'))
      × (stored.text ≡ text)
      × (stored.version_number ≡ latest_version_number question_id db + 1)
      × (question_by_id question_id db' ≡ some (record question { status = waiting_confirmation }))
      × (latest question_id db' ≡ ok (some stored))
unfolding create_version latest
create_version-latest fresh now question_id text db question destination locked status shown =
    let number = latest_version_number question_id db + 1 in
    let version = draft_version fresh now question_id number text in
    let added = record db { reply_versions = db.reply_versions ++ version ∷ [] } in
    let waiting = record question { status = waiting_confirmation } in
    let stored : StoredDraft = record {
      destination = destination;
      version_number = number;
      text = text;
    } in
    let (found, id) = lock_question-found question_id db question locked in
    let read : lock_question question_id (save_question waiting added) ≡ ok waiting =
      lock_question-save question_id question waiting added
        (question_by_id-cong question_id db added refl ∙ found) id in
    let last =
      latest_version-append version db (save_question waiting added) (omega arith)
        (unfold save_question in refl) in
    let chat : destination_of waiting added ≡ ok destination =
      destination_of-status question waiting_confirmation db added refl ∙ shown in
    let chat' : destination_of waiting (save_question waiting added) ≡ ok destination =
      destination_of-status question waiting_confirmation db (save_question waiting added)
        (unfold save_question in refl)
      ∙ shown in
    (
      stored,
      save_question waiting added,
      rw (locked, status) (rw (add_version_fresh version db (omega arith)) (rw chat refl)),
      refl,
      refl,
      (lock_question-found question_id (save_question waiting added) waiting read).0,
      rw (read, last) (rw chat' refl),
    )
