-- ===== src/Database/Questions.antt =====
-- The rows that the reply repositories share: detected questions and reply versions
-- (app/database/models/entities.py), with the queries on them.
pub mod Versions
pub mod Lookup
use telegram_lead_assistent.Prelude.{
  ℕ, ◌==◌, ◌≡◌, Bool, true, false, ◌&&◌, Option, none, some, List, [], ◌∷◌, ◌++◌, Result, ok, err,
  if◌then◌else◌, row_by, put_row, first_where, select_where, max_of, any_where, ltb,
}
use telegram_lead_assistent.Domain.{Exception, integrity_error, QuestionStatus}
use telegram_lead_assistent.Database.Models.{
  Uuid, Timestamp, DetectedQuestion, ReplyVersion, Database,
}

-- `select(DetectedQuestion).where(id == …).with_for_update()`
unfoldable pub question_by_id : Uuid → Database → Option DetectedQuestion
question_by_id id db = row_by (λ question. question.id) id db.detected_questions

unfoldable pub save_question : DetectedQuestion → Database → Database
save_question question db = record db {
  detected_questions = put_row (λ row. row.id) question db.detected_questions;
}

abbrev pub of_question : Uuid → ReplyVersion → Bool
of_question question_id version = version.question_id == question_id

-- `ORDER BY version_number DESC`
abbrev pub newer : ReplyVersion → ReplyVersion → Bool
newer a b = ltb b.version_number a.version_number

-- The last version of a question, of whatever action.
unfoldable pub latest_version : Uuid → Database → Option ReplyVersion
latest_version question_id db = first_where newer (of_question question_id) db.reply_versions

-- `select(func.max(ReplyVersion.version_number))`, and 0 for no version.
unfoldable pub latest_version_number : Uuid → Database → ℕ
latest_version_number question_id db =
    elim (max_of (λ version. version.version_number)
      (select_where (of_question question_id) db.reply_versions)) [
        | none ↦ 0
        | some latest ↦ latest
      ]

abbrev pub same_version : ReplyVersion → ReplyVersion → Bool
same_version a b = a.question_id == b.question_id && a.version_number == b.version_number

-- An insert into `reply_versions`, whose numbers are unique in a question.
unfoldable pub add_version : ReplyVersion → Database → Result Exception Database
add_version version db =
    if any_where (same_version version) db.reply_versions
    then err integrity_error
    else ok (record db { reply_versions = db.reply_versions ++ version ∷ [] })
