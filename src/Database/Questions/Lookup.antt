-- ===== src/Database/Questions/Lookup.antt =====
-- Reading a question by its identifier after a write.
use telegram_lead_assistent.Prelude.{
  ◌≡◌, ◌≢◌, ap, some, row_by, row_by-put_row_self, row_by-put_row_ne, row_by_sound,
}
use telegram_lead_assistent.Database.Models.{Uuid, DetectedQuestion, Database}
use telegram_lead_assistent.Database.Questions.{question_by_id, save_question}

pub question_by_id_sound :
    (id : Uuid) (db : Database) (question : DetectedQuestion)
    → question_by_id id db ≡ some question
    → question.id ≡ id
unfolding question_by_id
question_by_id_sound id db question e =
    (row_by_sound (λ q. q.id) id db.detected_questions question e).1

-- Only the table of the questions matters.
pub question_by_id-cong :
    (id : Uuid) (db db' : Database)
    → db'.detected_questions ≡ db.detected_questions
    → question_by_id id db' ≡ question_by_id id db
unfolding question_by_id
question_by_id-cong id db db' e = ap (row_by (λ q. q.id) id) e

pub question_by_id-save_self :
    (id : Uuid) (old new : DetectedQuestion) (db : Database)
    → question_by_id id db ≡ some old
    → new.id ≡ id
    → question_by_id id (save_question new db) ≡ some new
unfolding question_by_id save_question
question_by_id-save_self id old new db found e =
    row_by-put_row_self (λ q. q.id) id old new db.detected_questions found e

pub question_by_id-save_ne :
    (id : Uuid) (new : DetectedQuestion) (db : Database)
    → id ≢ new.id
    → question_by_id id (save_question new db) ≡ question_by_id id db
unfolding question_by_id save_question
question_by_id-save_ne id new db apart =
    row_by-put_row_ne (λ q. q.id) id new db.detected_questions apart
