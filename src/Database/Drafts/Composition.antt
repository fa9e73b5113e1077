-- ===== src/Database/Drafts/Composition.antt =====
-- The composition of a reply: the statuses that a draft operation takes a question through.
use telegram_lead_assistent.Prelude.{
  ◌+◌, ◌≡◌, ◌≢◌, refl, subst, ◌∙◌, ap, Bool, true, false, some, [], ◌∷◌, ◌++◌, String, Result, ok,
  ◌>>=◌, >>=-eq-ok, guard->>-eq-ok, ok-injective, arith, ◌⊎◌, inl, inr,
}
use telegram_lead_assistent.Domain.{
  Exception, draft_unavailable, QuestionStatus, detected, waiting_for_draft, waiting_confirmation,
  cancelled,
}
use telegram_lead_assistent.Database.Models.{
  Uuid, Timestamp, DetectedQuestion, ReplyVersion, Database,
}
use telegram_lead_assistent.Database.Questions.{
  question_by_id, save_question, latest_version_number, add_version,
}
use telegram_lead_assistent.Database.Questions.Lookup.{
  question_by_id_sound, question_by_id-cong, question_by_id-save_self, question_by_id-save_ne,
}
use telegram_lead_assistent.Database.Drafts.{
  is_waiting_confirmation, is_waiting_for_draft, DraftDestination, StoredDraft, lock_question,
  destination_of, draft_version, can_open, open_draft, create_version, reopen_for_edit, cancel,
  cancel_locked,
}

pub data DraftKind : Type 0 where
  opening writing reopening cancelling : DraftKind

-- The moves that each kind of call of the operator's draft flow may make.
pub data DraftMove : DraftKind → QuestionStatus → QuestionStatus → Type 0 where
  start : DraftMove opening detected waiting_for_draft
  restart : DraftMove opening waiting_for_draft waiting_for_draft
  back : DraftMove opening waiting_confirmation waiting_for_draft
  reopen : DraftMove reopening waiting_confirmation waiting_for_draft
  compose : DraftMove writing waiting_for_draft waiting_confirmation
  cancel_draft : DraftMove cancelling waiting_for_draft cancelled
  cancel_preview : DraftMove cancelling waiting_confirmation cancelled

-- One question's status moves, and no other question changes in any way.
pub record MovesOnly (kind : DraftKind) (question_id : Uuid) (db db' : Database) : Type 0 where
  pub before : DetectedQuestion
  pub after : DetectedQuestion
  pub found : question_by_id question_id db ≡ some before
  pub stored : question_by_id question_id db' ≡ some after
  pub move : DraftMove kind before.status after.status
  pub others :
      (other : Uuid) → other ≢ question_id → question_by_id other db' ≡ question_by_id other db

pub lock_question-found :
    (question_id : Uuid) (db : Database) (question : DetectedQuestion)
    → lock_question question_id db ≡ ok question
    → (question_by_id question_id db ≡ some question) × (question.id ≡ question_id)
unfolding lock_question
lock_question-found question_id db question h =
    ground (arith, question_by_id_sound question_id db question)

-- Writing a locked question with another status is such a move, in a database that differs only in
-- other tables.
set_status-MovesOnly :
    (kind : DraftKind) (question_id : Uuid) (db db' : Database) (question : DetectedQuestion)
    (status : QuestionStatus)
    → lock_question question_id db ≡ ok question
    → db'.detected_questions ≡ db.detected_questions
    → DraftMove kind question.status status
    → MovesOnly kind question_id db (save_question (record question { status = status }) db')
set_status-MovesOnly kind question_id db db' question status locked same move =
    let (found, id) = lock_question-found question_id db question locked in
    record {
      before = question;
      after = record question { status = status };
      found = found;
      stored =
          question_by_id-save_self question_id question (record question { status = status }) db'
            (kept question_id ∙ found) id;
      move = move;
      others = λ other apart.
          question_by_id-save_ne other (record question { status = status }) db'
            (λ e. apart (e ∙ id))
          ∙ kept other;
    }
  where
    kept : (id : Uuid) → question_by_id id db' ≡ question_by_id id db
    kept id = question_by_id-cong id db db' same

-- What the locked reading of an operation gives, if the operation succeeds.
locked_first {ℓ} :
    {A : Type ℓ} (question_id : Uuid) (db : Database) (rest : DetectedQuestion → Result Exception A)
    (a : A)
    → (lock_question question_id db >>= rest) ≡ ok a
    → (question : DetectedQuestion) × (lock_question question_id db ≡ ok question)
      × (rest question ≡ ok a)
locked_first question_id db rest a h = >>=-eq-ok (lock_question question_id db) rest h

open_move :
    (status : QuestionStatus) → can_open status ≡ true → DraftMove opening status waiting_for_draft
open_move detected h = start
open_move waiting_for_draft h = restart
open_move waiting_confirmation h = back
open_move _ h = cc

reopen_move :
    (status : QuestionStatus)
    → is_waiting_confirmation status ≡ true
    → DraftMove reopening status waiting_for_draft
reopen_move waiting_confirmation h = reopen
reopen_move _ h = cc

compose_move :
    (status : QuestionStatus)
    → is_waiting_for_draft status ≡ true
    → DraftMove writing status waiting_confirmation
compose_move waiting_for_draft h = compose
compose_move _ h = cc

pub open_draft-MovesOnly :
    (question_id : Uuid) (db db' : Database) (shown : DraftDestination)
    → open_draft question_id db ≡ ok (shown, db')
    → MovesOnly opening question_id db db'
unfolding open_draft
open_draft-MovesOnly question_id db db' shown h =
    let (question, locked, rest) = locked_first question_id db _ (shown, db') h in
    let (allowed, rest') = guard->>-eq-ok (can_open question.status) draft_unavailable _ rest in
    let (destination, e, last) =
      >>=-eq-ok (destination_of (record question { status = waiting_for_draft }) db) _ rest' in
    subst (MovesOnly opening question_id db) (ap (λ r. r.1) (ok-injective last)) (
      set_status-MovesOnly opening question_id db db question waiting_for_draft locked refl
        (open_move question.status allowed))

pub reopen_for_edit-MovesOnly :
    (question_id : Uuid) (db db' : Database)
    → reopen_for_edit question_id db ≡ ok db'
    → MovesOnly reopening question_id db db'
unfolding reopen_for_edit
reopen_for_edit-MovesOnly question_id db db' h =
    let (question, locked, rest) = locked_first question_id db _ db' h in
    let (allowed, last) =
      guard->>-eq-ok (is_waiting_confirmation question.status) draft_unavailable _ rest in
    subst (MovesOnly reopening question_id db) (ok-injective last) (
      set_status-MovesOnly reopening question_id db db question waiting_for_draft locked refl
        (reopen_move question.status allowed))

-- Adding a version leaves every other table.
add_version-ok :
    (version : ReplyVersion) (db db' : Database)
    → add_version version db ≡ ok db'
    → db' ≡ record db { reply_versions = db.reply_versions ++ version ∷ [] }
unfolding add_version
add_version-ok version db db' h = ground arith

pub create_version-MovesOnly :
    (fresh : Uuid) (now : Timestamp) (question_id : Uuid) (text : String) (db db' : Database)
    (stored : StoredDraft)
    → create_version fresh now question_id text db ≡ ok (stored, db')
    → MovesOnly writing question_id db db'
unfolding create_version
create_version-MovesOnly fresh now question_id text db db' stored h =
    let (question, locked, rest) = locked_first question_id db _ (stored, db') h in
    let (allowed, rest') =
      guard->>-eq-ok (is_waiting_for_draft question.status) draft_unavailable _ rest in
    let version =
      draft_version fresh now question_id (latest_version_number question_id db + 1) text in
    let (added, e, rest'') = >>=-eq-ok (add_version version db) _ rest' in
    let (destination, _, last) =
      >>=-eq-ok (destination_of (record question { status = waiting_confirmation }) added) _
        rest'' in
    subst (MovesOnly writing question_id db) (ap (λ r. r.1) (ok-injective last)) (
      set_status-MovesOnly writing question_id db added question waiting_confirmation locked
        (ap (λ d. d.detected_questions) (add_version-ok version db added e))
        (compose_move question.status allowed))

cancel_locked-moves :
    (status : QuestionStatus) (question : DetectedQuestion) (db db' : Database) (done : Bool)
    → cancel_locked status question db ≡ ok (done, db')
    → ((done ≡ false) × (status ≡ cancelled) × (db' ≡ db))
      ⊎ ((done ≡ true)
          × DraftMove cancelling status cancelled
          × (save_question (record question { status = cancelled }) db ≡ db'))
unfolding cancel_locked
cancel_locked-moves cancelled question db db' done h = inl (ground arith, refl, ground arith)
cancel_locked-moves waiting_for_draft question db db' done h =
    inr (ground arith, cancel_draft, ground arith)
cancel_locked-moves waiting_confirmation question db db' done h =
    inr (ground arith, cancel_preview, ground arith)
cancel_locked-moves _ question db db' done h = cc

-- The question was cancelled.
abbrev pub IsCancelled : Uuid → Database → Type 0
IsCancelled question_id db =
    (question : DetectedQuestion) × (question_by_id question_id db ≡ some question)
    × (question.status ≡ cancelled)

-- A cancellation moves the question, or reports that it was cancelled already and changes nothing.
pub cancel-MovesOnly :
    (question_id : Uuid) (db db' : Database) (done : Bool)
    → cancel question_id db ≡ ok (done, db')
    → ((done ≡ false) × IsCancelled question_id db × (db' ≡ db))
      ⊎ ((done ≡ true) × MovesOnly cancelling question_id db db')
unfolding cancel
cancel-MovesOnly question_id db db' done h =
    let (question, locked, rest) = locked_first question_id db _ (done, db') h in
    elim (cancel_locked-moves question.status question db db' done rest) [
      | inl (d, c, e) ↦
          inl (d, (question, (lock_question-found question_id db question locked).0, c), e)
      | inr (d, move, e) ↦ inr (
        d,
        subst (MovesOnly cancelling question_id db) e
            (set_status-MovesOnly cancelling question_id db db question cancelled locked refl move),
      )
    ]
