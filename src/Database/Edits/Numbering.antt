-- ===== src/Database/Edits/Numbering.antt =====
-- The version number that an edit reserves, and what takes it.
use telegram_lead_assistent.Prelude.{
  ◌+◌, ◌≤◌, ◌≡◌, refl, sym, ap, subst, ◌∙◌, some, [], ◌∷◌, ◌++◌, String, ok, err, arith,
  ok-injective, >>=-eq-ok, ==_refl, ◌∈◌,
}
use telegram_lead_assistent.Domain.{integrity_error}
use telegram_lead_assistent.Database.Models.{
  Uuid, Timestamp, DetectedQuestion, OutboundCommand, Database,
}
use telegram_lead_assistent.Database.Questions.{
  question_by_id, latest_version, latest_version_number, add_version,
}
use telegram_lead_assistent.Database.Questions.Lookup.{question_by_id-cong}
use telegram_lead_assistent.Database.Questions.Versions.{
  add_version_fresh, add_version_taken, latest_version-append, append-mem,
}
use telegram_lead_assistent.Database.Commands.{save_command}
use telegram_lead_assistent.Database.Drafts.{draft_version}
use telegram_lead_assistent.Database.Edits.{
  SentEditPreview, sent_question, or_unavailable, latest_final, stored_sent_message_id,
  prepare_edit, complete_edit, edited_version, completed,
}

pub sent_question-cong :
    (question_id : Uuid) (db db' : Database)
    → db'.detected_questions ≡ db.detected_questions
    → sent_question question_id db' ≡ sent_question question_id db
unfolding sent_question
sent_question-cong question_id db db' e = rw (question_by_id-cong question_id db db' e) refl

prepare_edit-sent :
    (fresh : Uuid) (now : Timestamp) (question_id : Uuid) (text : String) (db db' : Database)
    (shown : SentEditPreview)
    → prepare_edit fresh now question_id text db ≡ ok (shown, db')
    → (question : DetectedQuestion) × (sent_question question_id db ≡ ok question)
unfolding prepare_edit
prepare_edit-sent fresh now question_id text db db' shown h =
    let (question, sent, _) = >>=-eq-ok (sent_question question_id db) _ h in (question, sent)

-- Preparing an edit appends a draft numbered one above the last version, and changes nothing else.
prepare_edit-ok :
    (fresh : Uuid) (now : Timestamp) (question_id : Uuid) (text : String) (db db' : Database)
    (shown : SentEditPreview)
    → prepare_edit fresh now question_id text db ≡ ok (shown, db')
    → record db {
      reply_versions =
          db.reply_versions
          ++ draft_version fresh now question_id (latest_version_number question_id db + 1) text
            ∷ [];
    }
      ≡ db'
unfolding prepare_edit
prepare_edit-ok fresh now question_id text db db' shown h =
    let (question, _, rest) = >>=-eq-ok (sent_question question_id db) _ h in
    let (current, _, rest') = >>=-eq-ok (or_unavailable (latest_final question_id db)) _ rest in
    let (message_id, _, rest'') =
      >>=-eq-ok (or_unavailable (stored_sent_message_id question_id db)) _ rest' in
    let version =
      draft_version fresh now question_id (latest_version_number question_id db + 1) text in
    let (added, e, last) = >>=-eq-ok (add_version version db) _ rest'' in
    ok-injective (sym (add_version_fresh version db (omega arith)) ∙ e)
    ∙ ap (λ r. r.1) (ok-injective last)

-- An edit whose reserved number is above every version of its question completes: the question is
-- unchanged, and the appended final version has the command's text and number.
pub complete_edit-fresh :
    (fresh : Uuid) (now : Timestamp) (command : OutboundCommand) (db : Database)
    (question : DetectedQuestion)
    → sent_question command.question_id db ≡ ok question
    → latest_version_number command.question_id db + 1 ≤ command.reply_version
    → (db' : Database) × (complete_edit fresh now command db ≡ ok db')
      × (question_by_id command.question_id db' ≡ question_by_id command.question_id db)
      × (latest_version command.question_id db' ≡ some (edited_version fresh now command))
unfolding complete_edit
complete_edit-fresh fresh now command db question sent above =
    let version = edited_version fresh now command in
    let added = record db { reply_versions = db.reply_versions ++ version ∷ [] } in
    let db' = save_command (completed now command) added in
    (
      db',
      rw sent (rw (add_version_fresh version db above) refl),
      question_by_id-cong command.question_id db db' (unfold save_command in refl),
      latest_version-append version db db' above (unfold save_command in refl),
    )

-- If another edit of the same question is prepared while a command that reserved the next number is
-- still open, the draft takes that number, and completing the command fails with an integrity error, whatever
-- Telegram did.
pub complete_edit-taken :
    (fresh other : Uuid) (now later : Timestamp) (command : OutboundCommand) (text : String)
    (db db' : Database) (shown : SentEditPreview)
    → command.reply_version ≡ latest_version_number command.question_id db + 1
    → prepare_edit other now command.question_id text db ≡ ok (shown, db')
    → complete_edit fresh later command db' ≡ err integrity_error
unfolding complete_edit
complete_edit-taken fresh other now later command text db db' shown reserved prepared =
    let version =
      draft_version other now command.question_id (latest_version_number command.question_id db + 1)
        text in
    let (question, sent) =
      prepare_edit-sent other now command.question_id text db db' shown prepared in
    let e = prepare_edit-ok other now command.question_id text db db' shown prepared in
    let sent' =
      sent_question-cong command.question_id db db' (ap (λ d. d.detected_questions) (sym e))
      ∙ sent in
    let there : version ∈ db'.reply_versions =
      subst (λ d. version ∈ d.reply_versions) e (append-mem db.reply_versions version) in
    rw sent' (
      rw
        (add_version_taken (edited_version fresh later command) version db' there
          (ground (arith, ==_refl command.question_id)))
        refl)
