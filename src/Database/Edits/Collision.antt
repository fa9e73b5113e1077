-- ===== src/Database/Edits/Collision.antt =====
-- Two edits of one question that overlap.
use telegram_lead_assistent.Prelude.{
  ℕ, ◌+◌, ◌≡◌, refl, sym, ap, subst, ◌∙◌, true, Option, none, some, String, ok, err, arith,
  ok-injective, >>=-eq-ok, find_where,
}
use telegram_lead_assistent.Domain.{integrity_error}
use telegram_lead_assistent.Database.Models.{
  Uuid, Timestamp, DetectedQuestion, ReplyVersion, OutboundCommand, Database,
}
use telegram_lead_assistent.Database.Questions.{latest_version, latest_version_number}
use telegram_lead_assistent.Database.Questions.Versions.{latest_version-number}
use telegram_lead_assistent.Database.Commands.{ConfirmedCommand, same_key, add_command}
use telegram_lead_assistent.Database.Sends.{preview_of}
use telegram_lead_assistent.Database.Sends.Requirements.{preview_of-ok}
use telegram_lead_assistent.Database.Edits.{
  SentEditPreview, sent_question, or_unavailable, stored_sent_message_id, prepare_edit, edit_key,
  edit_command, edited_version, confirm_keyed, confirm_edit, complete_edit,
}
use telegram_lead_assistent.Database.Edits.Numbering.{
  sent_question-cong, complete_edit-fresh, complete_edit-taken,
}

-- Adding a command leaves every other table.
add_command-versions :
    (command : OutboundCommand) (db db' : Database)
    → add_command command db ≡ ok db'
    → (db'.reply_versions ≡ db.reply_versions) × (db'.detected_questions ≡ db.detected_questions)
unfolding add_command
add_command-versions command db db' h = ground arith

confirm_keyed-reserves :
    (fresh : Uuid) (now : Timestamp) (question_id : Uuid) (question : DetectedQuestion)
    (preview : ReplyVersion) (existing : Option OutboundCommand) (db db' : Database)
    (result : ConfirmedCommand)
    → confirm_keyed fresh now question_id question preview existing db ≡ ok (result, db')
    → result.created ≡ true
    → (result.reply_version ≡ preview.version_number + 1)
      × (db'.reply_versions ≡ db.reply_versions)
      × (db'.detected_questions ≡ db.detected_questions)
unfolding confirm_keyed
confirm_keyed-reserves fresh now question_id question preview (some existing) db db' result h c = cc
confirm_keyed-reserves fresh now question_id question preview none db db' result h c =
    let (message_id, _, rest) =
      >>=-eq-ok (or_unavailable (stored_sent_message_id question_id db)) _ h in
    let (added, e, last) =
      >>=-eq-ok (add_command (edit_command fresh now question question_id preview message_id) db) _
        rest in
    let (versions, questions) =
      add_command-versions (edit_command fresh now question question_id preview message_id) db added
        e in
    let same = ok-injective last in
    (
      sym (ap (λ r. r.0.reply_version) same),
      ap (λ r. r.1.reply_versions) (sym same) ∙ versions,
      ap (λ r. r.1.detected_questions) (sym same) ∙ questions,
    )

latest_number-cong :
    (question_id : Uuid) (db db' : Database)
    → db'.reply_versions ≡ db.reply_versions
    → latest_version_number question_id db' ≡ latest_version_number question_id db
unfolding latest_version_number
latest_number-cong question_id db db' e = rw e refl

-- A new edit command reserves the number one above the last version of its question, which was sent.
confirm_edit-reserves :
    (fresh : Uuid) (now : Timestamp) (question_id : Uuid) (db db' : Database)
    (result : ConfirmedCommand)
    → confirm_edit fresh now question_id db ≡ ok (result, db')
    → result.created ≡ true
    → (result.reply_version ≡ latest_version_number question_id db' + 1)
      × ((question : DetectedQuestion) × (sent_question question_id db' ≡ ok question))
unfolding confirm_edit
confirm_edit-reserves fresh now question_id db db' result h c =
    let (question, sent, rest) = >>=-eq-ok (sent_question question_id db) _ h in
    let (preview, p, rest') = >>=-eq-ok (preview_of question_id db) _ rest in
    let (number, versions, questions) =
      confirm_keyed-reserves fresh now question_id question preview
        (find_where (λ c. same_key (edit_key question_id preview.version_number) c.idempotency_key)
          db.outbound_commands)
        db db' result rest' c in
    let top =
      latest_version-number question_id db preview (preview_of-ok question_id db preview p).0 in
    (
      number ∙ ap (λ (n : ℕ). n + 1) (top ∙ sym (latest_number-cong question_id db db' versions)),
      (question, sent_question-cong question_id db db' questions ∙ sent),
    )

module _ (command_id : Uuid) (now : Timestamp) (question_id : Uuid) (db confirmed : Database)
    (result : ConfirmedCommand)
    (created : confirm_edit command_id now question_id db ≡ ok (result, confirmed))
    (new : result.created ≡ true) (command : OutboundCommand)
    (its_question : command.question_id ≡ question_id)
    (its_version : command.reply_version ≡ result.reply_version) where
  -- A confirmed edit completes if no version was added since: its question then has the command's
  -- text as its last version, numbered as reserved.
  pub confirmed_edit_completes :
      (fresh : Uuid) (later : Timestamp)
      → (db' : Database) × (complete_edit fresh later command confirmed ≡ ok db')
        × (latest_version question_id db' ≡ some (edited_version fresh later command))
  confirmed_edit_completes fresh later =
      let (number, found) =
        confirm_edit-reserves command_id now question_id db confirmed result created new in
      let (question, sent) = found in
      let (db', e, _, last) =
        complete_edit-fresh fresh later command confirmed question (rw its_question sent)
          (rw (its_question, its_version, number) (omega arith)) in
      (
        db',
        e,
        subst (λ q. latest_version q db' ≡ some (edited_version fresh later command)) its_question
            last,
      )

  -- If the operator prepares another edit of the question before a confirmed one is completed, the
  -- new draft takes the number that the command had reserved, and completing the command raises an
  -- integrity error at whatever time.
  pub overlapping_edit_fails :
      (other fresh : Uuid) (later last : Timestamp) (text : String) (prepared : Database)
      (shown : SentEditPreview)
      → prepare_edit other later question_id text confirmed ≡ ok (shown, prepared)
      → complete_edit fresh last command prepared ≡ err integrity_error
  overlapping_edit_fails other fresh later last text prepared shown h =
      let (number, _) =
        confirm_edit-reserves command_id now question_id db confirmed result created new in
      complete_edit-taken fresh other later last command text confirmed prepared shown
        (its_version ∙ number ∙ ap (λ q. latest_version_number q confirmed + 1) (sym its_question))
        (rw its_question h)
