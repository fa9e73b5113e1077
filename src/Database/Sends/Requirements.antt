-- ===== src/Database/Sends/Requirements.antt =====
-- What a successful confirmation shows of the state it met.
use telegram_lead_assistent.Prelude.{
  ◌≡◌, ◌⊎◌, refl, sym, ap, ◌∙◌, true, false, Option, none, some, String, ok, err, arith,
  ok-injective, >>=-eq-ok, guard->>-eq-ok, Option-cases, inl, inr, find_where, ◌+◌,
}
use telegram_lead_assistent.Domain.{
  confirmation_unavailable, QuestionStatus, waiting_confirmation, send_requested, is_draft,
}
use telegram_lead_assistent.Database.Models.{
  Uuid, Timestamp, DetectedQuestion, ReplyVersion, OutboundCommand, Database,
}
use telegram_lead_assistent.Database.Questions.{
  question_by_id, latest_version, latest_version_number, add_version,
}
use telegram_lead_assistent.Database.Commands.{ConfirmedCommand, add_command}
use telegram_lead_assistent.Database.Drafts.{is_waiting_confirmation}
use telegram_lead_assistent.Database.Sends.{
  is_send_requested, is_send_of, confirmation_of, sent_version, send_command, preview_of,
  confirm_again, confirm_first, confirm_locked, confirm_send,
}
use telegram_lead_assistent.Database.Sends.Confirmation.{confirm_send_found}

-- A confirmation that created a command found a question waiting for it, no send command of the
-- question, and a draft as its last version, whose text it returns.
pub record HadPreview (question_id : Uuid) (db : Database) (text : String) : Type 0 where
  pub question : DetectedQuestion
  pub preview : ReplyVersion
  pub found : question_by_id question_id db ≡ some question
  pub waiting : question.status ≡ waiting_confirmation
  pub no_command : find_where (is_send_of question_id) db.outbound_commands ≡ none
  pub last : latest_version question_id db ≡ some preview
  pub drafted : is_draft preview.action ≡ true
  pub same_text : text ≡ preview.text

-- One that created none found the send command of the question, still requested.
pub record HadCommand (question_id : Uuid) (db : Database) (result : ConfirmedCommand)
    : Type 0 where
  pub question : DetectedQuestion
  pub existing : OutboundCommand
  pub found : question_by_id question_id db ≡ some question
  pub requested : question.status ≡ send_requested
  pub stored : find_where (is_send_of question_id) db.outbound_commands ≡ some existing
  pub same : result ≡ confirmation_of existing false

waiting_is :
    (status : QuestionStatus)
    → is_waiting_confirmation status ≡ true
    → status ≡ waiting_confirmation
waiting_is status h = ground arith

requested_is : (status : QuestionStatus) → is_send_requested status ≡ true → status ≡ send_requested
requested_is status h = ground arith

pub preview_of-ok :
    (question_id : Uuid) (db : Database) (preview : ReplyVersion)
    → preview_of question_id db ≡ ok preview
    → (latest_version question_id db ≡ some preview) × (is_draft preview.action ≡ true)
unfolding preview_of
preview_of-ok question_id db preview h = ground arith

confirm_first-HadPreview :
    (version_id command_id : Uuid) (now : Timestamp) (question_id : Uuid) (db db' : Database)
    (question : DetectedQuestion) (result : ConfirmedCommand)
    → question_by_id question_id db ≡ some question
    → find_where (is_send_of question_id) db.outbound_commands ≡ none
    → confirm_first version_id command_id now question_id question db ≡ ok (result, db')
    → (result.created ≡ true) × HadPreview question_id db result.text
unfolding confirm_first
confirm_first-HadPreview version_id command_id now question_id db db' question result found absent
      h =
    let (allowed, rest) =
      guard->>-eq-ok (is_waiting_confirmation question.status) confirmation_unavailable _ h in
    let (preview, p, rest') = >>=-eq-ok (preview_of question_id db) _ rest in
    let number = latest_version_number question_id db + 1 in
    let (added, _, rest'') =
      >>=-eq-ok (add_version (sent_version version_id now question_id number preview.text) db) _
        rest' in
    let (both, _, last) =
      >>=-eq-ok
        (add_command (send_command command_id now question question_id number preview.text) added) _
        rest'' in
    let (l, d) = preview_of-ok question_id db preview p in
    let same = ap (λ r. r.0) (ok-injective last) in
    (
      sym (ap (λ c. c.created) same),
      record {
        question = question;
        preview = preview;
        found = found;
        waiting = waiting_is question.status allowed;
        no_command = absent;
        last = l;
        drafted = d;
        same_text = sym (ap (λ c. c.text) same);
      },
    )

confirm_send_missing :
    (version_id command_id : Uuid) (now : Timestamp) (question_id : Uuid) (db : Database)
    → question_by_id question_id db ≡ none
    → confirm_send version_id command_id now question_id db ≡ err confirmation_unavailable
unfolding confirm_send
confirm_send_missing version_id command_id now question_id db e = rw (e, confirm_send) refl

confirm_again-HadCommand :
    (question_id : Uuid) (db db' : Database) (question : DetectedQuestion)
    (existing : OutboundCommand) (result : ConfirmedCommand)
    → question_by_id question_id db ≡ some question
    → find_where (is_send_of question_id) db.outbound_commands ≡ some existing
    → confirm_again existing question db ≡ ok (result, db')
    → (db' ≡ db) × HadCommand question_id db result
unfolding confirm_again
confirm_again-HadCommand question_id db db' question existing result found there h =
    let (allowed, last) =
      guard->>-eq-ok (is_send_requested question.status) confirmation_unavailable _ h in
    (
      sym (ap (λ r. r.1) (ok-injective last)),
      record {
        question = question;
        existing = existing;
        found = found;
        requested = requested_is question.status allowed;
        stored = there;
        same = sym (ap (λ r. r.0) (ok-injective last));
      },
    )

confirm_locked-requires :
    (version_id command_id : Uuid) (now : Timestamp) (question_id : Uuid) (db db' : Database)
    (question : DetectedQuestion) (existing : Option OutboundCommand) (result : ConfirmedCommand)
    → question_by_id question_id db ≡ some question
    → find_where (is_send_of question_id) db.outbound_commands ≡ existing
    → confirm_locked version_id command_id now question_id question existing db ≡ ok (result, db')
    → ((result.created ≡ true) × HadPreview question_id db result.text)
      ⊎ ((db' ≡ db) × HadCommand question_id db result)
unfolding confirm_locked
confirm_locked-requires version_id command_id now question_id db db' question none result found e
      h =
    inl (
      confirm_first-HadPreview version_id command_id now question_id db db' question result found e
        h)
confirm_locked-requires version_id command_id now question_id db db' question (some existing) result
      found e h =
    inr (confirm_again-HadCommand question_id db db' question existing result found e h)

-- A successful confirmation is one of two: it created a command, and then the question waited for
-- confirmation, had no send command, and the returned text is that of its last version, a draft;
-- or it changed nothing, and then the send of the question was requested and it returned the send
-- command that the question had.
pub confirm_send_requires :
    (version_id command_id : Uuid) (now : Timestamp) (question_id : Uuid) (db db' : Database)
    (result : ConfirmedCommand)
    → confirm_send version_id command_id now question_id db ≡ ok (result, db')
    → ((result.created ≡ true) × HadPreview question_id db result.text)
      ⊎ ((db' ≡ db) × HadCommand question_id db result)
confirm_send_requires version_id command_id now question_id db db' result h =
    elim (Option-cases (question_by_id question_id db)) [
      | inl e ↦
          absurd (ground (arith, confirm_send_missing version_id command_id now question_id db e))
      | inr (question, found) ↦
          let existing = find_where (is_send_of question_id) db.outbound_commands in
          confirm_locked-requires version_id command_id now question_id db db' question existing
            result found refl
            (sym (
                confirm_send_found version_id command_id now question_id db question existing found
                  refl)
              ∙ h)
    ]
