-- ===== src/Listener/Outbound/Editing.antt =====
-- The edit worker: what it edits, and an edit whose number was taken.
use telegram_lead_assistent.Prelude.{
  ◌≡◌, ◌∙◌, sym, ap, ◌∈◌, ==_refl, refl, Bool, true, false, Option, none, some, [], ◌∷◌, String, ok,
  err, ◌⊎◌, inl, inr,
}
use telegram_lead_assistent.Domain.{QuestionStatus, integrity_error, is_edit}
use telegram_lead_assistent.Database.Models.{
  Uuid, TelegramId, Timestamp, DetectedQuestion, ReplyVersion, OutboundCommand, Database,
}
use telegram_lead_assistent.Database.Questions.{question_by_id}
use telegram_lead_assistent.Database.Questions.Lookup.{question_by_id-cong}
use telegram_lead_assistent.Database.Questions.Versions.{add_version_taken}
use telegram_lead_assistent.Database.Commands.{claim_edit, save_command}
use telegram_lead_assistent.Database.Commands.Claim.{claim_command_lem}
use telegram_lead_assistent.Database.Edits.{is_sent, sent_question, edited_version, complete_edit}
use telegram_lead_assistent.Listener.Outbound.{
  MtprotoOutboundClient, has_edit_target, edit_call, edit_target, edit_claimed, after_edit,
  run_edit_once, committed,
}

module _ (client : MtprotoOutboundClient) (fresh : Uuid) (now : Timestamp) (held : Uuid → Bool)
    (worker_id : String) (db : Database) where
  -- A claimed command for which the client was called.
  pub record IsEdited (command : OutboundCommand) (claimed_db : Database) : Type 0 where
    pub taken : claim_edit now held worker_id db ≡ (some command, claimed_db)
    pub question : DetectedQuestion
    pub its_question : question_by_id command.question_id claimed_db ≡ some question
    pub sent : has_edit_target command question ≡ true
    pub message_id : TelegramId
    pub stored : command.sent_message_id ≡ some message_id
    pub run : run_edit_once client fresh now held worker_id db ≡ record {
      calls = edit_call command message_id ∷ [];
      result =
          after_edit fresh now command
            (client.edit_message command.telegram_chat_id message_id command.text)
            claimed_db;
    }

  abbrev pub IsEditedOrSilent : Type 0
  IsEditedOrSilent =
      ((run_edit_once client fresh now held worker_id db).calls ≡ [])
      ⊎ ((command : OutboundCommand) × (claimed_db : Database) × IsEdited command claimed_db)

  edit_run :
      (command : OutboundCommand) (claimed_db : Database) (question : DetectedQuestion)
      (message_id : TelegramId)
      → claim_edit now held worker_id db ≡ (some command, claimed_db)
      → question_by_id command.question_id claimed_db ≡ some question
      → has_edit_target command question ≡ true
      → command.sent_message_id ≡ some message_id
      → run_edit_once client fresh now held worker_id db ≡ record {
        calls = edit_call command message_id ∷ [];
        result =
            after_edit fresh now command
              (client.edit_message command.telegram_chat_id message_id command.text)
              claimed_db;
      }
  unfolding run_edit_once edit_claimed edit_target
  edit_run command claimed_db question message_id c q v t =
      rw c (rw (q, edit_claimed) (rw (v, t) refl))

  edit_target-IsEdited :
      (command : OutboundCommand) (claimed_db : Database) (question : DetectedQuestion)
      (message_id : TelegramId)
      → claim_edit now held worker_id db ≡ (some command, claimed_db)
      → question_by_id command.question_id claimed_db ≡ some question
      → has_edit_target command question ≡ true
      → command.sent_message_id ≡ some message_id
      → IsEdited command claimed_db
  edit_target-IsEdited command claimed_db question message_id c q v t = record {
    taken = c;
    question = question;
    its_question = q;
    sent = v;
    message_id = message_id;
    stored = t;
    run = edit_run command claimed_db question message_id c q v t;
  }

  edited_target :
      (command : OutboundCommand) (claimed_db : Database) (question : DetectedQuestion)
      (valid : Bool) (target : Option TelegramId)
      → claim_edit now held worker_id db ≡ (some command, claimed_db)
      → question_by_id command.question_id claimed_db ≡ some question
      → has_edit_target command question ≡ valid
      → command.sent_message_id ≡ target
      → IsEditedOrSilent
  unfolding run_edit_once edit_claimed edit_target
  edited_target command claimed_db question true (some message_id) c q v t =
      inr (command, claimed_db, edit_target-IsEdited command claimed_db question message_id c q v t)
  edited_target command claimed_db question true none c q v t =
      inl (rw c (rw (q, edit_claimed) (rw (v, t) refl)))
  edited_target command claimed_db question false target c q v t =
      inl (rw c (rw (q, edit_claimed) (rw v refl)))

  edited_claimed :
      (taken : Option OutboundCommand) (claimed_db : Database) (found : Option DetectedQuestion)
      → claim_edit now held worker_id db ≡ (taken, claimed_db)
      → ((command : OutboundCommand)
          → taken ≡ some command
          → question_by_id command.question_id claimed_db ≡ found)
      → IsEditedOrSilent
  unfolding run_edit_once edit_claimed
  edited_claimed none claimed_db found c q = inl (rw c refl)
  edited_claimed (some command) claimed_db none c q =
      inl (rw c (rw (q command refl, edit_claimed) refl))
  edited_claimed (some command) claimed_db (some question) c q =
      edited_target command claimed_db question (has_edit_target command question)
        command.sent_message_id c (q command refl) refl refl

  edited_by_cases :
      (taken : Option OutboundCommand) (claimed_db : Database)
      → claim_edit now held worker_id db ≡ (taken, claimed_db)
      → IsEditedOrSilent
  edited_by_cases none claimed_db c = edited_claimed none claimed_db none c (λ command e. cc)
  edited_by_cases (some command) claimed_db c =
      edited_claimed (some command) claimed_db (question_by_id command.question_id claimed_db) c
        (λ other e. cc)

  -- An iteration of the edit worker calls `edit_message` at most once, and only with the text of the
  -- command that it claimed, for the message that the command stores, in the chat of the command's
  -- question, which is sent.
  pub run_edit_once_lem : IsEditedOrSilent
  run_edit_once_lem =
      edited_by_cases (claim_edit now held worker_id db).0 (claim_edit now held worker_id db).1 refl

-- Completing an edit whose number a version of its question has raises.
complete_edit-number_taken :
    (fresh : Uuid) (now : Timestamp) (command : OutboundCommand) (question : DetectedQuestion)
    (version : ReplyVersion) (db : Database)
    → question_by_id command.question_id db ≡ some question
    → is_sent question.status ≡ true
    → version ∈ db.reply_versions
    → version.question_id ≡ command.question_id
    → version.version_number ≡ command.reply_version
    → complete_edit fresh now command db ≡ err integrity_error
unfolding complete_edit sent_question
complete_edit-number_taken fresh now command question version db q sent m its_question its_number =
    rw (q, sent)
      (rw
        (add_version_taken (edited_version fresh now command) version db m (
          rw (its_question, its_number)
            (rw (==_refl command.question_id, ==_refl command.reply_version) refl)))
        refl)

-- Claiming an edit writes no version and no question.
claim_edit-keeps :
    (now : Timestamp) (held : Uuid → Bool) (worker_id : String) (db : Database)
    → ((claim_edit now held worker_id db).1.reply_versions ≡ db.reply_versions)
      × ((claim_edit now held worker_id db).1.detected_questions ≡ db.detected_questions)
unfolding claim_edit save_command
claim_edit-keeps now held worker_id db = elim (claim_command_lem is_edit now held worker_id db) [
  | inl (command, first, e) ↦ rw e (refl, refl)
  | inr (e, empty) ↦ rw e (refl, refl)
]

-- Where the claimed command edits a message of a sent question in its chat, but a version of the
-- question has the number that the command reserved, and Telegram accepts every edit, the iteration
-- edits the message and raises an integrity error after the call. The database then stays as it was
-- before the command was claimed, so that the same claim takes the command again.
pub edit_repeated :
    (client : MtprotoOutboundClient) (fresh : Uuid) (now : Timestamp) (held : Uuid → Bool)
    (worker_id : String) (db claimed_db : Database) (command : OutboundCommand)
    (question : DetectedQuestion) (message_id : TelegramId) (version : ReplyVersion)
    → claim_edit now held worker_id db ≡ (some command, claimed_db)
    → question_by_id command.question_id db ≡ some question
    → question.status ≡ QuestionStatus.sent
    → command.telegram_chat_id ≡ question.telegram_chat_id
    → command.sent_message_id ≡ some message_id
    → version ∈ db.reply_versions
    → version.question_id ≡ command.question_id
    → version.version_number ≡ command.reply_version
    → ((chat_id id : TelegramId) (text : String) → client.edit_message chat_id id text ≡ ok tt)
    → let run = run_edit_once client fresh now held worker_id db in
      (run.calls ≡ edit_call command message_id ∷ [])
      × (run.result ≡ err integrity_error)
      × (committed db run ≡ db)
      × (claim_edit now held worker_id (committed db run) ≡ (some command, claimed_db))
unfolding committed after_edit
edit_repeated client fresh now held worker_id db claimed_db command question message_id version c q
      is_sent_question its_chat its_message m its_question its_number accepts =
    let kept = claim_edit-keeps now held worker_id db in
    let versions : claimed_db.reply_versions ≡ db.reply_versions =
      ap (λ r. r.1.reply_versions) (sym c) ∙ kept.0 in
    let questions : claimed_db.detected_questions ≡ db.detected_questions =
      ap (λ r. r.1.detected_questions) (sym c) ∙ kept.1 in
    let found = question_by_id-cong command.question_id db claimed_db questions ∙ q in
    let target : has_edit_target command question ≡ true =
      rw (is_sent_question, its_chat) (==_refl question.telegram_chat_id) in
    let ran =
      edit_run client fresh now held worker_id db command claimed_db question message_id c found
        target its_message in
    let fails =
      complete_edit-number_taken fresh now command question version claimed_db found
        (rw is_sent_question refl) (rw versions m) its_question its_number in
    let answered = accepts command.telegram_chat_id message_id command.text in
    (
      rw ran refl,
      rw ran (rw answered (rw fails refl)),
      rw ran (rw answered (rw fails refl)),
      rw ran (rw answered (rw fails c)),
    )
