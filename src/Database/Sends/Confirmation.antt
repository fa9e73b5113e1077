-- ===== src/Database/Sends/Confirmation.antt =====
-- What a confirmation does, and what confirming again does.
use telegram_lead_assistent.Prelude.{
  ◌+◌, ◌≡◌, refl, ◌∙◌, true, false, ==_refl, Option, none, some, List, [], ◌∷◌, ◌++◌, String, ok,
  arith, find_where, any_where,
}
use telegram_lead_assistent.Domain.{waiting_confirmation, send_requested, is_send, is_draft}
use telegram_lead_assistent.Database.Models.{
  Uuid, Timestamp, DetectedQuestion, ReplyVersion, OutboundCommand, Database,
}
use telegram_lead_assistent.Database.Questions.{
  question_by_id, save_question, latest_version, latest_version_number,
}
use telegram_lead_assistent.Database.Questions.Lookup.{
  question_by_id_sound, question_by_id-cong, question_by_id-save_self,
}
use telegram_lead_assistent.Database.Questions.Versions.{add_version_fresh}
use telegram_lead_assistent.Database.Commands.{add_command, same_key}
use telegram_lead_assistent.Database.Sends.{
  is_send_of, confirmation_of, sent_version, send_command, preview_of, confirm_locked, confirm_send,
}

-- The key of a command names its own question and type.
abbrev pub KeysMatch : List OutboundCommand → Type 0
KeysMatch [] = Unit
KeysMatch (row ∷ rows) =
    (row.idempotency_key.key_question_id ≡ row.question_id)
    × (row.idempotency_key.key_command_type ≡ row.command_type)
    × KeysMatch rows

none_with_key :
    (command : OutboundCommand) (rows : List OutboundCommand)
    → KeysMatch rows
    → is_send command.idempotency_key.key_command_type ≡ true
    → find_where (is_send_of command.idempotency_key.key_question_id) rows ≡ none
    → any_where (λ row. same_key command.idempotency_key row.idempotency_key) rows ≡ false
unfolding find_where any_where
none_with_key command [] k s h = refl
none_with_key command (row ∷ rows) k s h = ground (arith, none_with_key command rows k.2)

-- The database after the first confirmation of a preview with this text.
abbrev pub confirmed_db :
    Uuid → Uuid → Timestamp → Uuid → DetectedQuestion → String → Database → Database
confirmed_db version_id command_id now question_id question text db =
    let number = latest_version_number question_id db + 1 in
    save_question (record question { status = send_requested })
      (record db {
        reply_versions =
            db.reply_versions ++ sent_version version_id now question_id number text ∷ [];
        outbound_commands =
            db.outbound_commands
            ++ send_command command_id now question question_id number text ∷ [];
      })

add_command_fresh :
    (command : OutboundCommand) (db : Database)
    → KeysMatch db.outbound_commands
    → is_send command.idempotency_key.key_command_type ≡ true
    → find_where (is_send_of command.idempotency_key.key_question_id) db.outbound_commands ≡ none
    → add_command command db
      ≡ ok (record db { outbound_commands = db.outbound_commands ++ command ∷ [] })
unfolding add_command
add_command_fresh command db k s h = rw (none_with_key command db.outbound_commands k s h) refl

preview_of_lem :
    (question_id : Uuid) (db : Database) (preview : ReplyVersion)
    → latest_version question_id db ≡ some preview
    → is_draft preview.action ≡ true
    → preview_of question_id db ≡ ok preview
unfolding preview_of
preview_of_lem question_id db preview e d = rw (e, preview_of) (rw d refl)

find-append :
    (question_id : Uuid) (rows : List OutboundCommand) (command : OutboundCommand)
    → find_where (is_send_of question_id) rows ≡ none
    → is_send_of question_id command ≡ true
    → find_where (is_send_of question_id) (rows ++ command ∷ []) ≡ some command
unfolding find_where
find-append question_id [] command h t = rw t refl
find-append question_id (row ∷ rows) command h t =
    ground (arith, find-append question_id rows command)

pub confirm_send_found :
    (version_id command_id : Uuid) (now : Timestamp) (question_id : Uuid) (db : Database)
    (question : DetectedQuestion) (existing : Option OutboundCommand)
    → question_by_id question_id db ≡ some question
    → find_where (is_send_of question_id) db.outbound_commands ≡ existing
    → confirm_send version_id command_id now question_id db
      ≡ confirm_locked version_id command_id now question_id question existing db
unfolding confirm_send
confirm_send_found version_id command_id now question_id db question existing found e =
    rw (found, confirm_send) (rw e refl)

-- For a question that waits for confirmation, has no send command and whose last version is a
-- draft, in a database where each command's idempotency key names the question and the type of the
-- command, confirming succeeds: it adds one final version and one pending send command, both with
-- the text of that draft and the next version number, and requests the send. Confirming again,
-- with any identifiers and at any time, returns the same command as not created and changes
-- nothing.
pub confirm_send_twice :
    (version_id command_id : Uuid) (now : Timestamp) (question_id : Uuid) (db : Database)
    (question : DetectedQuestion) (preview : ReplyVersion)
    → KeysMatch db.outbound_commands
    → question_by_id question_id db ≡ some question
    → question.status ≡ waiting_confirmation
    → find_where (is_send_of question_id) db.outbound_commands ≡ none
    → latest_version question_id db ≡ some preview
    → is_draft preview.action ≡ true
    → let command =
        send_command command_id now question question_id
          (latest_version_number question_id db + 1)
          preview.text in
      let db' = confirmed_db version_id command_id now question_id question preview.text db in
      (confirm_send version_id command_id now question_id db
        ≡ ok (confirmation_of command true, db'))
      × ((version_id' command_id' : Uuid) (later : Timestamp)
          → confirm_send version_id' command_id' later question_id db'
            ≡ ok (confirmation_of command false, db'))
unfolding confirm_send
confirm_send_twice version_id command_id now question_id db question preview keys found status fresh
      last isdraft =
    let number = latest_version_number question_id db + 1 in
    let version = sent_version version_id now question_id number preview.text in
    let command = send_command command_id now question question_id number preview.text in
    let added = record db { reply_versions = db.reply_versions ++ version ∷ [] } in
    let both = record added { outbound_commands = db.outbound_commands ++ command ∷ [] } in
    let db' = save_question (record question { status = send_requested }) both in
    let id = question_by_id_sound question_id db question found in
    let found' =
      question_by_id-save_self question_id question (record question { status = send_requested })
        both (question_by_id-cong question_id db both refl ∙ found) id in
    let there : find_where (is_send_of question_id) db'.outbound_commands ≡ some command =
      unfold save_question in
      find-append question_id db.outbound_commands command fresh
        (ground (arith, ==_refl question_id)) in
    (
      rw (confirm_send_found version_id command_id now question_id db question none found fresh) (
          rw (status, preview_of_lem question_id db preview last isdraft)
            (rw (add_version_fresh version db (omega arith))
              (rw (add_command_fresh command added keys refl fresh) refl))),
      λ version_id' command_id' later.
          rw
            (confirm_send_found version_id' command_id' later question_id db'
              (record question { status = send_requested }) (some command) found' there)
            refl,
    )
