-- ===== src/Tests/ReplyExamples.antt =====
-- The theorems of the chats and of the reply repositories on concrete rows.
use telegram_lead_assistent.Prelude.{
  first_where, first_by, select_where, update_where, find_where, row_by, put_row, max_of, any_where,
  ℕ, ◌+◌, ◌≡◌, ◌⊎◌, refl, true, false, none, some, List, [], ◌∷◌, ◌++◌, ok, err,
}
use telegram_lead_assistent.Domain.{
  integrity_error, MonitoredChatStatus, QuestionStatus, waiting_confirmation, waiting_for_draft,
}
use telegram_lead_assistent.Listener.Mtproto.{ChatVerificationOutcome}
use telegram_lead_assistent.Database.Models.{
  Uuid, MonitoredChat, ReplyVersion, OutboundCommand, Database,
}
use telegram_lead_assistent.Database.Questions.{
  question_by_id, save_question, latest_version, latest_version_number, add_version,
}
use telegram_lead_assistent.Database.Commands.{ConfirmedCommand, add_command, is_enabled}
use telegram_lead_assistent.Database.Chats.{chat_by_id, pause, resume}
use telegram_lead_assistent.Database.Chats.Verification.{
  Verifications, apply_all, losses, confirmed_status, apply_all-confirmed,
}
use telegram_lead_assistent.Database.Chats.Paused.{
  ListenerCall, applies, call_all, paused, resumed, resume_after_pause,
}
use telegram_lead_assistent.Database.Drafts.{
  draft_version, DraftDestination, StoredDraft, lock_question, destination_of, create_version,
  latest,
}
use telegram_lead_assistent.Database.Drafts.Composition.{writing, MovesOnly, IsCancelled}
use telegram_lead_assistent.Database.Drafts.Flow.{writes, cancels, call_draft, call_draft-MovesOnly}
use telegram_lead_assistent.Database.Drafts.Preview.{create_version-latest}
use telegram_lead_assistent.Database.Sends.{preview_of, confirm_send, confirmation_of, send_command}
use telegram_lead_assistent.Database.Sends.Confirmation.{confirmed_db, confirm_send_twice}
use telegram_lead_assistent.Database.Sends.Requirements.{
  HadPreview, HadCommand, confirm_send_requires,
}
use telegram_lead_assistent.Database.Edits.{
  SentEditPreview, confirm_edit, prepare_edit, complete_edit, edit_command, edited_version,
  sent_question, stored_sent_message_id, latest_final,
}
use telegram_lead_assistent.Database.Edits.Collision.{
  confirmed_edit_completes, overlapping_edit_fails,
}
use telegram_lead_assistent.Tests.Fixtures.{
  chat, chats_db, verification, question, waiting_db, preview, preview_db, sent_db,
}

-- Access is lost twice in a row, after one loss that a good result followed.
abbrev verifications : Verifications
verifications =
    (400, verification ChatVerificationOutcome.access_lost)
    ∷ ((300, verification ChatVerificationOutcome.access_lost)
        ∷ ((200, verification ChatVerificationOutcome.active)
            ∷ ((100, verification ChatVerificationOutcome.access_lost) ∷ [])))

apply_all-confirmed_example :
    (chat' : MonitoredChat) × (chat_by_id 1 (apply_all 1 verifications chats_db) ≡ some chat')
    × (chat'.consecutive_access_failures ≡ losses verifications)
    × (chat'.status ≡ confirmed_status MonitoredChatStatus.active verifications)
    × (is_enabled chat'.status ≡ true)
unfolding chat_by_id row_by find_where
apply_all-confirmed_example =
    apply_all-confirmed verifications 1 chats_db (chat MonitoredChatStatus.active) refl refl refl

abbrev late_result : List ListenerCall
late_result = applies 250 1 (verification ChatVerificationOutcome.active) ∷ []

resume_after_pause_example :
    (chat_by_id 1 (call_all late_result (pause 200 1 chats_db).1)
      ≡ some (paused 200 (chat MonitoredChatStatus.active)))
    × (chat_by_id 1 (resume 300 1 (call_all late_result (pause 200 1 chats_db).1)).1
        ≡ some (resumed 300 (paused 200 (chat MonitoredChatStatus.active))))
unfolding chat_by_id row_by find_where
resume_after_pause_example =
    resume_after_pause 200 300 1 (chat MonitoredChatStatus.active) chats_db late_result refl refl

abbrev undrafted_db : Database
undrafted_db = waiting_db waiting_for_draft []

abbrev destination : DraftDestination
destination = record { question_id = 5; chat_title = "Flats"; topic_title = none }

create_version-latest_example :
    (stored : StoredDraft) × (db' : Database) × (create_version 31 50 5 "I do." undrafted_db
      ≡ ok (stored, db'))
    × (stored.text ≡ "I do.")
    × (stored.version_number ≡ latest_version_number 5 undrafted_db + 1)
    × (question_by_id 5 db' ≡ some (question 5 waiting_confirmation))
    × (latest 5 db' ≡ ok (some stored))
unfolding lock_question question_by_id row_by find_where destination_of
create_version-latest_example =
    create_version-latest 31 50 5 "I do." undrafted_db (question 5 waiting_for_draft) destination
      refl refl refl

call_draft-MovesOnly_example :
    MovesOnly writing 5 undrafted_db preview_db
    ⊎ ((writes 31 50 "I do." ≡ cancels) × IsCancelled 5 undrafted_db × (preview_db ≡ undrafted_db))
unfolding call_draft create_version lock_question question_by_id row_by find_where destination_of
    add_version save_question put_row update_where latest_version_number max_of select_where
    any_where
call_draft-MovesOnly_example =
    call_draft-MovesOnly (writes 31 50 "I do.") 5 undrafted_db preview_db refl

confirm_send_twice_example :
    (confirm_send 32 45 100 5 preview_db
      ≡ ok (
        confirmation_of
            (send_command 45 100
              (question 5 waiting_confirmation)
              5
              (latest_version_number 5 preview_db + 1)
              "I do.")
            true,
        confirmed_db 32 45 100 5 (question 5 waiting_confirmation) "I do." preview_db,
      ))
    × ((version_id' command_id' : Uuid) (later : ℕ)
        → confirm_send version_id' command_id' later 5
            (confirmed_db 32 45 100 5 (question 5 waiting_confirmation) "I do." preview_db)
          ≡ ok (
            confirmation_of
                (send_command 45 100
                  (question 5 waiting_confirmation)
                  5
                  (latest_version_number 5 preview_db + 1)
                  "I do.")
                false,
            confirmed_db 32 45 100 5 (question 5 waiting_confirmation) "I do." preview_db,
          ))
unfolding question_by_id row_by find_where latest_version first_where first_by select_where
confirm_send_twice_example =
    confirm_send_twice 32 45 100 5 preview_db (question 5 waiting_confirmation) preview tt refl refl
      refl refl refl

abbrev first_confirmation : ConfirmedCommand
first_confirmation = record { command_id = 45; reply_version = 2; text = "I do."; created = true }

abbrev after_confirmation : Database
after_confirmation = confirmed_db 32 45 100 5 (question 5 waiting_confirmation) "I do." preview_db

confirm_send_requires_example :
    ((true ≡ true) × HadPreview 5 preview_db "I do.")
    ⊎ ((after_confirmation ≡ preview_db) × HadCommand 5 preview_db first_confirmation)
unfolding question_by_id row_by find_where latest_version first_where first_by select_where
    confirm_send latest_version_number max_of add_version any_where add_command save_question
    preview_of
confirm_send_requires_example =
    confirm_send_requires 32 45 100 5 preview_db after_confirmation first_confirmation refl

abbrev edit_draft : ReplyVersion
edit_draft = draft_version 33 70 5 3 "I do, twice."

abbrev edit_of_reply : OutboundCommand
edit_of_reply = edit_command 46 80 (question 5 QuestionStatus.sent) 5 edit_draft 800

abbrev edit_confirmed_db : Database
edit_confirmed_db = record sent_db {
  outbound_commands = sent_db.outbound_commands ++ edit_of_reply ∷ [];
}

abbrev edit_confirmation : ConfirmedCommand
edit_confirmation = record {
  command_id = 46;
  reply_version = 4;
  text = "I do, twice.";
  created = true;
}

edit_confirmed : confirm_edit 46 80 5 sent_db ≡ ok (edit_confirmation, edit_confirmed_db)
unfolding confirm_edit sent_question preview_of latest_version first_where first_by select_where
    question_by_id row_by find_where stored_sent_message_id add_command any_where
edit_confirmed = refl

confirmed_edit_completes_example :
    (db' : Database) × (complete_edit 35 95 edit_of_reply edit_confirmed_db ≡ ok db')
    × (latest_version 5 db' ≡ some (edited_version 35 95 edit_of_reply))
confirmed_edit_completes_example =
    confirmed_edit_completes 46 80 5 sent_db edit_confirmed_db edit_confirmation edit_confirmed refl
      edit_of_reply refl refl 35 95

-- A second edit is prepared before the first one is completed.
abbrev overlapping_db : Database
overlapping_db = record edit_confirmed_db {
  reply_versions = edit_confirmed_db.reply_versions ++ draft_version 34 90 5 4 "Thrice." ∷ [];
}

abbrev overlapping_preview : SentEditPreview
overlapping_preview = record { question_id = 5; old_text = "I do."; new_text = "Thrice." }

overlapping_edit_fails_example :
    complete_edit 35 95 edit_of_reply overlapping_db ≡ err integrity_error
unfolding prepare_edit latest_final sent_question latest_version_number max_of first_where first_by
    select_where question_by_id row_by find_where stored_sent_message_id add_version any_where
overlapping_edit_fails_example =
    overlapping_edit_fails 46 80 5 sent_db edit_confirmed_db edit_confirmation edit_confirmed refl
      edit_of_reply refl refl 34 35 90 95 "Thrice." overlapping_db overlapping_preview refl
