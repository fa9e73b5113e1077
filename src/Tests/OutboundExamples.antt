-- ===== src/Tests/OutboundExamples.antt =====
-- The theorems of the outbound workers and of the reply chain on concrete commands and messages.
use telegram_lead_assistent.Prelude.{
  List, length, true, ◌≤◌, first_where, first_by, select_where, update_where, find_where, row_by,
  put_row, any_where, ◌≡◌, ◌≢◌, refl, Bool, false, none, some, [], ◌∷◌, ◌++◌, ok, err, arith, inl,
  ◌∈◌, inr,
}
use telegram_lead_assistent.Domain.{
  integrity_error, QuestionStatus, send_requested, TelegramOutboundError, unknown_error, ambiguous,
}
use telegram_lead_assistent.Database.Models.{Uuid, OutboundCommand, Database}
use telegram_lead_assistent.Database.Questions.{question_by_id, save_question}
use telegram_lead_assistent.Database.Drafts.{draft_version}
use telegram_lead_assistent.Database.Commands.{
  recover_stale, retry_failed, claim_send, claim_edit, claimed, save_command, command_by_id,
}
use telegram_lead_assistent.Database.Sends.{complete_send}
use telegram_lead_assistent.Database.Edits.{edit_command}
use telegram_lead_assistent.Listener.Mtproto.{ChatVerificationOutcome}
use telegram_lead_assistent.Listener.Mtproto.TopicTitles.{
  TopicTitleCache, new_item, get, put, get-put,
}
use telegram_lead_assistent.Listener.Outbound.{
  ClientCall, send_call, edit_call, validate, record_error, run_send_once, run_edit_once, committed,
}
use telegram_lead_assistent.Listener.Outbound.Sending.{IsSent, IsSentOrSilent, run_send_once_lem}
use telegram_lead_assistent.Listener.Outbound.Settling.{IsLeft, command_by_id-record_error}
use telegram_lead_assistent.Listener.Outbound.History.{Iteration, run_of}
use telegram_lead_assistent.Listener.Outbound.Delivery.{
  Event, iterates, recovers, retries, after_event, event_calls, send_history, delivered_once,
}
use telegram_lead_assistent.Listener.Outbound.Editing.{
  IsEdited, IsEditedOrSilent, run_edit_once_lem, edit_repeated,
}
use telegram_lead_assistent.Listener.ReplyChain.{ReplyChain, get_reply_chain}
use telegram_lead_assistent.Listener.ReplyChain.Chain.{IsChain, get_reply_chain-IsChain}
use telegram_lead_assistent.Tests.Fixtures.{
  message, verification, question, client, source, send_of, send_db, sent_db,
}

abbrev free : Uuid → Bool
free id = false

abbrev claimed_send : OutboundCommand
claimed_send = claimed 200 "w" (send_of 5)

abbrev claimed_db : Database
claimed_db = record send_db { outbound_commands = claimed_send ∷ (send_of 6 ∷ []) }

first_send : IsSent client 200 free "w" send_db claimed_send claimed_db
unfolding claim_send first_where first_by select_where save_command put_row update_where
    question_by_id row_by find_where run_send_once validate
first_send = record {
  taken = refl;
  question = question 5 send_requested;
  its_question = refl;
  validated = record {
    requested = refl;
    access = verification ChatVerificationOutcome.active;
    verified = refl;
    writable = refl;
    target = message none 70 305;
    answered = refl;
    in_place = refl;
  };
  run = refl;
}

run_send_once_lem_example : IsSentOrSilent client 200 free "w" send_db
run_send_once_lem_example = run_send_once_lem client 200 free "w" send_db

abbrev first_iteration : Iteration
first_iteration = record { client = client; now = 200; held = free; worker_id = "w" }

abbrev next_iteration : Iteration
next_iteration = record { client = client; now = 201; held = free; worker_id = "w" }

abbrev next_call : ClientCall
next_call = send_call (claimed 201 "w" (send_of 6))

-- A recovery, a retry of the command that was sent, and another iteration.
abbrev later_events : List Event
later_events = recovers 300 250 ∷ (retries 310 45 ∷ (iterates next_iteration ∷ []))

next_sent :
    next_call ∈ send_history later_events (committed send_db (run_of first_iteration send_db))
unfolding send_history after_event event_calls retry_failed command_by_id recover_stale any_where
    claim_send first_where first_by select_where save_command save_question put_row update_where
    question_by_id row_by find_where run_send_once validate committed complete_send
next_sent = inl refl

delivered_once_example : next_call.command_id ≢ claimed_send.id
delivered_once_example =
    delivered_once first_iteration send_db claimed_send claimed_db first_send refl later_events
      next_call next_sent

-- Another send was claimed after the limit.
abbrev recently_claimed : OutboundCommand
recently_claimed = claimed 700 "v" (send_of 6)

abbrev both_claimed_db : Database
both_claimed_db = record send_db { outbound_commands = claimed_send ∷ (recently_claimed ∷ []) }

abbrev unknown_outcome : TelegramOutboundError
unknown_outcome = record { code = unknown_error; kind = ambiguous; retry_after_seconds = none }

command_by_id-record_error_example :
    (row : OutboundCommand) × (command_by_id 45
        (record_error 200 claimed_send unknown_outcome claimed_db)
      ≡ some row)
    × IsLeft 200 claimed_send unknown_outcome row
unfolding command_by_id row_by find_where
command_by_id-record_error_example =
    command_by_id-record_error 200 claimed_send claimed_send unknown_outcome claimed_db
      (omega arith) refl

-- An edit was confirmed, and another was prepared since.
abbrev edit_of_reply : OutboundCommand
edit_of_reply =
    edit_command 46 80 (question 5 QuestionStatus.sent) 5 (draft_version 33 70 5 3 "I do, twice.")
      800

abbrev edit_db : Database
edit_db = record sent_db {
  reply_versions = sent_db.reply_versions ++ draft_version 34 90 5 4 "Thrice." ∷ [];
  outbound_commands = sent_db.outbound_commands ++ edit_of_reply ∷ [];
}

abbrev claimed_edit : OutboundCommand
claimed_edit = claimed 200 "w" edit_of_reply

abbrev claimed_edit_db : Database
claimed_edit_db = record edit_db {
  outbound_commands = sent_db.outbound_commands ++ claimed_edit ∷ [];
}

edit_made : IsEdited client 35 200 free "w" edit_db claimed_edit claimed_edit_db
unfolding claim_edit first_where first_by select_where save_command put_row update_where
    question_by_id row_by find_where run_edit_once
edit_made = record {
  taken = refl;
  question = question 5 QuestionStatus.sent;
  its_question = refl;
  sent = refl;
  message_id = 800;
  stored = refl;
  run = refl;
}

run_edit_once_lem_example : IsEditedOrSilent client 35 200 free "w" edit_db
run_edit_once_lem_example = run_edit_once_lem client 35 200 free "w" edit_db

edit_repeated_example :
    ((run_edit_once client 35 200 free "w" edit_db).calls ≡ edit_call claimed_edit 800 ∷ [])
    × ((run_edit_once client 35 200 free "w" edit_db).result ≡ err integrity_error)
    × (committed edit_db (run_edit_once client 35 200 free "w" edit_db) ≡ edit_db)
    × (claim_edit 200 free "w" (committed edit_db (run_edit_once client 35 200 free "w" edit_db))
        ≡ (some claimed_edit, claimed_edit_db))
unfolding question_by_id row_by find_where
edit_repeated_example =
    edit_repeated client 35 200 free "w" edit_db claimed_edit_db claimed_edit
      (question 5 QuestionStatus.sent) 800 (draft_version 34 90 5 4 "Thrice.") edit_made.taken refl
      refl refl refl (inr (inr (inr (inl refl)))) refl refl (λ chat_id message_id text. refl)

get_reply_chain-IsChain_example :
    (chain : ReplyChain) × (get_reply_chain source 70 5 3 ≡ ok chain) × IsChain 5 3 chain
get_reply_chain-IsChain_example =
    get_reply_chain-IsChain source (λ chat_id id message e. ground arith) 70 5 3 (omega arith)
      (omega arith)

-- A full cache, from which the oldest title goes.
abbrev full_cache : TopicTitleCache
full_cache = record {
  max_size = 2;
  items = new_item 70 1 (some "Rent") ∷ (new_item 70 2 none ∷ []);
}

get-put_example :
    (length (put 70 3 (some "Jobs") full_cache).items ≤ 2)
    × ((get 70 3 (put 70 3 (some "Jobs") full_cache)).0 ≡ (true, some "Jobs"))
get-put_example = get-put 70 3 (some "Jobs") full_cache (omega arith)
