-- ===== src/Listener/Outbound/Delivery.antt =====
-- What happens to a send after its delivery: iterations of the send worker, recoveries of stale claims
-- and the operator's retries, in any order.
use telegram_lead_assistent.Prelude.{
  ◌≡◌, ◌≢◌, refl, sym, subst, true, List, [], ◌∷◌, ◌++◌, arith, ◌⊎◌, inl, inr, ◌∈◌, Result, ok, err,
}
use telegram_lead_assistent.Domain.{Exception}
use telegram_lead_assistent.Database.Models.{Uuid, Timestamp, OutboundCommand, Database}
use telegram_lead_assistent.Database.Commands.{recover_stale, retry_failed}
use telegram_lead_assistent.Database.Commands.Claim.{IsSettled}
use telegram_lead_assistent.Database.Commands.Recovery.{
  IsSend, recover_stale-IsSettled, recover_stale-IsSend, retry_failed-keeps,
}
use telegram_lead_assistent.Database.Sends.{is_send_requested}
use telegram_lead_assistent.Listener.Outbound.{ClientCall, committed, send_call}
use telegram_lead_assistent.Listener.Outbound.Sending.{IsSent}
use telegram_lead_assistent.Listener.Outbound.Final.{
  is_final_answer, after_send-IsSettled, after_send-IsSend,
}
use telegram_lead_assistent.Listener.Outbound.History.{
  Iteration, run_of, run_of-IsSettled, run_of-IsSend, call-IsSettled, claimed-IsSend,
  claim_send-is_send,
}

-- A transaction of the listener or of the operator.
pub data Event : Type 0 where
  iterates : Iteration → Event
  recovers : (now limit : Timestamp) → Event
  retries : (now : Timestamp) (command_id : Uuid) → Event

-- The database after a transaction that may raise.
abbrev pub or_before : Database → Result Exception Database → Database
or_before before (ok db) = db
or_before before (err error) = before

unfoldable pub after_event : Event → Database → Database
after_event (iterates i) db = committed db (run_of i db)
after_event (recovers now limit) db = (recover_stale now limit db).1
after_event (retries now command_id) db = or_before db (retry_failed now command_id db)

unfoldable pub event_calls : Event → Database → List ClientCall
event_calls (iterates i) db = (run_of i db).calls
event_calls (recovers now limit) db = []
event_calls (retries now command_id) db = []

-- The calls that write to Telegram, each event on the database that those before it left.
unfoldable pub send_history : List Event → Database → List ClientCall
unfolding after_event event_calls
send_history [] db = []
send_history (event ∷ rest) db = event_calls event db ++ send_history rest (after_event event db)

-- The rows of the command are sends, and none is pending.
abbrev pub IsDone : Uuid → Database → Type 0
IsDone id db = IsSend id db × IsSettled id db

retries-IsDone :
    (id : Uuid) (now : Timestamp) (command_id : Uuid) (db : Database)
    (outcome : Result Exception Database)
    → retry_failed now command_id db ≡ outcome
    → IsDone id db
    → IsDone id (or_before db outcome)
retries-IsDone id now command_id db (ok db') e (sends, settled) =
    retry_failed-keeps id now command_id db db' sends settled e
retries-IsDone id now command_id db (err error) e done = done

after_event-IsDone :
    (id : Uuid) (event : Event) (db : Database) → IsDone id db → IsDone id (after_event event db)
unfolding after_event
after_event-IsDone id (iterates i) db (sends, settled) =
    (run_of-IsSend id i db sends, run_of-IsSettled id i db settled)
after_event-IsDone id (recovers now limit) db (sends, settled) =
    (recover_stale-IsSend id now limit db sends, recover_stale-IsSettled id now limit db settled)
after_event-IsDone id (retries now command_id) db done =
    retries-IsDone id now command_id db (retry_failed now command_id db) refl done

event_calls-IsDone :
    (id : Uuid) (event : Event) (db : Database)
    → IsDone id db
    → (call : ClientCall) → call ∈ event_calls event db
    → call.command_id ≢ id
unfolding event_calls
event_calls-IsDone id (iterates i) db (sends, settled) call m =
    call-IsSettled id i db settled call m
event_calls-IsDone id (recovers now limit) db done call m = absurd m
event_calls-IsDone id (retries now command_id) db done call m = absurd m

mem-append : (xs ys : List ClientCall) (c : ClientCall) → c ∈ (xs ++ ys) → (c ∈ xs) ⊎ (c ∈ ys)
mem-append [] ys c m = inr m
mem-append (x ∷ xs) ys c (inl e) = inl (inl e)
mem-append (x ∷ xs) ys c (inr m) = elim (mem-append xs ys c m) [
  | inl h ↦ inl (inr h)
  | inr h ↦ inr h
]

send_history-IsDone :
    (id : Uuid) (events : List Event) (db : Database)
    → IsDone id db
    → (call : ClientCall) → call ∈ send_history events db
    → call.command_id ≢ id
unfolding send_history
send_history-IsDone id [] db done call m = absurd m
send_history-IsDone id (event ∷ rest) db done call m =
    elim (mem-append (event_calls event db) (send_history rest (after_event event db)) call m) [
      | inl now ↦ event_calls-IsDone id event db done call now
      | inr later ↦
          send_history-IsDone id rest (after_event event db) (after_event-IsDone id event db done)
            call later
    ]

-- Once an iteration called Telegram for a command and the answer was that it is sent, that it cannot
-- be, or that nobody knows, Telegram is not called for the command again: not by later iterations,
-- whatever the client answers then and whatever rows are locked, nor after recoveries of stale claims
-- and retries by the operator, in whatever order and at whatever times.
pub delivered_once :
    (i : Iteration) (db : Database) (command : OutboundCommand) (claimed_db : Database)
    → IsSent i.client i.now i.held i.worker_id db command claimed_db
    → is_final_answer
        (i.client.send_reply command.telegram_chat_id command.source_message_id command.text)
        command.attempt_count
      ≡ true
    → (later : List Event) (call : ClientCall)
    → call ∈ send_history later (committed db (run_of i db))
    → call.command_id ≢ command.id
delivered_once i db command claimed_db sent final later call m =
    let answer =
      i.client.send_reply command.telegram_chat_id command.source_message_id command.text in
    let requested : is_send_requested sent.question.status ≡ true =
      ground (arith, sent.validated.requested) in
    let sends = claimed-IsSend i.now i.held i.worker_id db claimed_db command sent.taken in
    let a_send = (claim_send-is_send i.now i.held i.worker_id db claimed_db command sent.taken).0 in
    send_history-IsDone command.id later (committed db (run_of i db))
      (subst (λ run. IsDone command.id (committed db run)) (sym sent.run)
        (
          after_send-IsSend i.now command sent.question db claimed_db (send_call command ∷ [])
              answer sent.its_question requested final a_send sends,
          after_send-IsSettled i.now command sent.question db claimed_db (send_call command ∷ [])
              answer sent.its_question requested final,
        ))
      call m
