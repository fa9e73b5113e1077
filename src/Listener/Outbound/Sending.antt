-- ===== src/Listener/Outbound/Sending.antt =====
-- What one iteration of the send worker sends.
use telegram_lead_assistent.Prelude.{
  ◌≡◌, refl, ap, Bool, true, Option, none, some, [], ◌∷◌, String, ok, arith, ◌⊎◌, inl, inr,
  Option-cases, Result-cases, >>=-eq-ok, guard->>-eq-ok, ◌∙◌,
}
use telegram_lead_assistent.Database.Models.{
  Uuid, Timestamp, DetectedQuestion, OutboundCommand, Database,
}
use telegram_lead_assistent.Database.Questions.{question_by_id}
use telegram_lead_assistent.Database.Commands.{claim_send}
use telegram_lead_assistent.Listener.Mtproto.{ChatVerificationOutcome, ChatVerificationResult}
use telegram_lead_assistent.Listener.ReplyChain.{ReplyMessage}
use telegram_lead_assistent.Listener.Outbound.{
  MtprotoOutboundClient, has_destination, is_target, check_access, check_target, validate,
  send_call, send_validated, send_claimed, after_send, run_send_once,
}

-- The checks before a call: the question asks for this send, the chat may be written to, and Telegram
-- still has the message that is answered, in its chat and topic.
pub record IsValidated (client : MtprotoOutboundClient) (command : OutboundCommand)
    (question : DetectedQuestion) : Type 0 where
  pub requested : has_destination command question ≡ true
  pub access : ChatVerificationResult
  pub verified : client.verify_chat command.telegram_chat_id ≡ ok access
  pub writable : access.outcome ≡ ChatVerificationOutcome.active
  pub target : ReplyMessage
  pub answered :
      client.get_reply_message command.telegram_chat_id command.source_message_id ≡ ok (some target)
  pub in_place : is_target command target ≡ true

check_access-ok :
    (outcome : ChatVerificationOutcome) {t : Unit {0}}
    → check_access outcome ≡ ok t
    → outcome ≡ ChatVerificationOutcome.active
unfolding check_access
check_access-ok ChatVerificationOutcome.active h = refl
check_access-ok ChatVerificationOutcome.read_only h = cc
check_access-ok ChatVerificationOutcome.access_lost h = cc
check_access-ok ChatVerificationOutcome.verification_failed h = cc

check_target-ok :
    (command : OutboundCommand) (found : Option ReplyMessage) {t : Unit {0}}
    → check_target command found ≡ ok t
    → (target : ReplyMessage) × (found ≡ some target) × (is_target command target ≡ true)
unfolding check_target
check_target-ok command none h = cc
check_target-ok command (some target) h = (target, refl, ground (arith, h))

validate-ok :
    (client : MtprotoOutboundClient) (command : OutboundCommand) (question : DetectedQuestion)
    (t : Unit {0})
    → validate client command question ≡ ok t
    → IsValidated client command question
unfolding validate
validate-ok client command question t h =
    let (requested, h1) = guard->>-eq-ok (has_destination command question) _ _ h in
    let (access, verified, h2) = >>=-eq-ok (client.verify_chat command.telegram_chat_id) _ h1 in
    let (u, open_chat, h3) = >>=-eq-ok (check_access access.outcome) _ h2 in
    let (found, got, h4) =
      >>=-eq-ok (client.get_reply_message command.telegram_chat_id command.source_message_id) _
        h3 in
    let (target, f, in_place) = check_target-ok command found h4 in
    record {
      requested = requested;
      access = access;
      verified = verified;
      writable = check_access-ok access.outcome open_chat;
      target = target;
      answered = got ∙ ap ok f;
      in_place = in_place;
    }

module _ (client : MtprotoOutboundClient) (now : Timestamp) (held : Uuid → Bool)
    (worker_id : String) (db : Database) where
  -- A claimed command that was sent for.
  pub record IsSent (command : OutboundCommand) (claimed_db : Database) : Type 0 where
    pub taken : claim_send now held worker_id db ≡ (some command, claimed_db)
    pub question : DetectedQuestion
    pub its_question : question_by_id command.question_id claimed_db ≡ some question
    pub validated : IsValidated client command question
    pub run : run_send_once client now held worker_id db ≡ record {
      calls = send_call command ∷ [];
      result =
          after_send now command
            (client.send_reply command.telegram_chat_id command.source_message_id command.text)
            claimed_db;
    }

  -- No call was made.
  abbrev pub IsSilent : Type 0
  IsSilent = (run_send_once client now held worker_id db).calls ≡ []

  abbrev pub IsSentOrSilent : Type 0
  IsSentOrSilent =
      IsSilent ⊎ ((command : OutboundCommand) × (claimed_db : Database) × IsSent command claimed_db)

  sent_validated :
      (command : OutboundCommand) (claimed_db : Database) (question : DetectedQuestion)
      → claim_send now held worker_id db ≡ (some command, claimed_db)
      → question_by_id command.question_id claimed_db ≡ some question
      → IsSentOrSilent
  unfolding run_send_once send_claimed send_validated
  sent_validated command claimed_db question c q =
      elim (Result-cases (validate client command question)) [
        | inl (t, v) ↦ inr (
          command,
          claimed_db,
          record {
            taken = c;
            question = question;
            its_question = q;
            validated = validate-ok client command question t v;
            run = rw c (rw (q, send_claimed) (rw v refl));
          },
        )
        | inr (e, v) ↦ inl (rw c (rw (q, send_claimed) (rw v refl)))
      ]

  sent_claimed :
      (command : OutboundCommand) (claimed_db : Database)
      → claim_send now held worker_id db ≡ (some command, claimed_db)
      → IsSentOrSilent
  unfolding run_send_once send_claimed
  sent_claimed command claimed_db c =
      elim (Option-cases (question_by_id command.question_id claimed_db)) [
        | inl q ↦ inl (rw c (rw (q, send_claimed) refl))
        | inr (question, q) ↦ sent_validated command claimed_db question c q
      ]

  claimed_or_not :
      (taken : Option OutboundCommand) (claimed_db : Database)
      → claim_send now held worker_id db ≡ (taken, claimed_db)
      → IsSentOrSilent
  unfolding run_send_once send_claimed
  claimed_or_not none claimed_db c = inl (rw c refl)
  claimed_or_not (some command) claimed_db c = sent_claimed command claimed_db c

  -- An iteration of the send worker calls `send_reply` at most once, and only with the chat, the
  -- message and the text of the command that it claimed, after all the checks of that command passed.
  pub run_send_once_lem : IsSentOrSilent
  run_send_once_lem =
      claimed_or_not (claim_send now held worker_id db).0 (claim_send now held worker_id db).1 refl
