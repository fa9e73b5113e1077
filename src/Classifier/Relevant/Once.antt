-- ===== src/Classifier/Relevant/Once.antt =====
-- A message becomes a question once.
use telegram_lead_assistent.Prelude.{
  ◌≡◌, refl, sym, ap, ◌∙◌, true, ◌==◌, ==_refl, Option, none, some, List, Result, ok, err, arith,
  select_where, find_where-append_none, >>=-eq-ok, guard->>-eq-ok, ok-injective,
}
use telegram_lead_assistent.Domain.{Exception}
use telegram_lead_assistent.Database.Models.{
  Uuid, Timestamp, ProcessingJob, DetectedQuestion, Database,
}
use telegram_lead_assistent.Database.Records.{ClassificationRun, QuestionChainMessage}
use telegram_lead_assistent.Database.Queue
use telegram_lead_assistent.Listener.ReplyChain.{ReplyChain}
use telegram_lead_assistent.Translation.Client.{TranslationResult}
use telegram_lead_assistent.Classifier.Relevant.{
  PersistenceService, NewIds, persistence_error, identifies, available, translate_items,
  translation_of_target, chain_messages, question_of, is_question_of, question_row, relevant_run,
  awaits_processing, with_question, store_question, persist,
}

-- What a successful store wrote.
pub store_question-ok :
    (service : PersistenceService) (now : Timestamp) (ids : NewIds) (job : ProcessingJob)
    (chain : ReplyChain) (classification : ClassificationRun) (db db' : Database) (id : Uuid)
    → store_question service now ids job chain classification db ≡ ok (id, db')
    → (target : TranslationResult) × (rows : List QuestionChainMessage) × (id ≡ ids.question_id)
      × (db'
          ≡ with_question service now ids job
              (question_of now ids.question_id job chain classification target)
              rows
              db)
unfolding store_question
store_question-ok service now ids job chain classification db db' id h =
    let (found, h1) =
      guard->>-eq-ok
        (identifies job.telegram_message_id (select_where (λ item. item.is_target) chain.items))
        persistence_error _ h in
    let (pairs, translated, h2) =
      >>=-eq-ok (translate_items service (available chain.items)) _ h1 in
    let (target, its, h3) = >>=-eq-ok (translation_of_target pairs) _ h2 in
    let (rows, made, h4) = >>=-eq-ok (chain_messages ids 0 pairs) _ h3 in
    let same = ok-injective h4 in
    (target, rows, sym (ap (λ pair. pair.0) same), sym (ap (λ pair. pair.1) same))

-- The question of the job's message after a successful call.
question_row-with_question :
    (service : PersistenceService) (now : Timestamp) (ids : NewIds) (job : ProcessingJob)
    (question : DetectedQuestion) (rows : List QuestionChainMessage) (db : Database)
    → question_row job db ≡ none
    → question.telegram_chat_id ≡ job.telegram_chat_id
    → question.telegram_message_id ≡ job.telegram_message_id
    → question_row job (with_question service now ids job question rows db) ≡ some question
unfolding Queue.complete
question_row-with_question service now ids job question rows db new c m =
    find_where-append_none (is_question_of job.telegram_chat_id job.telegram_message_id)
      db.detected_questions question new
    ∙ ground (arith, ==_refl job.telegram_chat_id, ==_refl job.telegram_message_id)

-- A successful call leaves a question of the message, with the identifier that it returns.
pub persist-question_row :
    (service : PersistenceService) (now : Timestamp) (ids : NewIds) (job : ProcessingJob)
    (chain : ReplyChain) (db db' : Database) (id : Uuid)
    → persist service now ids job chain db ≡ ok (id, db')
    → (row : DetectedQuestion) × (question_row job db' ≡ some row) × (row.id ≡ id)
unfolding persist
persist-question_row service now ids job chain db db' id h =
    let (waits, h1) = guard->>-eq-ok (awaits_processing job.status) persistence_error _ h in
    let (ours, h2) =
      guard->>-eq-ok (chain.chat_id == job.telegram_chat_id) persistence_error _ h1 in
    go (question_row job db) (relevant_run job db) refl h2
  where
    kept :
        (row : DetectedQuestion) (db'' : Database)
        → question_row job db ≡ some row
        → Queue.complete job.id db ≡ db''
        → question_row job db'' ≡ some row
    kept row db'' e d = rw⁻¹ d (unfold Queue.complete in e)

    not_ok : ¬ (◌≡◌ {A = Result Exception (Uuid × Database)} (err persistence_error) (ok (id, db')))
    not_ok k = cc

    go :
        (existing : Option DetectedQuestion) (run : Option ClassificationRun)
        → question_row job db ≡ existing
        → (elim existing [
          | some row ↦ ok (row.id, Queue.complete job.id db)
          | none ↦ elim run [
            | none ↦ err persistence_error
            | some classification ↦ store_question service now ids job chain classification db
          ]
        ])
          ≡ ok (id, db')
        → (row : DetectedQuestion) × (question_row job db' ≡ some row) × (row.id ≡ id)
    go (some row) run e k =
        let same = ok-injective k in
        (row, kept row db' e (ap (λ pair. pair.1) same), ap (λ pair. pair.0) same)
    go none none e k = absurd (not_ok k)
    go none (some classification) e k =
        let (target, rows, i, d) =
          store_question-ok service now ids job chain classification db db' id k in
        let question = question_of now ids.question_id job chain classification target in
        (
          question,
          rw d (question_row-with_question service now ids job question rows db e refl refl),
          sym i,
        )

same_row :
    (other job : ProcessingJob) (db : Database)
    → other.telegram_chat_id ≡ job.telegram_chat_id
    → other.telegram_message_id ≡ job.telegram_message_id
    → question_row other db ≡ question_row job db
same_row other job db c m = cc

-- Once a call has succeeded, a call for any job of the same message that waits for the relevant
-- processing, with any chain of its chat and at any later time, returns the identifier of the
-- question that the first call returned, and does nothing but remove its job: no second question,
-- chain message or notification is stored.
pub persist_once :
    (service : PersistenceService) (now : Timestamp) (ids : NewIds) (job : ProcessingJob)
    (chain : ReplyChain) (db db' : Database) (id : Uuid) (other_service : PersistenceService)
    (later : Timestamp) (other_ids : NewIds) (other : ProcessingJob) (other_chain : ReplyChain)
    → persist service now ids job chain db ≡ ok (id, db')
    → other.telegram_chat_id ≡ job.telegram_chat_id
    → other.telegram_message_id ≡ job.telegram_message_id
    → awaits_processing other.status ≡ true
    → other_chain.chat_id ≡ other.telegram_chat_id
    → persist other_service later other_ids other other_chain db'
      ≡ ok (id, Queue.complete other.id db')
unfolding persist
persist_once service now ids job chain db db' id other_service later other_ids other other_chain h c
      m waits ours =
    let (row, e, i) = persist-question_row service now ids job chain db db' id h in
    let again : question_row other db' ≡ some row = same_row other job db' c m ∙ e in
    rw (waits, ours, ==_refl other.telegram_chat_id, again, i) refl
