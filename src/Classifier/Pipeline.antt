-- ===== src/Classifier/Pipeline.antt =====
-- The two downstream workers one after the other: the listener's, which loads the reply chain of a
-- row and publishes it, and the classifier's, which reads it and makes the message a question.
use telegram_lead_assistent.Prelude.{
  ◌≡◌, refl, sym, subst, ap, ◌∙◌, Bool, true, ◌==◌, none, some, List, map, String, ok, arith,
  any_where, update_where_sound, inl, inr, Bool-cases, ok-injective, ◌∈◌,
}
use telegram_lead_assistent.Domain.{ProcessingJobStatus}
use telegram_lead_assistent.Database.Models.{Uuid, TelegramId, Timestamp, ProcessingJob, Database}
use telegram_lead_assistent.Database.Records.{ClassificationRun, QuestionChainMessage}
use telegram_lead_assistent.Database.Queue.{save_job, has_id}
use telegram_lead_assistent.Database.Downstream
use telegram_lead_assistent.Database.Downstream.{DownstreamPhase, published, taken}
use telegram_lead_assistent.Database.Downstream.Claim.{claim_waiting-some, get_locked-claim_waiting}
use telegram_lead_assistent.Database.Worker.{RetryPolicy, run_downstream_once}
use telegram_lead_assistent.Listener.ReplyChain.{ReplyChain, ReplyMessageSource, get_reply_chain}
use telegram_lead_assistent.Listener.ReplyChain.Turns.{FetchesById}
use telegram_lead_assistent.Listener.ReplyChain.Chain.{IsChain, get_reply_chain-IsChain}
use telegram_lead_assistent.Listener.ReplyChain.Snapshot.{
  SnapshotModel, ValidatesDumps, serialize_reply_chain, deserialize-serialize, snapshot_handler,
}
use telegram_lead_assistent.Translation.Client.{TranslationResult}
use telegram_lead_assistent.Classifier.Relevant.{
  available, question_of, question_row, relevant_run, awaits_processing, with_question, persist,
}
use telegram_lead_assistent.Classifier.Relevant.Stored.{
  is_readable_target, numbered, persist_stores,
}
use telegram_lead_assistent.Classifier.Downstream.{
  DownstreamSetting, snapshot_of, dispatch, downstream_handler,
}

-- The chain is of the chat that it was asked for.
get_reply_chain-chat_id :
    (source : ReplyMessageSource) (chat_id message_id : TelegramId) (chain : ReplyChain)
    → get_reply_chain source chat_id message_id 10 ≡ ok chain
    → chain.chat_id ≡ chat_id
unfolding get_reply_chain
get_reply_chain-chat_id source chat_id message_id chain h = ground arith

-- The row of an identifier that was just written.
saved_row :
    (job row : ProcessingJob) (db : Database)
    → row ∈ (save_job job db).processing_jobs
    → row.id ≡ job.id
    → row ≡ job
unfolding save_job
saved_row job row db m e =
    let (old, i, same) = update_where_sound (has_id job.id) (λ _. job) db.processing_jobs row m in
    elim (Bool-cases (has_id job.id old)) [
      | inl hit ↦ ground arith
      | inr miss ↦ absurd (ground arith)
    ]

-- The tables that a claim and a publication leave alone.
claim_keeps :
    (now : Timestamp) (held : Uuid → Bool) (worker_id : String) (phase : DownstreamPhase)
    (db db' : Database) (got : ProcessingJob)
    → Downstream.claim now held worker_id phase db ≡ (some got, db')
    → (db'.detected_questions ≡ db.detected_questions)
      × (db'.classification_runs ≡ db.classification_runs)
unfolding save_job
claim_keeps now held worker_id phase db db' got h =
    let (job, oldest, t, d) = claim_waiting-some now held worker_id phase db db' got h in
    (ap (λ x. x.detected_questions) d, ap (λ x. x.classification_runs) d)

-- The listener's worker publishes the chain of the claimed row.
listener_publishes :
    (policy : RetryPolicy) (now : Timestamp) (held : Uuid → Bool) (worker_id : String)
    (model : SnapshotModel) (source : ReplyMessageSource) (chain : ReplyChain)
    (db claimed_db : Database) (job : ProcessingJob)
    → Downstream.claim now held worker_id DownstreamPhase.reply_chain db ≡ (some job, claimed_db)
    → get_reply_chain source job.telegram_chat_id job.telegram_message_id 10 ≡ ok chain
    → run_downstream_once policy now held worker_id DownstreamPhase.reply_chain
        (snapshot_handler model source now)
        db
      ≡ ok (true, save_job (published now (serialize_reply_chain model chain) job) claimed_db)
unfolding run_downstream_once snapshot_handler Downstream.save_reply_chain
listener_publishes policy now held worker_id model source chain db claimed_db job c e =
    rw (c, e)
      (rw
        (get_locked-claim_waiting now held worker_id DownstreamPhase.reply_chain db claimed_db job
          c)
        refl)

awaits_processing-eq :
    (status : ProcessingJobStatus)
    → awaits_processing status ≡ true
    → status ≡ ProcessingJobStatus.awaiting_relevant_processing
awaits_processing-eq ProcessingJobStatus.awaiting_relevant_processing h = refl
awaits_processing-eq ProcessingJobStatus.pending h = cc
awaits_processing-eq ProcessingJobStatus.processing h = cc
awaits_processing-eq ProcessingJobStatus.retry h = cc
awaits_processing-eq ProcessingJobStatus.failed h = cc
awaits_processing-eq ProcessingJobStatus.awaiting_reply_context h = cc

dispatch-persist :
    (s : DownstreamSetting) (status : ProcessingJobStatus) (job : ProcessingJob)
    (chain : ReplyChain) (db db' : Database) (id : Uuid)
    → awaits_processing status ≡ true
    → persist s.service s.now s.ids job chain db ≡ ok (id, db')
    → dispatch s status job chain db ≡ ok db'
dispatch-persist s status job chain db db' id waits stored =
    subst (λ st. dispatch s st job chain db ≡ ok db') (sym (awaits_processing-eq status waits))
      (rw stored refl)

-- The rows of the message are where they were.
unmoved :
    (job job' : ProcessingJob) (db db' : Database)
    → job'.telegram_chat_id ≡ job.telegram_chat_id
    → job'.telegram_message_id ≡ job.telegram_message_id
    → db'.detected_questions ≡ db.detected_questions
    → db'.classification_runs ≡ db.classification_runs
    → (question_row job' db' ≡ question_row job db) × (relevant_run job' db' ≡ relevant_run job db)
unmoved job job' db db' c m q r = (cc, cc)

-- The classifier's handler reads the chain back and persists the question.
handler_persists :
    (s : DownstreamSetting)
    → ValidatesDumps s.model
    → (chain : ReplyChain) (job : ProcessingJob) (db db' : Database) (id : Uuid)
    → job.reply_chain_snapshot ≡ some (serialize_reply_chain s.model chain)
    → chain.chat_id ≡ job.telegram_chat_id
    → awaits_processing job.status ≡ true
    → persist s.service s.now s.ids job chain db ≡ ok (id, db')
    → downstream_handler s job db ≡ ok db'
unfolding downstream_handler snapshot_of
handler_persists s law chain job db db' id published_chain ours waits stored =
    let found : snapshot_of job.reply_chain_snapshot ≡ ok (serialize_reply_chain s.model chain) =
      ap snapshot_of published_chain in
    let test : (chain.chat_id == job.telegram_chat_id) ≡ true = ground arith in
    rw
      (
        found,
        deserialize-serialize s.model law chain,
        test,
        dispatch-persist s job.status job chain db db' id waits stored,
      )
      refl

-- Let the listener's worker claim a row that waits for the relevant processing, of a message that
-- has no question but a relevant classification, and let Telegram answer with the messages that are
-- asked for, the row's own message among them. Then the listener's iteration succeeds and publishes
-- the loaded chain. If the classifier's worker then claims the row, its iteration succeeds: the
-- message's question, its notification and the messages of the chain that could be read, in their
-- order and numbered from 0, are stored, and the row is removed.
pub relevant_message_becomes_question :
    (policy : RetryPolicy) (now later : Timestamp) (held held' : Uuid → Bool)
    (listener classifier : String) (source : ReplyMessageSource) (s : DownstreamSetting)
    (chain : ReplyChain) (classification : ClassificationRun) (db db₁ db₃ : Database)
    (job job' : ProcessingJob)
    → FetchesById source
    → ValidatesDumps s.model
    → Downstream.claim now held listener DownstreamPhase.reply_chain db ≡ (some job, db₁)
    → awaits_processing job.status ≡ true
    → question_row job db ≡ none
    → relevant_run job db ≡ some classification
    → get_reply_chain source job.telegram_chat_id job.telegram_message_id 10 ≡ ok chain
    → any_where is_readable_target chain.items ≡ true
    → Downstream.claim later held' classifier DownstreamPhase.classification
        (save_job (published now (serialize_reply_chain s.model chain) job) db₁)
      ≡ (some job', db₃)
    → job'.id ≡ job.id
    → (run_downstream_once policy now held listener DownstreamPhase.reply_chain
          (snapshot_handler s.model source now)
          db
        ≡ ok (true, save_job (published now (serialize_reply_chain s.model chain) job) db₁))
      × (target : TranslationResult) × (rows : List QuestionChainMessage) × (run_downstream_once
            policy later held' classifier DownstreamPhase.classification
            (downstream_handler s)
            (save_job (published now (serialize_reply_chain s.model chain) job) db₁)
          ≡ ok (
            true,
            with_question s.service s.now s.ids job'
                (question_of s.now s.ids.question_id job' chain classification target)
                rows
                db₃,
          ))
      × (map (λ row. (row.position, row.telegram_message_id)) rows
          ≡ numbered 0 (available chain.items))
unfolding run_downstream_once save_job
relevant_message_becomes_question policy now later held held' listener classifier source s chain
      classification db db₁ db₃ job job' fetches law c waits new run loaded readable c' same =
    let db₂ = save_job (published now (serialize_reply_chain s.model chain) job) db₁ in
    let new_job = published now (serialize_reply_chain s.model chain) job in
    let (old, oldest, t, d) =
      claim_waiting-some later held' classifier DownstreamPhase.classification db₂ db₃ job' c' in
    let is_new : old ≡ new_job =
      saved_row new_job old db₁ oldest.stored (ap (λ x. x.id) (sym t) ∙ same) in
    let its_job : job' ≡ taken later classifier new_job = t ∙ ap (taken later classifier) is_new in
    let chat : job'.telegram_chat_id ≡ job.telegram_chat_id =
      ap (λ x. x.telegram_chat_id) its_job in
    let message : job'.telegram_message_id ≡ job.telegram_message_id =
      ap (λ x. x.telegram_message_id) its_job in
    let (c1, i1) = claim_keeps now held listener DownstreamPhase.reply_chain db db₁ job c in
    let (c2, i2) =
      claim_keeps later held' classifier DownstreamPhase.classification db₂ db₃ job' c' in
    let (q, r) = unmoved job job' db db₃ chat message (c2 ∙ c1) (i2 ∙ i1) in
    let ours : chain.chat_id ≡ job'.telegram_chat_id =
      get_reply_chain-chat_id source job.telegram_chat_id job.telegram_message_id chain loaded
      ∙ sym chat in
    let (loaded', e, is_chain) =
      get_reply_chain-IsChain source fetches job.telegram_chat_id job.telegram_message_id 10
        (omega arith) (omega arith) in
    let its_chain : IsChain job'.telegram_message_id 10 chain =
      subst (λ id. IsChain id 10 chain) (sym message)
        (subst (λ x. IsChain job.telegram_message_id 10 x) (ok-injective (sym e ∙ loaded))
          is_chain) in
    let waits' : awaits_processing job'.status ≡ true =
      ap (λ x. awaits_processing x.status) its_job ∙ waits in
    let (target, rows, stored, order) =
      persist_stores s.service s.now s.ids job' chain 10 classification db₃ waits' ours its_chain
        readable (q ∙ new) (r ∙ run) in
    (
      listener_publishes policy now held listener s.model source chain db db₁ job c loaded,
      target,
      rows,
      rw
          (
            c',
            handler_persists s law chain job' db₃ _ _ (ap (λ x. x.reply_chain_snapshot) its_job)
                ours waits' stored,
          )
          refl,
      order,
    )
