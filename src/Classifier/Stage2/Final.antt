-- ===== src/Classifier/Stage2/Final.antt =====
-- The second stage is the last one: it settles the job, and it runs once.
use telegram_lead_assistent.Prelude.{
  ◌≡◌, refl, subst, sym, ◌∙◌, Bool, true, false, not, none, some, Result, ok, err, ◌⊎◌, inl, inr,
  Bool-cases, any_where, any_where_of_find, guard, ◌>>◌, >>=-eq-ok, guard->>-eq-ok, ok-injective,
}
use telegram_lead_assistent.Domain.{Exception, ProcessingJobStatus}
use telegram_lead_assistent.Database.Models.{Uuid, Timestamp, Date, ProcessingJob, Database}
use telegram_lead_assistent.Database.Queue
use telegram_lead_assistent.Database.Queue.{get_locked}
use telegram_lead_assistent.Database.Queue.Lookup.{job_by_id}
use telegram_lead_assistent.Database.Worker.{JobDisposition}
use telegram_lead_assistent.Classifier.Adapter.{
  ClassificationAdapter, classify, stage2_system_prompt,
}
use telegram_lead_assistent.Classifier.Usage.{
  ClassificationPricing, StageCall, is_stage, record_stage,
}
use telegram_lead_assistent.Classifier.Usage.Accounting.{record_stage_has_run}
use telegram_lead_assistent.Classifier.Stage1.Routing.{
  routed, record_stage_jobs, get_locked_same, route_lem, complete_lem,
}
use telegram_lead_assistent.Classifier.Stage2.{
  awaits_context, asks_for_context, run_at, stage2_call, stage2_error, may_run, settle_stage2,
  stage2_non_final_result, finish_stage2, classify_stage2, format_stage2_input,
}
use telegram_lead_assistent.Listener.ReplyChain.{ReplyChain}

-- Whether the second stage of the job's message has run.
abbrev pub has_stage2 : ProcessingJob → Database → Bool
has_stage2 job db =
    any_where (is_stage job.telegram_chat_id job.telegram_message_id 2) db.classification_runs

-- How a job leaves the second stage.
abbrev pub Settles : ProcessingJob → JobDisposition → Database → Type 0
Settles job disposition db =
    ((disposition ≡ JobDisposition.complete) × (job_by_id job.id db ≡ none))
    ⊎ ((disposition ≡ JobDisposition.retain)
        × (job_by_id job.id db
            ≡ some (routed ProcessingJobStatus.awaiting_relevant_processing job)))

finish_stage2_lem :
    (is_relevant : Bool) (job : ProcessingJob) (db : Database)
    → get_locked job.id db ≡ ok job
    → (disposition : JobDisposition) × (db' : Database) × (finish_stage2 job.id is_relevant db
        ≡ ok (disposition, db'))
      × Settles job disposition db'
      × (db'.classification_runs ≡ db.classification_runs)
unfolding finish_stage2 Queue.complete
finish_stage2_lem true job db found =
    let (db', e, row, runs) =
      route_lem ProcessingJobStatus.awaiting_relevant_processing job db refl found in
    (JobDisposition.retain, db', rw e refl, inr (refl, row), runs)
finish_stage2_lem false job db found =
    (JobDisposition.complete, Queue.complete job.id db, refl, inl (refl, complete_lem job db), refl)

-- What a successful second stage went through: the guard of its single run, and an answer.
-- The three guards raise the same error.
refused :
    (a b : Bool)
    → ◌≡◌ {A = Result Exception (Unit {0})}
        (guard a stage2_error >> (guard b stage2_error >> guard false stage2_error))
        (err stage2_error)
refused true true = refl
refused true false = refl
refused false b = refl

settle_stage2_lem :
    (now : Timestamp) (today : Date) (fresh : Uuid) (call : StageCall) (job : ProcessingJob)
    (db db' : Database) (disposition : JobDisposition)
    → get_locked job.id db ≡ ok job
    → settle_stage2 now today fresh call job.id db ≡ ok (disposition, db')
    → Settles job disposition db'
      × (db'.classification_runs ≡ (record_stage now today fresh call db).1.classification_runs)
unfolding settle_stage2
settle_stage2_lem now today fresh call job db db' disposition found h =
    let recorded = record_stage now today fresh call db in
    let rest = finish_stage2 job.id call.response.result.is_relevant recorded.1 in
    let (final, h1) =
      guard->>-eq-ok (not call.response.result.context_required) stage2_non_final_result
        (guard recorded.0 stage2_error >> rest) h in
    let (inserted, h2) = guard->>-eq-ok recorded.0 stage2_error rest h1 in
    let (d, db'', e, settles, runs) =
      finish_stage2_lem call.response.result.is_relevant job recorded.1 (
        get_locked_same job.id recorded.1 db (record_stage_jobs now today fresh call db) ∙ found) in
    let same : ◌≡◌ {A = JobDisposition × Database} (d, db'') (disposition, db') =
      ok-injective (sym e ∙ h2) in
    subst
      (λ pair.
        Settles job pair.0 pair.1 × (pair.1.classification_runs ≡ recorded.1.classification_runs))
      same (settles, runs)

may_run_again :
    (job : ProcessingJob) (db : Database)
    → has_stage2 job db ≡ true
    → may_run job db ≡ err stage2_error
unfolding may_run
may_run_again job db used =
    rw used (refused (awaits_context job.status) (asks_for_context (run_at 1 job db)))

err_not_ok : {e : Exception} → ¬ (◌≡◌ {A = Result Exception (Unit {0})} (err e) (ok tt))
err_not_ok h = cc

may_run-ok :
    (job : ProcessingJob) (db : Database) → may_run job db ≡ ok tt → has_stage2 job db ≡ false
may_run-ok job db h = elim (Bool-cases (has_stage2 job db)) [
  | inr e ↦ e
  | inl e ↦ absurd (err_not_ok (sym (may_run_again job db e) ∙ h))
]

-- If the second stage succeeds for a job of the table, then it had not run for the job's message
-- before and has run afterwards; the job's row is gone, or it waits, unlocked and with no attempt
-- counted, for the relevant processing, as the disposition says; and from then on the second stage
-- is refused for any job of that message, whatever the model would answer.
pub classify_stage2-Settles :
    (adapter : ClassificationAdapter) (pricing : ClassificationPricing) (now : Timestamp)
    (today : Date) (fresh : Uuid) (job : ProcessingJob) (chain : ReplyChain) (db db' : Database)
    (disposition : JobDisposition) (again : ClassificationAdapter) (later : Timestamp)
    (other : ProcessingJob) (next : ReplyChain)
    → get_locked job.id db ≡ ok job
    → classify_stage2 adapter pricing now today fresh job chain db ≡ ok (disposition, db')
    → other.telegram_chat_id ≡ job.telegram_chat_id
    → other.telegram_message_id ≡ job.telegram_message_id
    → (has_stage2 job db ≡ false)
      × (has_stage2 job db' ≡ true)
      × Settles job disposition db'
      × (classify_stage2 again pricing later today fresh other next db' ≡ err stage2_error)
unfolding classify_stage2
classify_stage2-Settles adapter pricing now today fresh job chain db db' disposition again later
      other next found h c m =
    let call_of = stage2_call adapter pricing job in
    let (nothing, allowed, h1) = >>=-eq-ok (may_run job db) _ h in
    let (text, formatted, h2) = >>=-eq-ok (format_stage2_input chain) _ h1 in
    let (response, answered, h3) = >>=-eq-ok (classify adapter stage2_system_prompt text) _ h2 in
    let call = call_of response in
    let (settles, runs) = settle_stage2_lem now today fresh call job db db' disposition found h3 in
    let (run, has_run) = record_stage_has_run now today fresh call db in
    let used : has_stage2 job db' ≡ true = rw runs (
      any_where_of_find (is_stage job.telegram_chat_id job.telegram_message_id 2)
        (record_stage now today fresh call db).1.classification_runs run has_run) in
    (may_run-ok job db allowed, used, settles, rw (may_run_again other db' (rw (c, m) used)) refl)
