-- ===== src/Tests/ClassifierExamples.antt =====
-- The theorems of the classifier on concrete messages.
use telegram_lead_assistent.Prelude.{
  ◌≡◌, refl, Bool, true, false, some, [], ◌∷◌, String, ok, err, arith, any_where, find_where,
  delete_where, first_where, first_by, select_where, update_where,
}
use telegram_lead_assistent.Domain.{ProcessingJobStatus}
use telegram_lead_assistent.Database.Models.{ProcessingJob, Database}
use telegram_lead_assistent.Database.Records.{ClassificationRun}
use telegram_lead_assistent.Database.Queue
use telegram_lead_assistent.Database.Queue.{new_row, claimed, save_job, get_locked}
use telegram_lead_assistent.Database.Queue.Lookup.{job_by_id}
use telegram_lead_assistent.Database.Worker.{default_policy, JobDisposition, run_once}
use telegram_lead_assistent.Listener.ReplyChain.{ReplyChain, get_reply_chain}
use telegram_lead_assistent.Classifier.Adapter.{classify}
use telegram_lead_assistent.Classifier.Usage.{
  is_stage, run_of, estimate, upsert_usage, record_stage,
}
use telegram_lead_assistent.Classifier.Usage.Accounting.{IsBalanced, total, record_stage_once}
use telegram_lead_assistent.Classifier.Stage1.{stage1_call, stage1_handler}
use telegram_lead_assistent.Classifier.Stage1.Routing.{
  routed, recorded_run, stage1_run, stage1_routes,
}
use telegram_lead_assistent.Classifier.Stage2.{
  stage2_error, stage2_call, classify_stage2, format_stage2_input, render, target_count,
  ends_in_target, join, finish_stage2,
}
use telegram_lead_assistent.Classifier.Stage2.Input.{loaded_chain_formats}
use telegram_lead_assistent.Classifier.Stage2.Final.{has_stage2, Settles, classify_stage2-Settles}
use telegram_lead_assistent.Tests.Fixtures.{source}
use telegram_lead_assistent.Tests.Answers.{
  free, today, pricing, answer, adapter, row, one_job_db, call, chain,
}

record_stage_once_example :
    (recorded : Bool) × (db' : Database) × (record_stage 20 today 7 call (one_job_db row)
      ≡ (recorded, db'))
    × IsBalanced db'.classification_runs db'.api_usage_daily
    × (record_stage 30 today 8 (stage1_call (adapter true true) pricing row (answer true true)) db'
        ≡ (false, db'))
unfolding total
record_stage_once_example =
    record_stage_once 20 today 7 call (one_job_db row) 30 today 8
      (stage1_call (adapter true true) pricing row (answer true true))
      (record { requests = refl; input = refl; output = refl; cost = refl }) refl refl refl

stage1_routes_example :
    (db' : Database) × (run_once default_policy 50 free "a"
        (stage1_handler (adapter true true) pricing 50 today 7)
        (one_job_db row)
      ≡ ok (true, db'))
    × (job_by_id 101 db'
        ≡ some (routed ProcessingJobStatus.awaiting_reply_context (claimed 50 "a" row)))
    × (find_where (is_stage 70 5 1) db'.classification_runs
        ≡ some (
            recorded_run (stage1_run (claimed 50 "a" row) (one_job_db (claimed 50 "a" row))) (
              run_of 50 7
                (stage1_call (adapter true true) pricing (claimed 50 "a" row) (answer true true)))))
unfolding Queue.claim first_where first_by select_where update_where save_job classify
stage1_routes_example =
    stage1_routes default_policy 50 free "a" (adapter true true) pricing today 7 (one_job_db row)
      (one_job_db (claimed 50 "a" row)) (claimed 50 "a" row) (answer true true) refl refl

loaded_chain_formats_example :
    (chain : ReplyChain) × (text : String) × (get_reply_chain source 70 5 3 ≡ ok chain)
    × (format_stage2_input chain ≡ ok text)
loaded_chain_formats_example =
    loaded_chain_formats source (λ chat_id id message e. ground arith) 70 5 3 (omega arith)
      (omega arith)

-- The first stage asked for the context of the message.
abbrev asked_run : ClassificationRun
asked_run = run_of 20 3 (stage1_call (adapter true true) pricing row (answer true true))

abbrev waiting : ProcessingJobStatus → ProcessingJob
waiting status = routed status row

abbrev context_db : Database
context_db = record (one_job_db (waiting ProcessingJobStatus.awaiting_reply_context)) {
  classification_runs = asked_run ∷ [];
}

abbrev settled_db : Database
settled_db =
    (record_stage 50 today 7
      (stage2_call (adapter false false) pricing
        (waiting ProcessingJobStatus.awaiting_reply_context) (answer false false))
      (record context_db { processing_jobs = [] })).1

classify_stage2-Settles_example :
    (has_stage2 (waiting ProcessingJobStatus.awaiting_reply_context) context_db ≡ false)
    × (has_stage2 (waiting ProcessingJobStatus.awaiting_reply_context) settled_db ≡ true)
    × Settles
        (waiting ProcessingJobStatus.awaiting_reply_context)
        JobDisposition.complete
        settled_db
    × (classify_stage2
          (adapter false true)
          pricing
          60
          today
          8
          (waiting ProcessingJobStatus.awaiting_reply_context)
          chain
          settled_db
        ≡ err stage2_error)
unfolding classify_stage2 format_stage2_input classify get_locked find_where record_stage estimate
    upsert_usage any_where delete_where Queue.complete render target_count ends_in_target join
    finish_stage2
classify_stage2-Settles_example =
    classify_stage2-Settles (adapter false false) pricing 50 today 7
      (waiting ProcessingJobStatus.awaiting_reply_context) chain context_db settled_db
      JobDisposition.complete (adapter false true) 60
      (waiting ProcessingJobStatus.awaiting_reply_context) chain refl refl refl refl
