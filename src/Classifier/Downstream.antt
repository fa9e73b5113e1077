-- ===== src/Classifier/Downstream.antt =====
-- app/classifier/downstream.py: the classifier's handler of the downstream queue, which reads the chain
-- from the snapshot of the listener.
use telegram_lead_assistent.Prelude.{
  ◌==◌, false, Option, none, some, Result, ok, err, ◌>>=◌, ◌>>◌, guard,
}
use telegram_lead_assistent.Domain.{Exception, raised, ProcessingJobStatus}
use telegram_lead_assistent.Database.Models.{Uuid, Timestamp, Date, Json, ProcessingJob, Database}
use telegram_lead_assistent.Database.Worker.{DownstreamJobHandler}
use telegram_lead_assistent.Listener.ReplyChain.{ReplyChain}
use telegram_lead_assistent.Listener.ReplyChain.Snapshot.{SnapshotModel, deserialize_reply_chain}
use telegram_lead_assistent.Classifier.Adapter.{ClassificationAdapter}
use telegram_lead_assistent.Classifier.Usage.{ClassificationPricing}
use telegram_lead_assistent.Classifier.Stage2.{classify_stage2}
use telegram_lead_assistent.Classifier.Relevant.{PersistenceService, NewIds, persist}

abbrev pub downstream_error : Exception
downstream_error = raised "DownstreamClassificationError" (some "INVALID_DOWNSTREAM_HANDOFF") false

-- What the handler is built with, and the values that the database gives it.
pub record DownstreamSetting : Type 0 where
  pub model : SnapshotModel
  pub adapter : ClassificationAdapter
  pub pricing : ClassificationPricing
  pub service : PersistenceService
  pub now : Timestamp
  pub today : Date
  pub run_id : Uuid
  pub ids : NewIds

unfoldable pub snapshot_of : Option Json → Result Exception Json
snapshot_of none = err downstream_error
snapshot_of (some value) = ok value

-- The two services, and the error of any other status.
abbrev pub dispatch :
    DownstreamSetting
    → ProcessingJobStatus
    → ProcessingJob
    → ReplyChain
    → Database
    → Result Exception Database
dispatch s ProcessingJobStatus.awaiting_reply_context job chain db =
    classify_stage2 s.adapter s.pricing s.now s.today s.run_id job chain db >>= λ done. ok done.1
dispatch s ProcessingJobStatus.awaiting_relevant_processing job chain db =
    persist s.service s.now s.ids job chain db >>= λ done. ok done.1
dispatch s _ job chain db = err downstream_error

unfoldable pub downstream_handler : DownstreamSetting → DownstreamJobHandler
unfolding snapshot_of
downstream_handler s job db = do
  value ← snapshot_of job.reply_chain_snapshot
  chain ← deserialize_reply_chain s.model value
  guard (chain.chat_id == job.telegram_chat_id) downstream_error
  dispatch s job.status job chain db
