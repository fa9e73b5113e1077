-- ===== src/Database/Downstream/Claim.antt =====
-- Claiming downstream work.
use telegram_lead_assistent.Prelude.{
  ◌+◌, ◌≤◌, ◌≡◌, ◌≢◌, refl, subst, Bool, true, false, none, some, String, ok, arith, ◌⊎◌, inl, inr,
  ◌∈◌, ==_refl, first_where, IsFirst, first_where-IsFirst, first_where-none, Option-cases,
  update_where_sound,
}
use telegram_lead_assistent.Database.Models.{Uuid, Timestamp, Json, ProcessingJob, Database}
use telegram_lead_assistent.Database.Queue.{
  created_before, has_id, is_downstream, save_job, get_locked,
}
use telegram_lead_assistent.Database.Queue.Lookup.{
  job_by_id, job_by_id-save_job, job_by_id_of_get_locked, get_locked-save_job,
}
use telegram_lead_assistent.Database.Queue.Claim.{created_before-IsOrder}
use telegram_lead_assistent.Database.Downstream.{
  DownstreamPhase, reply_chain, classification, is_waiting, stale_lock_after, taken, claim,
  published, save_reply_chain,
}

abbrev pub IsOldestWaiting :
    Timestamp → (Uuid → Bool) → DownstreamPhase → Database → ProcessingJob → Type 0
IsOldestWaiting now held phase db job =
    IsFirst created_before (is_waiting now held phase) db.processing_jobs job

-- A claim takes the oldest waiting row of the phase and stores it with its lock; it takes nothing,
-- and leaves the database, exactly when no row waits.
pub claim_waiting_lem :
    (now : Timestamp) (held : Uuid → Bool) (worker_id : String) (phase : DownstreamPhase)
    (db : Database)
    → ((job : ProcessingJob) × IsOldestWaiting now held phase db job
        × (claim now held worker_id phase db
            ≡ (some (taken now worker_id job), save_job (taken now worker_id job) db)))
      ⊎ ((claim now held worker_id phase db ≡ (none, db))
          × ((other : ProcessingJob)
              → other ∈ db.processing_jobs
              → is_waiting now held phase other ≡ false))
unfolding claim
claim_waiting_lem now held worker_id phase db =
    elim (Option-cases
      (first_where created_before (is_waiting now held phase) db.processing_jobs)) [
        | inl e ↦ inr (
          ground arith,
          first_where-none created_before (is_waiting now held phase) db.processing_jobs e,
        )
        | inr (job, e) ↦ inl (
          job,
          first_where-IsFirst created_before (is_waiting now held phase) db.processing_jobs
              created_before-IsOrder job e,
          ground arith,
        )
      ]

pub claim_waiting-some :
    (now : Timestamp) (held : Uuid → Bool) (worker_id : String) (phase : DownstreamPhase)
    (db db' : Database) (got : ProcessingJob)
    → claim now held worker_id phase db ≡ (some got, db')
    → (job : ProcessingJob) × IsOldestWaiting now held phase db job
      × (got ≡ taken now worker_id job)
      × (db' ≡ save_job got db)
claim_waiting-some now held worker_id phase db db' got h =
    elim (claim_waiting_lem now held worker_id phase db) [
      | inl (job, oldest, e) ↦ (job, oldest, ground arith, ground arith)
      | inr (e, empty) ↦ absurd (ground arith)
    ]

pub get_locked-claim_waiting :
    (now : Timestamp) (held : Uuid → Bool) (worker_id : String) (phase : DownstreamPhase)
    (db db' : Database) (got : ProcessingJob)
    → claim now held worker_id phase db ≡ (some got, db')
    → get_locked got.id db' ≡ ok got
get_locked-claim_waiting now held worker_id phase db db' got h =
    let (job, oldest, t, d) = claim_waiting-some now held worker_id phase db db' got h in
    rw d (get_locked-save_job job got db oldest.stored (ground arith))

locked_not_waiting :
    (now later : Timestamp) (held : Uuid → Bool) (phase : DownstreamPhase) (got row : ProcessingJob)
    (db : Database)
    → got.locked_at ≡ some now
    → later ≤ now + stale_lock_after
    → row ∈ (save_job got db).processing_jobs
    → is_waiting later held phase row ≡ true
    → got.id ≢ row.id
unfolding save_job
locked_not_waiting now later held phase got row db locked soon m r e =
    let (old, i, f) = update_where_sound (has_id got.id) (λ _. got) db.processing_jobs row m in
    ground (arith, ==_refl row.id)

-- Until five minutes have passed since a claim, a claim of either phase that is made on the database
-- which the first one left does not return its row.
pub claim_excludes :
    (now later : Timestamp) (held held' : Uuid → Bool) (first second : String)
    (phase phase' : DownstreamPhase) (db db' db'' : Database) (a b : ProcessingJob)
    → later ≤ now + stale_lock_after
    → claim now held first phase db ≡ (some a, db')
    → claim later held' second phase' db' ≡ (some b, db'')
    → a.id ≢ b.id
claim_excludes now later held held' first second phase phase' db db' db'' a b soon p q =
    let (job, oldest, t, d) = claim_waiting-some now held first phase db db' a p in
    let (job', oldest', t', d') = claim_waiting-some later held' second phase' db' db'' b q in
    let m : job' ∈ (save_job a db).processing_jobs =
      subst (λ x. job' ∈ x.processing_jobs) d oldest'.stored in
    let apart : a.id ≢ job'.id =
      locked_not_waiting now later held' phase' a job' db (ground arith) soon m oldest'.meets in
    λ e. apart (ground arith)

-- Saving the chain of a waiting row succeeds and hands the row over: from then on, if no transaction
-- holds it, it waits for the classifier, and no longer for the listener.
pub save_reply_chain_hands_over :
    (now later : Timestamp) (held : Uuid → Bool) (snapshot : Json) (db : Database)
    (job : ProcessingJob)
    → get_locked job.id db ≡ ok job
    → is_downstream job.status ≡ true
    → now ≤ later
    → held job.id ≡ false
    → (db' : Database) × (row : ProcessingJob) × (save_reply_chain now job.id snapshot db ≡ ok db')
      × (job_by_id job.id db' ≡ some row)
      × (is_waiting later held classification row ≡ true)
      × (is_waiting later held reply_chain row ≡ false)
unfolding save_reply_chain
save_reply_chain_hands_over now later held snapshot db job found waits past free =
    let row = published now snapshot job in
    let before = job_by_id_of_get_locked job.id job db found in
    (
      save_job row db,
      row,
      rw found refl,
      ground (arith, job_by_id-save_job job.id row db, ==_refl job.id),
      ground arith,
      ground arith,
    )
