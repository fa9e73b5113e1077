-- ===== src/Database/Queue/Claim.antt =====
-- Claiming a row of the queue.
use telegram_lead_assistent.Prelude.{
  ◌≡◌, ◌≢◌, ◌≤◌, ◌<◌, ◌+◌, ltb, Bool-cases, refl, subst, Bool, true, false, none, some, arith,
  String, ◌⊎◌, inl, inr, ◌∈◌, Option-cases, IsOrder, first_where, ok, IsFirst, first_where-IsFirst,
  first_where-none, ==_refl, update_where_sound,
}
use telegram_lead_assistent.Domain.{ProcessingJobStatus}
use telegram_lead_assistent.Database.Models.{Uuid, Timestamp, ProcessingJob, Database}
use telegram_lead_assistent.Database.Queue.{
  has_id, is_claimable, created_before, is_ready, save_job, claimed, claim, get_locked,
}
use telegram_lead_assistent.Database.Queue.Lookup.{get_locked-save_job}

pub created_before-IsOrder : IsOrder created_before
created_before-IsOrder = record { asymm = λ x y h. ground arith; trans = λ x y z h k. ground arith }

-- `job` is the oldest of the ready rows.
abbrev pub IsOldestReady : Timestamp → (Uuid → Bool) → Database → ProcessingJob → Type 0
IsOldestReady now held db job = IsFirst created_before (is_ready now held) db.processing_jobs job

-- A claim takes the oldest ready row, marks it and stores it; it takes nothing, and leaves the
-- database, exactly when no row is ready.
pub claim_lem :
    (now : Timestamp) (held : Uuid → Bool) (worker_id : String) (db : Database)
    → ((job : ProcessingJob) × IsOldestReady now held db job
        × (claim now held worker_id db
            ≡ (some (claimed now worker_id job), save_job (claimed now worker_id job) db)))
      ⊎ ((claim now held worker_id db ≡ (none, db))
          × ((other : ProcessingJob)
              → other ∈ db.processing_jobs
              → is_ready now held other ≡ false))
unfolding claim
claim_lem now held worker_id db =
    elim (Option-cases (first_where created_before (is_ready now held) db.processing_jobs)) [
      | inl e ↦
          inr
            (ground arith, first_where-none created_before (is_ready now held) db.processing_jobs e)
      | inr (job, e) ↦ inl (
        job,
        first_where-IsFirst created_before (is_ready now held) db.processing_jobs
            created_before-IsOrder job e,
        ground arith,
      )
    ]

-- A claim that returns a row returns the one that it stored, and took the oldest ready one for it.
pub claim-some :
    (now : Timestamp) (held : Uuid → Bool) (worker_id : String) (db db' : Database)
    (taken : ProcessingJob)
    → claim now held worker_id db ≡ (some taken, db')
    → (job : ProcessingJob) × IsOldestReady now held db job
      × (taken ≡ claimed now worker_id job)
      × (db' ≡ save_job taken db)
claim-some now held worker_id db db' taken h = elim (claim_lem now held worker_id db) [
  | inl (job, oldest, e) ↦ (job, oldest, ground arith, ground arith)
  | inr (e, empty) ↦ absurd (ground arith)
]

-- A row that `claim` may take: it waits, it is due, and no other transaction has locked it.
abbrev pub IsDue : Timestamp → (Uuid → Bool) → ProcessingJob → Type 0
IsDue now held row =
    ((row.status ≡ ProcessingJobStatus.pending) ⊎ (row.status ≡ ProcessingJobStatus.retry))
    × (row.next_attempt_at ≤ now)
    × (held row.id ≡ false)

-- Ordered by the time of creation, and by the identifier at the same time.
abbrev pub NotAfter : ProcessingJob → ProcessingJob → Type 0
NotAfter a b = (a.created_at < b.created_at) ⊎ ((a.created_at ≡ b.created_at) × (a.id ≤ b.id))

waits_cases :
    (status : ProcessingJobStatus)
    → is_claimable status ≡ true
    → (status ≡ ProcessingJobStatus.pending) ⊎ (status ≡ ProcessingJobStatus.retry)
waits_cases ProcessingJobStatus.pending h = inl refl
waits_cases ProcessingJobStatus.retry h = inr refl
waits_cases _ h = cc

waits_test :
    (status : ProcessingJobStatus)
    → (status ≡ ProcessingJobStatus.pending) ⊎ (status ≡ ProcessingJobStatus.retry)
    → is_claimable status ≡ true
waits_test status (inl e) = rw e refl
waits_test status (inr e) = rw e refl

not_after : (a b : ProcessingJob) → created_before b a ≡ false → NotAfter a b
not_after a b h = elim (Bool-cases (ltb a.created_at b.created_at)) [
  | inl e ↦ inl (ground arith)
  | inr e ↦ inr (ground arith, ground arith)
]

-- Where a row is due, a claim takes a due row that does not come after it, and stores and returns
-- that row with the worker, the time and one more attempt counted.
pub claim_oldest :
    (now : Timestamp) (held : Uuid → Bool) (worker_id : String) (db : Database)
    (other : ProcessingJob)
    → other ∈ db.processing_jobs
    → IsDue now held other
    → (job : ProcessingJob) × (job ∈ db.processing_jobs)
      × IsDue now held job
      × NotAfter job other
      × (let taken = record job {
        status = ProcessingJobStatus.processing;
        locked_at = some now;
        locked_by = some worker_id;
        attempt_count = job.attempt_count + 1;
      } in
          claim now held worker_id db ≡ (some taken, save_job taken db))
claim_oldest now held worker_id db other m (waits, due, free) =
    let ready : is_ready now held other ≡ true = ground (arith, waits_test other.status waits) in
    elim (claim_lem now held worker_id db) [
      | inl (job, oldest, e) ↦
          let meets = oldest.meets in
          let waits' : is_claimable job.status ≡ true = ground arith in
          let first = not_after job other (oldest.least other m ready) in
          (
            job,
            oldest.stored,
            (waits_cases job.status waits', ground arith, ground arith),
            first,
            e,
          )
      | inr (e, empty) ↦ absurd (ground (arith, empty other m))
    ]

-- A row that a claim stored as taken is not ready for another.
taken_not_ready :
    (now : Timestamp) (held : Uuid → Bool) (taken row : ProcessingJob) (db : Database)
    → is_claimable taken.status ≡ false
    → row ∈ (save_job taken db).processing_jobs
    → is_ready now held row ≡ true
    → taken.id ≢ row.id
unfolding save_job
taken_not_ready now held taken row db busy m r e =
    let (old, i, f) = update_where_sound (has_id taken.id) (λ _. taken) db.processing_jobs row m in
    ground (arith, ==_refl row.id)

-- A row that one claim took is not taken by the next, whichever worker makes it and whenever, and
-- whatever rows are locked then.
pub claim_once :
    (now later : Timestamp) (held held' : Uuid → Bool) (first second : String)
    (db db' db'' : Database) (a b : ProcessingJob)
    → claim now held first db ≡ (some a, db')
    → claim later held' second db' ≡ (some b, db'')
    → a.id ≢ b.id
claim_once now later held held' first second db db' db'' a b p q =
    let (job, oldest, t, d) = claim-some now held first db db' a p in
    let (job', oldest', t', d') = claim-some later held' second db' db'' b q in
    let m : job' ∈ (save_job a db).processing_jobs =
      subst (λ x. job' ∈ x.processing_jobs) d oldest'.stored in
    let apart : a.id ≢ job'.id =
      taken_not_ready later held' a job' db (ground arith) m oldest'.meets in
    λ e. apart (ground arith)

-- The row that a claim returns is the one that its transaction reads again.
pub get_locked-claim :
    (now : Timestamp) (held : Uuid → Bool) (worker_id : String) (db db' : Database)
    (taken : ProcessingJob)
    → claim now held worker_id db ≡ (some taken, db')
    → get_locked taken.id db' ≡ ok taken
get_locked-claim now held worker_id db db' taken h =
    let (job, oldest, t, d) = claim-some now held worker_id db db' taken h in
    rw d (get_locked-save_job job taken db oldest.stored (ground arith))
