-- ===== src/Database/Queue/Lookup.antt =====
-- Reading a row of the queue by its identifier after a write.
use mathlib.Core.Option
use telegram_lead_assistent.Prelude.{
  ok, ==_refl, ◌≡◌, ◌==◌, if◌then◌else◌, Option, some, arith, find_where, find_where-update,
  find_where_sound, find_where-none, ◌∈◌, Option-cases, inl, inr, update_where,
}
use telegram_lead_assistent.Database.Models.{Uuid, ProcessingJob, Database}
use telegram_lead_assistent.Database.Queue.{has_id, save_job, get_locked}

abbrev pub job_by_id : Uuid → Database → Option ProcessingJob
job_by_id id db = find_where (has_id id) db.processing_jobs

-- A write replaces the row of its identifier, if there is one, and no other.
pub job_by_id-save_job :
    (id : Uuid) (job : ProcessingJob) (db : Database)
    → job_by_id id (save_job job db)
      ≡ (if id == job.id then Option.map (λ _. job) (job_by_id id db) else job_by_id id db)
unfolding save_job
job_by_id-save_job id job db = elim (Option-cases (job_by_id id db)) [
  | inl e ↦ rw (updated, e) (ground arith)
  | inr (row, e) ↦
      rw (updated, e) (ground (arith, find_where_sound (has_id id) db.processing_jobs row e))
]
  where
    updated :
        find_where (has_id id) (update_where (has_id job.id) (λ _. job) db.processing_jobs)
        ≡ Option.map (λ a. if a.id == job.id then job else a) (job_by_id id db)
    updated =
        find_where-update (has_id job.id) (has_id id) (λ _. job) (λ a h. ground arith)
          db.processing_jobs

-- A write to a row that is there is read back.
pub get_locked-save_job :
    (old job : ProcessingJob) (db : Database)
    → old ∈ db.processing_jobs
    → old.id ≡ job.id
    → get_locked job.id (save_job job db) ≡ ok job
unfolding get_locked
get_locked-save_job old job db m e = elim (Option-cases (job_by_id job.id db)) [
  | inl none_there ↦
      absurd (ground (arith, find_where-none (has_id job.id) db.processing_jobs old none_there m))
  | inr (row, found) ↦ ground (arith, job_by_id-save_job job.id job db, ==_refl job.id)
]

pub job_by_id_of_get_locked :
    (id : Uuid) (job : ProcessingJob) (db : Database)
    → get_locked id db ≡ ok job
    → job_by_id id db ≡ some job
unfolding get_locked
job_by_id_of_get_locked id job db h = ground arith
