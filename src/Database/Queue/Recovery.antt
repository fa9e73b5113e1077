-- ===== src/Database/Queue/Recovery.antt =====
-- Recovery of the rows whose worker did not come back.
use telegram_lead_assistent.Prelude.{
  ◌≡◌, true, false, [], arith, ◌∈◌, mem-update_where, any_where-update, update_where,
  update_where_idle, select_where-none,
}
use telegram_lead_assistent.Database.Models.{Timestamp, ProcessingJob, Database}
use telegram_lead_assistent.Database.Queue.{is_stale, recovered, recover_stale}

-- A stale row is released for another attempt, now; a row that is not stale stays as it was.
pub recover_stale_rows :
    (now limit : Timestamp) (db : Database) (row : ProcessingJob)
    → row ∈ db.processing_jobs
    → ((is_stale limit row ≡ true)
        → recovered now row ∈ (recover_stale now limit db).1.processing_jobs)
      × ((is_stale limit row ≡ false) → row ∈ (recover_stale now limit db).1.processing_jobs)
unfolding recover_stale
recover_stale_rows now limit db row m =
    let i = mem-update_where (is_stale limit) (recovered now) db.processing_jobs row m in
    (λ e. rw e at i, λ e. rw e at i)

-- Recovering again with the same limit finds nothing: each stale lock is recovered once.
pub recover_stale_once :
    (now later limit : Timestamp) (db : Database)
    → recover_stale later limit (recover_stale now limit db).1
      ≡ ([], (recover_stale now limit db).1)
unfolding recover_stale
recover_stale_once now later limit db =
    let idle =
      any_where-update (is_stale limit) (recovered now) (λ row. ground arith) db.processing_jobs in
    ground (
      arith,
      select_where-none (is_stale limit)
          (update_where (is_stale limit) (recovered now) db.processing_jobs) idle,
      update_where_idle (is_stale limit) (recovered later)
          (update_where (is_stale limit) (recovered now) db.processing_jobs) idle,
    )
