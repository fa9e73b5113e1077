-- ===== src/Database/Queue/Enqueue.antt =====
-- Enqueueing a Telegram message.
use mathlib.Core.Option
use telegram_lead_assistent.Prelude.{
  ◌≡◌, refl, Option, none, some, List, [], ◌∷◌, ◌++◌, ok, arith, find_where, find_where-append_none,
  inl, inr, Option-cases, Bool, true, false, not, ◌&&◌, any_where, ◌∙◌, ==_refl,
}
use telegram_lead_assistent.Database.Models.{Uuid, Timestamp, ProcessingJob, Database}
use telegram_lead_assistent.Database.Queue.{NewJob, new_row, same_message, has_chat_id, enqueue}

-- No two rows belong to one Telegram message.
abbrev pub AreDistinct : List ProcessingJob → Type 0
AreDistinct [] = Unit
AreDistinct (row ∷ rows) =
    (find_where (same_message row.telegram_chat_id row.telegram_message_id) rows ≡ none)
    × AreDistinct rows

AreDistinct-append :
    (rows : List ProcessingJob) (row : ProcessingJob)
    → AreDistinct rows
    → find_where (same_message row.telegram_chat_id row.telegram_message_id) rows ≡ none
    → AreDistinct (rows ++ row ∷ [])
unfolding find_where
AreDistinct-append [] row d h = (refl, tt)
AreDistinct-append (x ∷ xs) row d h = (
  ground (
    arith,
    find_where-append_none (same_message x.telegram_chat_id x.telegram_message_id) xs row d.0,
  ),
  AreDistinct-append xs row d.1 (ground arith),
)

-- Enqueueing keeps one row for each message.
pub enqueue-AreDistinct :
    (now : Timestamp) (fresh : Uuid) (gone : Uuid → Bool) (job : NewJob) (db : Database) (id : Uuid)
    (db' : Database)
    → AreDistinct db.processing_jobs
    → enqueue now fresh gone job db ≡ ok (id, db')
    → AreDistinct db'.processing_jobs
unfolding enqueue
enqueue-AreDistinct now fresh gone job db id db' d h =
    ground (arith, AreDistinct-append db.processing_jobs (new_row now fresh job))

-- The row of the job's message.
abbrev pub row_of : NewJob → Database → Option ProcessingJob
row_of job db =
    find_where (same_message job.telegram_chat_id job.telegram_message_id) db.processing_jobs

abbrev pub is_known : NewJob → Database → Bool
is_known job db = any_where (has_chat_id job.monitored_chat_id) db.monitored_chats

-- The row that the second statement reads, if no row has disappeared.
find_where-visible :
    {A : Type 0} (p q : A → Bool) (rows : List A)
    → ((row : A) → q row ≡ false)
    → find_where (λ row. p row && not (q row)) rows ≡ find_where p rows
unfolding find_where
find_where-visible p q [] none_gone = refl
find_where-visible p q (row ∷ rows) none_gone =
    ground (arith, none_gone row, find_where-visible p q rows none_gone)

enqueue-existing :
    (now : Timestamp) (fresh : Uuid) (gone : Uuid → Bool) (job : NewJob) (db : Database)
    (row : ProcessingJob)
    → ((id : Uuid) → gone id ≡ false)
    → row_of job db ≡ some row
    → enqueue now fresh gone job db ≡ ok (row.id, db)
unfolding enqueue
enqueue-existing now fresh gone job db row none_gone e =
    let visible =
      find_where-visible (same_message job.telegram_chat_id job.telegram_message_id)
        (λ r. gone r.id) db.processing_jobs (λ r. none_gone r.id) in
    ground (arith, visible)

enqueue-new :
    (now : Timestamp) (fresh : Uuid) (gone : Uuid → Bool) (job : NewJob) (db : Database)
    → row_of job db ≡ none
    → is_known job db ≡ true
    → enqueue now fresh gone job db
      ≡ ok (fresh, record db { processing_jobs = db.processing_jobs ++ new_row now fresh job ∷ [] })
unfolding enqueue
enqueue-new now fresh gone job db e known = ground arith

-- Enqueueing a message of a known chat succeeds if no row disappears in the meantime; the message
-- then has a row with the identifier that was returned, and enqueueing the same message again, with
-- any other content, a chat of any identifier and at any later time, returns that identifier and
-- changes nothing, if no row disappears then.
pub enqueue_idempotent :
    (now : Timestamp) (fresh : Uuid) (gone gone' : Uuid → Bool) (job : NewJob) (db : Database)
    (later : Timestamp) (other : Uuid) (again : NewJob)
    → is_known job db ≡ true
    → ((id : Uuid) → gone id ≡ false)
    → ((id : Uuid) → gone' id ≡ false)
    → again.telegram_chat_id ≡ job.telegram_chat_id
    → again.telegram_message_id ≡ job.telegram_message_id
    → (id : Uuid) × (db' : Database) × (enqueue now fresh gone job db ≡ ok (id, db'))
      × (Option.map (λ row. row.id) (row_of job db') ≡ some id)
      × (enqueue later other gone' again db' ≡ ok (id, db'))
enqueue_idempotent now fresh gone gone' job db later other again known g g' c m =
    elim (Option-cases (row_of job db)) [
      | inl e ↦
          let row = new_row now fresh job in
          let db' : Database = record db { processing_jobs = db.processing_jobs ++ row ∷ [] } in
          let stored : row_of job db' ≡ some row =
            find_where-append_none (same_message job.telegram_chat_id job.telegram_message_id)
              db.processing_jobs row e
            ∙ rw (==_refl job.telegram_chat_id, ==_refl job.telegram_message_id) refl in
          (
            fresh,
            db',
            enqueue-new now fresh gone job db e known,
            rw stored refl,
            enqueue-existing later other gone' again db' row g' (rw (c, m) stored),
          )
      | inr (row, e) ↦ (
        row.id,
        db,
        enqueue-existing now fresh gone job db row g e,
        rw e refl,
        enqueue-existing later other gone' again db row g' (rw (c, m) e),
      )
    ]

-- Enqueueing writes no other table.
pub enqueue_keeps :
    (now : Timestamp) (fresh : Uuid) (gone : Uuid → Bool) (job : NewJob) (db : Database) (id : Uuid)
    (db' : Database)
    → enqueue now fresh gone job db ≡ ok (id, db')
    → (db'.monitored_chats ≡ db.monitored_chats)
      × (db'.recent_message_fingerprints ≡ db.recent_message_fingerprints)
unfolding enqueue
enqueue_keeps now fresh gone job db id db' h = (ground arith, ground arith)
