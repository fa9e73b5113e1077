-- ===== src/Classifier/Usage/Accounting.antt =====
-- What the recorded calls and the daily aggregates have in common.
use telegram_lead_assistent.Prelude.{
  ℕ, ◌+◌, ◌≡◌, refl, Bool, true, false, Option, none, some, List, [], ◌∷◌, ◌++◌, arith, find_where,
  find_where-append_none, Option-cases, Bool-cases, inl, inr, ==_refl, ◌∙◌,
}
use telegram_lead_assistent.Database.Models.{Uuid, Timestamp, Date, Database}
use telegram_lead_assistent.Database.Records.{ClassificationRun, ApiUsageDaily}
use telegram_lead_assistent.Classifier.Usage.{
  StageCall, is_stage, run_of, usage_of, added, same_usage, upsert_usage, record_stage,
}

-- The run that a recording conflicts with.
abbrev pub run_row : StageCall → Database → Option ClassificationRun
run_row call db =
    find_where (is_stage call.telegram_chat_id call.telegram_message_id call.stage)
      db.classification_runs

unfoldable pub total : {A : Type 0} → (A → ℕ) → List A → ℕ
total f [] = 0
total f (x ∷ xs) = f x + total f xs

total-append :
    {A : Type 0} (f : A → ℕ) (xs : List A) (x : A) → total f (xs ++ x ∷ []) ≡ total f xs + f x
unfolding total
total-append f [] x = omega arith
total-append f (y ∷ ys) x = ground (arith, total-append f ys x)

-- The aggregates count each recorded call once: their requests, tokens and cost are those of the
-- runs.
pub record IsBalanced (runs : List ClassificationRun) (days : List ApiUsageDaily) : Type 0 where
  pub requests : total (λ d. d.request_count) days ≡ total (λ r. 1) runs
  pub input : total (λ d. d.input_tokens) days ≡ total (λ r. r.input_tokens) runs
  pub output : total (λ d. d.output_tokens) days ≡ total (λ r. r.output_tokens) runs
  pub cost : total (λ d. d.estimated_cost_usd) days ≡ total (λ r. r.estimated_cost_usd) runs

-- An upsert adds the new row to any total that an update of a row adds it to.
total-upsert_usage :
    (f : ApiUsageDaily → ℕ) (new : ApiUsageDaily)
    → ((row : ApiUsageDaily) → f (added new row) ≡ f row + f new)
    → (days : List ApiUsageDaily) → total f (upsert_usage new days) ≡ total f days + f new
unfolding total upsert_usage
total-upsert_usage f new adds [] = omega arith
total-upsert_usage f new adds (d ∷ ds) = elim (Bool-cases (same_usage new d)) [
  | inl e ↦ rw e (ground (arith, adds d))
  | inr e ↦ rw e (ground (arith, total-upsert_usage f new adds ds))
]

-- One more run, and its usage on top of a day's.
total-stage :
    (f : ApiUsageDaily → ℕ) (g : ClassificationRun → ℕ) (new : ApiUsageDaily)
    (run : ClassificationRun)
    → ((row : ApiUsageDaily) → f (added new row) ≡ f row + f new)
    → f new ≡ g run
    → (days : List ApiUsageDaily) (runs : List ClassificationRun) → total f days ≡ total g runs
    → total f (upsert_usage new days) ≡ total g (runs ++ run ∷ [])
total-stage f g new run adds same days runs balanced =
    ground (arith, total-upsert_usage f new adds days, total-append g runs run)

-- The two branches of a recording.
pub record_stage_new :
    (now : Timestamp) (today : Date) (fresh : Uuid) (call : StageCall) (db : Database)
    → run_row call db ≡ none
    → record_stage now today fresh call db ≡ (
      true,
      record db {
        classification_runs = db.classification_runs ++ run_of now fresh call ∷ [];
        api_usage_daily = upsert_usage (usage_of today call) db.api_usage_daily;
      },
    )
unfolding record_stage
record_stage_new now today fresh call db e = rw (record_stage, e) refl

pub record_stage_old :
    (now : Timestamp) (today : Date) (fresh : Uuid) (call : StageCall) (db : Database)
    (run : ClassificationRun)
    → run_row call db ≡ some run
    → record_stage now today fresh call db ≡ (false, db)
unfolding record_stage
record_stage_old now today fresh call db run e = rw (record_stage, e) refl

record_stage-IsBalanced :
    (now : Timestamp) (today : Date) (fresh : Uuid) (call : StageCall) (db : Database)
    → IsBalanced db.classification_runs db.api_usage_daily
    → IsBalanced
        (record_stage now today fresh call db).1.classification_runs
        (record_stage now today fresh call db).1.api_usage_daily
record_stage-IsBalanced now today fresh call db b = elim (Option-cases (run_row call db)) [
  | inr (run, e) ↦ rw (record_stage_old now today fresh call db run e) b
  | inl e ↦
      let new = usage_of today call in
      let run = run_of now fresh call in
      let days = db.api_usage_daily in
      let runs = db.classification_runs in
      rw (record_stage_new now today fresh call db e) (record {
        requests =
            total-stage (λ d. d.request_count) (λ r. 1) new run (λ d. refl) refl days runs
              b.requests;
        input =
            total-stage (λ d. d.input_tokens) (λ r. r.input_tokens) new run (λ d. refl) refl days
              runs b.input;
        output =
            total-stage (λ d. d.output_tokens) (λ r. r.output_tokens) new run (λ d. refl) refl days
              runs b.output;
        cost =
            total-stage (λ d. d.estimated_cost_usd) (λ r. r.estimated_cost_usd) new run (λ d. refl)
              refl days runs b.cost;
      })
]

-- After a recording the stage has a run.
pub record_stage_has_run :
    (now : Timestamp) (today : Date) (fresh : Uuid) (call : StageCall) (db : Database)
    → (run : ClassificationRun) × (run_row call (record_stage now today fresh call db).1 ≡ some run)
record_stage_has_run now today fresh call db = elim (Option-cases (run_row call db)) [
  | inr (run, e) ↦ (run, rw (record_stage_old now today fresh call db run e) e)
  | inl e ↦ (
    run_of now fresh call,
    rw (record_stage_new now today fresh call db e) (
        find_where-append_none (is_stage call.telegram_chat_id call.telegram_message_id call.stage)
          db.classification_runs (run_of now fresh call) e
        ∙ ground (
          arith,
          ==_refl call.telegram_chat_id,
          ==_refl call.telegram_message_id,
          ==_refl call.stage,
        )),
  )
]

run_row_same :
    (call again : StageCall) (db : Database)
    → again.telegram_chat_id ≡ call.telegram_chat_id
    → again.telegram_message_id ≡ call.telegram_message_id
    → again.stage ≡ call.stage
    → run_row again db ≡ run_row call db
run_row_same call again db c m s = cc

-- When the daily aggregates count each recorded call once, they still do after a stage is recorded;
-- and a second recording of the same stage of the same message, with any other answer, model, day
-- and price, reports that it recorded nothing and changes nothing.
pub record_stage_once :
    (now : Timestamp) (today : Date) (fresh : Uuid) (call : StageCall) (db : Database)
    (later : Timestamp) (day : Date) (other : Uuid) (again : StageCall)
    → IsBalanced db.classification_runs db.api_usage_daily
    → again.telegram_chat_id ≡ call.telegram_chat_id
    → again.telegram_message_id ≡ call.telegram_message_id
    → again.stage ≡ call.stage
    → (recorded : Bool) × (db' : Database) × (record_stage now today fresh call db
        ≡ (recorded, db'))
      × IsBalanced db'.classification_runs db'.api_usage_daily
      × (record_stage later day other again db' ≡ (false, db'))
record_stage_once now today fresh call db later day other again b c m s = (
  (record_stage now today fresh call db).0,
  (record_stage now today fresh call db).1,
  refl,
  record_stage-IsBalanced now today fresh call db b,
  let db' = (record_stage now today fresh call db).1 in
      let (run, e) = record_stage_has_run now today fresh call db in
      record_stage_old later day other again db' run (run_row_same call again db' c m s ∙ e),
)
