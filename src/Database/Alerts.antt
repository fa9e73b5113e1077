-- ===== src/Database/Alerts.antt =====
-- app/database/repositories/operational_alerts.py: the alerts on the budget and on conditions that last.
-- How Python writes an amount of money is a parameter; an amount is written in one way.
pub mod Once
pub mod Budget
use telegram_lead_assistent.Prelude.{
  ℕ, ◌+◌, ◌==◌, ltb, leb, if◌then◌else◌, Bool, true, false, ◌&&◌, Option, none, some, List, [], ◌∷◌,
  ◌++◌, String, str_eq, find_where, any_where, delete_where,
}
use telegram_lead_assistent.Database.Columns.{Json, JsonFields}
use telegram_lead_assistent.Database.Models.{Uuid, TelegramId, Timestamp, Timedelta, Database}
use telegram_lead_assistent.Database.Records.{
  AlertCondition, AlertKey, budget, failure, OperationalAlert, DeliveryStatus,
}

abbrev pub same_key : AlertKey → AlertKey → Bool
same_key (budget month threshold) (budget other n) = str_eq month other && threshold == n
same_key (failure condition episode) (failure other n) = str_eq condition other && episode == n
same_key _ _ = false

abbrev pub is_alert : AlertKey → OperationalAlert → Bool
is_alert key alert = same_key alert.deduplication_key key

-- The values of an insert.
pub record NewAlert : Type 0 where
  pub deduplication_key : AlertKey
  pub alert_type : String
  pub details : Json
  pub operator_telegram_user_id : TelegramId

abbrev pub alert_row : Timestamp → Uuid → NewAlert → OperationalAlert
alert_row now fresh alert = record {
  id = fresh;
  deduplication_key = alert.deduplication_key;
  alert_type = alert.alert_type;
  details = alert.details;
  operator_telegram_user_id = alert.operator_telegram_user_id;
  status = DeliveryStatus.pending;
  attempt_count = 0;
  next_attempt_at = now;
  sent_at = none;
  last_error = none;
  created_at = now;
  updated_at = now;
}

-- `INSERT … ON CONFLICT DO NOTHING RETURNING id`: whether a row went in.
unfoldable pub insert_alert : Timestamp → Uuid → NewAlert → Database → Bool × Database
insert_alert now fresh alert db =
    if any_where (is_alert alert.deduplication_key) db.operational_alerts then (false, db) else (
      true,
      record db { operational_alerts = db.operational_alerts ++ alert_row now fresh alert ∷ [] },
    )

abbrev pub count_of : Bool → ℕ
count_of true = 1
count_of false = 0

abbrev pub budget_alert : (ℕ → String) → String → ℕ → ℕ → TelegramId → NewAlert
budget_alert decimal month_key cost threshold operator = record {
  deduplication_key = budget month_key threshold;
  alert_type = "budget_threshold";
  details = Json.object (
      JsonFields.field "threshold_usd" (Json.text (decimal threshold))
        (JsonFields.field "cost_usd" (Json.text (decimal cost)) JsonFields.end));
  operator_telegram_user_id = operator;
}

-- One threshold of the loop.
unfoldable pub enqueue_threshold :
    (ℕ → String) → Timestamp → (ℕ → Uuid) → String → ℕ → TelegramId → ℕ → Database → Bool × Database
unfolding insert_alert
enqueue_threshold decimal now fresh month_key cost operator threshold db =
    if ltb cost threshold
    then (false, db)
    else insert_alert now (fresh threshold) (budget_alert decimal month_key cost threshold operator)
        db

-- How many alerts were created; `fresh` gives the identifier of a row by its threshold.
unfoldable pub enqueue_budget_thresholds :
    (ℕ → String)
    → Timestamp
    → (ℕ → Uuid)
    → String
    → ℕ
    → TelegramId
    → List ℕ
    → Database
    → ℕ × Database
unfolding enqueue_threshold
enqueue_budget_thresholds decimal now fresh month_key cost operator [] db = (0, db)
enqueue_budget_thresholds decimal now fresh month_key cost operator (threshold ∷ thresholds) db =
    let step = enqueue_threshold decimal now fresh month_key cost operator threshold db in
    let rest =
      enqueue_budget_thresholds decimal now fresh month_key cost operator thresholds step.1 in
    (count_of step.0 + rest.0, rest.1)

abbrev pub is_condition : String → AlertCondition → Bool
is_condition condition_key state = str_eq state.condition_key condition_key

-- The state of a failing condition: a new one, or the one that was stored, with its time.
abbrev pub failing_state : Timestamp → String → Option AlertCondition → AlertCondition
failing_state now condition_key none = record {
  condition_key = condition_key;
  failing_since = now;
  updated_at = now;
}
failing_state now condition_key (some state) = record state { updated_at = now }

unfoldable pub put_condition : AlertCondition → List AlertCondition → List AlertCondition
put_condition state [] = state ∷ []
put_condition state (row ∷ rows) =
    if is_condition state.condition_key row then state ∷ rows else row ∷ put_condition state rows

-- What `observe_condition` is called with, except whether the condition fails. The details are those
-- that are stored, `details or {}`.
pub record Observation : Type 0 where
  pub condition_key : String
  pub threshold : Timedelta
  pub alert_type : String
  pub operator_user_id : TelegramId
  pub details : Json

abbrev pub failure_alert : Observation → Timestamp → NewAlert
failure_alert o episode = record {
  deduplication_key = failure o.condition_key episode;
  alert_type = o.alert_type;
  details = o.details;
  operator_telegram_user_id = o.operator_user_id;
}

-- The part after the state is stored.
unfoldable pub report : Timestamp → Uuid → Observation → AlertCondition → Database → Bool × Database
unfolding insert_alert
report now fresh o state db =
    if ltb now (state.failing_since + o.threshold)
    then (false, db)
    else insert_alert now fresh (failure_alert o state.failing_since) db

abbrev pub condition_of : String → Database → Option AlertCondition
condition_of key db = find_where (is_condition key) db.alert_conditions

abbrev pub with_condition : AlertCondition → Database → Database
with_condition state db = record db { alert_conditions = put_condition state db.alert_conditions }

-- Whether an alert was created.
unfoldable pub observe_condition :
    Timestamp → Uuid → Observation → Bool → Database → Bool × Database
unfolding report put_condition
observe_condition now fresh o false db = (
  false,
  record db { alert_conditions = delete_where (is_condition o.condition_key) db.alert_conditions },
)
observe_condition now fresh o true db =
    let state = failing_state now o.condition_key (condition_of o.condition_key db) in
    report now fresh o state (with_condition state db)
