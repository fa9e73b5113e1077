-- ===== src/Tests/AlertExamples.antt =====
-- The theorems of the alerts on a condition that fails and on two thresholds.
use telegram_lead_assistent.Prelude.{
  ℕ, ◌+◌, ◌≡◌, refl, true, [], ◌∷◌, String, arith, find_where, any_where,
}
use telegram_lead_assistent.Database.Columns.{Json}
use telegram_lead_assistent.Database.Models.{Uuid, Timestamp, Database, empty_database}
use telegram_lead_assistent.Database.Records.{AlertCondition}
use telegram_lead_assistent.Database.Alerts.{
  Observation, observe_condition, report, put_condition, insert_alert, failure_alert, alert_row,
  enqueue_budget_thresholds,
}
use telegram_lead_assistent.Database.Alerts.Once.{observe_again, alert_once}
use telegram_lead_assistent.Database.Alerts.Budget.{AreAlerted, budget_alert_once}

abbrev listener_silent : Observation
listener_silent = record {
  condition_key = "heartbeat:listener";
  threshold = 300;
  alert_type = "service_unavailable";
  operator_user_id = 9;
  details = Json.null;
}

abbrev silent_since : Timestamp → AlertCondition
silent_since updated_at = record {
  condition_key = "heartbeat:listener";
  failing_since = 100;
  updated_at = updated_at;
}

-- The listener has been silent since 100.
abbrev silent_db : Database
silent_db = record empty_database { alert_conditions = silent_since 200 ∷ [] }

abbrev alerted_db : Database
alerted_db = record empty_database {
  alert_conditions = silent_since 400 ∷ [];
  operational_alerts = alert_row 400 91 (failure_alert listener_silent 100) ∷ [];
}

silence_reported : observe_condition 400 91 listener_silent true silent_db ≡ (true, alerted_db)
unfolding observe_condition report put_condition insert_alert find_where any_where
silence_reported = refl

alert_once_example :
    (observe_again listener_silent
      ((500, 92, 300) ∷ ((900, 93, 0) ∷ []))
      alerted_db).operational_alerts
    ≡ alerted_db.operational_alerts
alert_once_example =
    alert_once 400 91 listener_silent silent_db alerted_db ((500, 92, 300) ∷ ((900, 93, 0) ∷ []))
      silence_reported

abbrev amount : ℕ → String
amount n = "1"

abbrev ids : ℕ → Uuid
ids n = 90 + n

abbrev budget_db : Database
budget_db =
    (enqueue_budget_thresholds amount 400 ids "2026-07" 8 9 (5 ∷ (10 ∷ [])) empty_database).1

-- Of two thresholds, the first is reached.
one_threshold_crossed :
    (enqueue_budget_thresholds amount 400 ids "2026-07" 8 9 (5 ∷ (10 ∷ [])) empty_database).0 ≡ 1
unfolding enqueue_budget_thresholds insert_alert any_where
one_threshold_crossed = refl

budget_alert_once_example :
    AreAlerted "2026-07" 8 (5 ∷ (10 ∷ [])) budget_db
    × (enqueue_budget_thresholds amount 500 ids "2026-07" 7 9 (5 ∷ (10 ∷ [])) budget_db
        ≡ (0, budget_db))
budget_alert_once_example =
    budget_alert_once amount 400 500 ids ids "2026-07" 8 7 9 (5 ∷ (10 ∷ [])) empty_database
      (omega arith)
