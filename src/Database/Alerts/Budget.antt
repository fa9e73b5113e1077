-- ===== src/Database/Alerts/Budget.antt =====
-- A crossed threshold of the budget is reported once in its month.
use telegram_lead_assistent.Prelude.{
  ℕ, ◌≤◌, ltb, Bool, true, false, ◌||◌, List, [], ◌∷◌, String, ◌≡◌, refl, arith, inl, inr,
  Bool-cases,
}
use telegram_lead_assistent.Database.Models.{Uuid, TelegramId, Timestamp, Database}
use telegram_lead_assistent.Database.Records.{AlertKey, budget}
use telegram_lead_assistent.Database.Alerts.{
  budget_alert, enqueue_threshold, enqueue_budget_thresholds,
}
use telegram_lead_assistent.Database.Alerts.Once.{
  has_alert, insert_alert-has_alert, insert_alert-keeps, insert_alert-idle,
}

-- Every threshold is above the cost, or it has its alert.
abbrev pub AreAlerted : String → ℕ → List ℕ → Database → Type 0
AreAlerted month_key cost [] db = Unit
AreAlerted month_key cost (t ∷ ts) db =
    ((ltb cost t || has_alert (budget month_key t) db) ≡ true) × AreAlerted month_key cost ts db

reached_or : (a b : Bool) → (a ≡ false → b ≡ true) → (a || b) ≡ true
reached_or true b h = refl
reached_or false b h = h refl

module _ (decimal : ℕ → String) (now : Timestamp) (fresh : ℕ → Uuid) (month_key : String) (cost : ℕ)
    (operator : TelegramId) where
  enqueue_threshold-keeps :
      (key : AlertKey) (t : ℕ) (db : Database)
      → has_alert key db ≡ true
      → has_alert key (enqueue_threshold decimal now fresh month_key cost operator t db).1 ≡ true
  unfolding enqueue_threshold
  enqueue_threshold-keeps key t db h = elim (Bool-cases (ltb cost t)) [
    | inl e ↦ rw e h
    | inr e ↦
        rw e (
          insert_alert-keeps now (fresh t) (budget_alert decimal month_key cost t operator) key db
            h)
  ]

  enqueue_threshold-has_alert :
      (t : ℕ) (db : Database)
      → ltb cost t ≡ false
      → has_alert
          (budget month_key t)
          (enqueue_threshold decimal now fresh month_key cost operator t db).1
        ≡ true
  unfolding enqueue_threshold
  enqueue_threshold-has_alert t db e =
      rw e
        (insert_alert-has_alert now (fresh t) (budget_alert decimal month_key cost t operator) db)

  enqueue_budget_thresholds-keeps :
      (key : AlertKey) (ts : List ℕ) (db : Database)
      → has_alert key db ≡ true
      → has_alert key (enqueue_budget_thresholds decimal now fresh month_key cost operator ts db).1
        ≡ true
  unfolding enqueue_budget_thresholds
  enqueue_budget_thresholds-keeps key [] db h = h
  enqueue_budget_thresholds-keeps key (t ∷ ts) db h =
      enqueue_budget_thresholds-keeps key ts
        (enqueue_threshold decimal now fresh month_key cost operator t db).1
        (enqueue_threshold-keeps key t db h)

  enqueue_budget_thresholds-AreAlerted :
      (ts : List ℕ) (db : Database)
      → AreAlerted month_key cost ts
          (enqueue_budget_thresholds decimal now fresh month_key cost operator ts db).1
  unfolding enqueue_budget_thresholds
  enqueue_budget_thresholds-AreAlerted [] db = tt
  enqueue_budget_thresholds-AreAlerted (t ∷ ts) db = (
    reached_or (ltb cost t)
        (has_alert (budget month_key t)
          (enqueue_budget_thresholds decimal now fresh month_key cost operator ts
            (enqueue_threshold decimal now fresh month_key cost operator t db).1).1)
        (λ e.
          enqueue_budget_thresholds-keeps (budget month_key t) ts
            (enqueue_threshold decimal now fresh month_key cost operator t db).1
            (enqueue_threshold-has_alert t db e)),
    enqueue_budget_thresholds-AreAlerted ts
        (enqueue_threshold decimal now fresh month_key cost operator t db).1,
  )

  enqueue_threshold-idle :
      (reached : ℕ) (t : ℕ) (db : Database)
      → cost ≤ reached
      → (ltb reached t || has_alert (budget month_key t) db) ≡ true
      → enqueue_threshold decimal now fresh month_key cost operator t db ≡ (false, db)
  unfolding enqueue_threshold
  enqueue_threshold-idle reached t db le there = elim (Bool-cases (ltb cost t)) [
    | inl e ↦ rw e refl
    | inr e ↦ rw e (
        insert_alert-idle now (fresh t) (budget_alert decimal month_key cost t operator) db
          (ground arith))
  ]

  -- Nothing is created for a cost up to one whose thresholds are reported.
  enqueue_budget_thresholds-idle :
      (reached : ℕ) (ts : List ℕ) (db : Database)
      → cost ≤ reached
      → AreAlerted month_key reached ts db
      → enqueue_budget_thresholds decimal now fresh month_key cost operator ts db ≡ (0, db)
  unfolding enqueue_budget_thresholds
  enqueue_budget_thresholds-idle reached [] db le a = refl
  enqueue_budget_thresholds-idle reached (t ∷ ts) db le a =
      rw
        (
          enqueue_threshold-idle reached t db le a.0,
          enqueue_budget_thresholds-idle reached ts db le a.1,
        )
        refl

-- After the thresholds were enqueued for a cost, they are all reported for it: in the same month, a
-- second call for a cost that is not larger, whatever its time, creates nothing.
pub budget_alert_once :
    (decimal : ℕ → String) (now now' : Timestamp) (fresh fresh' : ℕ → Uuid) (month_key : String)
    (cost cost' : ℕ) (operator : TelegramId) (thresholds : List ℕ) (db : Database)
    → cost' ≤ cost
    → let db' =
        (enqueue_budget_thresholds decimal now fresh month_key cost operator thresholds db).1 in
      AreAlerted month_key cost thresholds db'
      × (enqueue_budget_thresholds decimal now' fresh' month_key cost' operator thresholds db'
          ≡ (0, db'))
budget_alert_once decimal now now' fresh fresh' month_key cost cost' operator thresholds db le =
    let db' =
      (enqueue_budget_thresholds decimal now fresh month_key cost operator thresholds db).1 in
    let alerted =
      enqueue_budget_thresholds-AreAlerted decimal now fresh month_key cost operator thresholds
        db in
    (
      alerted,
      enqueue_budget_thresholds-idle decimal now' fresh' month_key cost' operator cost thresholds
          db' le alerted,
    )
