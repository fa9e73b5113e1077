-- ===== src/Database/Alerts/Once.antt =====
-- Each alert is created once.
use telegram_lead_assistent.Prelude.{
  ◌+◌, ==_refl, ltb, Bool, true, false, ◌||◌, some, List, [], ◌∷◌, ◌++◌, String, str_eq, eq_iff,
  find_where, find_where_sound, ◌∙◌, any_where, ◌≡◌, refl, ap, subst, arith, inl, inr, Bool-cases,
  Option-cases,
}
use telegram_lead_assistent.Database.Models.{Uuid, Timestamp, Timedelta, Database}
use telegram_lead_assistent.Database.Records.{AlertCondition, AlertKey, budget, failure}
use telegram_lead_assistent.Database.Alerts.{
  same_key, is_alert, NewAlert, alert_row, insert_alert, is_condition, failing_state, put_condition,
  Observation, failure_alert, report, condition_of, with_condition, observe_condition,
}

str_eq_refl : (s : String) → str_eq s s ≡ true
str_eq_refl s = ground (arith, eq_iff s s)

same_key_refl : (key : AlertKey) → same_key key key ≡ true
same_key_refl (budget month n) = ground (arith, str_eq_refl month, ==_refl n)
same_key_refl (failure condition n) = ground (arith, str_eq_refl condition, ==_refl n)

abbrev pub has_alert : AlertKey → Database → Bool
has_alert key db = any_where (is_alert key) db.operational_alerts

any_where-append :
    {A : Type 0} (p : A → Bool) (xs ys : List A)
    → any_where p (xs ++ ys) ≡ (any_where p xs || any_where p ys)
unfolding any_where
any_where-append p [] ys = refl
any_where-append p (x ∷ xs) ys = ground (arith, any_where-append p xs ys)

any_where-appended :
    {A : Type 0} (p : A → Bool) (xs : List A) (y : A)
    → p y ≡ true
    → any_where p (xs ++ y ∷ []) ≡ true
unfolding any_where
any_where-appended p [] y h = ground arith
any_where-appended p (x ∷ xs) y h = ground (arith, any_where-appended p xs y h)

-- After an insert, the alert is there, and so are those that were.
pub insert_alert-has_alert :
    (now : Timestamp) (fresh : Uuid) (alert : NewAlert) (db : Database)
    → has_alert alert.deduplication_key (insert_alert now fresh alert db).1 ≡ true
unfolding insert_alert
insert_alert-has_alert now fresh alert db =
    elim (Bool-cases (has_alert alert.deduplication_key db)) [
      | inl e ↦ rw e e
      | inr e ↦ rw e (
          any_where-appended (is_alert alert.deduplication_key) db.operational_alerts
            (alert_row now fresh alert) (same_key_refl alert.deduplication_key))
    ]

pub insert_alert-keeps :
    (now : Timestamp) (fresh : Uuid) (alert : NewAlert) (key : AlertKey) (db : Database)
    → has_alert key db ≡ true
    → has_alert key (insert_alert now fresh alert db).1 ≡ true
unfolding insert_alert
insert_alert-keeps now fresh alert key db h =
    elim (Bool-cases (has_alert alert.deduplication_key db)) [
      | inl e ↦ rw e h
      | inr e ↦
          rw
            (
              e,
              any_where-append (is_alert key) db.operational_alerts
                  (alert_row now fresh alert ∷ []),
              h,
            )
            refl
    ]

-- An alert that is there is not created again.
pub insert_alert-idle :
    (now : Timestamp) (fresh : Uuid) (alert : NewAlert) (db : Database)
    → has_alert alert.deduplication_key db ≡ true
    → insert_alert now fresh alert db ≡ (false, db)
unfolding insert_alert
insert_alert-idle now fresh alert db h = rw h refl

insert_alert-conditions :
    (now : Timestamp) (fresh : Uuid) (alert : NewAlert) (db : Database)
    → (insert_alert now fresh alert db).1.alert_conditions ≡ db.alert_conditions
unfolding insert_alert
insert_alert-conditions now fresh alert db =
    elim (Bool-cases (has_alert alert.deduplication_key db)) [
      | inl e ↦ rw e refl
      | inr e ↦ rw e refl
    ]

-- The state that was put is found.
find-put_condition :
    (key : String) (state : AlertCondition) (rows : List AlertCondition)
    → state.condition_key ≡ key
    → find_where (is_condition key) (put_condition state rows) ≡ some state
unfolding find_where put_condition
find-put_condition key state [] h = ground (arith, eq_iff state.condition_key key)
find-put_condition key state (row ∷ rows) h = ground (
  arith,
  find-put_condition key state rows h,
  eq_iff state.condition_key key,
  eq_iff row.condition_key state.condition_key,
  eq_iff row.condition_key key,
)

report-idle :
    (now : Timestamp) (fresh : Uuid) (o : Observation) (state : AlertCondition) (db : Database)
    → has_alert (failure o.condition_key state.failing_since) db ≡ true
    → report now fresh o state db ≡ (false, db)
unfolding report
report-idle now fresh o state db h =
    elim (Bool-cases (ltb now (state.failing_since + o.threshold))) [
      | inl e ↦ rw e refl
      | inr e ↦ rw e (insert_alert-idle now fresh (failure_alert o state.failing_since) db h)
    ]

report-created :
    (now : Timestamp) (fresh : Uuid) (o : Observation) (state : AlertCondition) (db : Database)
    → (report now fresh o state db).0 ≡ true
    → (has_alert (failure o.condition_key state.failing_since) (report now fresh o state db).1
        ≡ true)
      × ((report now fresh o state db).1.alert_conditions ≡ db.alert_conditions)
unfolding report
report-created now fresh o state db h =
    elim (Bool-cases (ltb now (state.failing_since + o.threshold))) [
      | inl e ↦ absurd (ground arith)
      | inr e ↦ rw e (
        insert_alert-has_alert now fresh (failure_alert o state.failing_since) db,
        insert_alert-conditions now fresh (failure_alert o state.failing_since) db,
      )
    ]

-- The failing condition is stored, and the alert on its episode is created.
abbrev pub Reported : String → Database → Type 0
Reported key db =
    (state : AlertCondition) × (condition_of key db ≡ some state)
    × (state.condition_key ≡ key)
    × (has_alert (failure key state.failing_since) db ≡ true)

str_eq_sound : (a b : String) → str_eq a b ≡ true → a ≡ b
str_eq_sound a b h = ground (arith, eq_iff a b)

failing_state-key :
    (now : Timestamp) (key : String) (db : Database)
    → (failing_state now key (condition_of key db)).condition_key ≡ key
failing_state-key now key db = elim (Option-cases (condition_of key db)) [
  | inl e ↦ rw e refl
  | inr (state, e) ↦ rw e (
      (str_eq_sound state.condition_key key
        (find_where_sound (is_condition key) db.alert_conditions state e).1))
]

observe_condition-Reported :
    (now : Timestamp) (fresh : Uuid) (o : Observation) (db : Database)
    → (observe_condition now fresh o true db).0 ≡ true
    → Reported o.condition_key (observe_condition now fresh o true db).1
unfolding observe_condition
observe_condition-Reported now fresh o db h =
    let state = failing_state now o.condition_key (condition_of o.condition_key db) in
    let keyed = failing_state-key now o.condition_key db in
    let (there, kept) = report-created now fresh o state (with_condition state db) h in
    (
      state,
      ap (find_where (is_condition o.condition_key)) kept
          ∙ find-put_condition o.condition_key state db.alert_conditions keyed,
      keyed,
      there,
    )

-- Another observation of a reported condition creates nothing and leaves it reported.
observe_condition-idle :
    (now : Timestamp) (fresh : Uuid) (o : Observation) (db : Database)
    → Reported o.condition_key db
    → ((observe_condition now fresh o true db).0 ≡ false)
      × ((observe_condition now fresh o true db).1.operational_alerts ≡ db.operational_alerts)
      × Reported o.condition_key (observe_condition now fresh o true db).1
unfolding observe_condition
observe_condition-idle now fresh o db (state, found, keyed, there) =
    let again : AlertCondition = record state { updated_at = now } in
    let e : observe_condition now fresh o true db ≡ (false, with_condition again db) =
      rw found (report-idle now fresh o again (with_condition again db) there) in
    let found' = find-put_condition o.condition_key again db.alert_conditions keyed in
    rw e (refl, refl, (again, found', keyed, there))

-- More observations of a condition that fails, each with its time and its threshold.
abbrev pub Later : Type 0
Later = List (Timestamp × Uuid × Timedelta)

abbrev pub observe_again : Observation → Later → Database → Database
observe_again o [] db = db
observe_again o ((now, fresh, threshold) ∷ later) db =
    observe_again o later
      (observe_condition now fresh (record o { threshold = threshold }) true db).1

observe_again-idle :
    (o : Observation) (later : Later) (db : Database)
    → Reported o.condition_key db
    → (observe_again o later db).operational_alerts ≡ db.operational_alerts
observe_again-idle o [] db r = refl
observe_again-idle o ((now, fresh, threshold) ∷ later) db r =
    let o' : Observation = record o { threshold = threshold } in
    let (n, same, r') = observe_condition-idle now fresh o' db r in
    observe_again-idle o later (observe_condition now fresh o' true db).1 r' ∙ same

-- When an observation of a failing condition creates an alert, no later observation of the condition
-- creates another one, whatever its time and its threshold, as long as the condition fails.
pub alert_once :
    (now : Timestamp) (fresh : Uuid) (o : Observation) (db db' : Database) (later : Later)
    → observe_condition now fresh o true db ≡ (true, db')
    → (observe_again o later db').operational_alerts ≡ db'.operational_alerts
alert_once now fresh o db db' later h = observe_again-idle o later db' (
    subst (Reported o.condition_key) (ap (λ r. r.1) h)
      (observe_condition-Reported now fresh o db (ap (λ r. r.0) h)))
