-- ===== src/Tests/NotificationExamples.antt =====
-- The theorems of the notifications on a notification of one question.
use telegram_lead_assistent.Prelude.{
  ℕ, zero, suc, ◌+◌, ◌/◌, ◌%◌, ◌==◌, ◌≤◌, ltb, if◌then◌else◌, ◌&&◌, ◌||◌, ◌++◌, List, length, inl,
  inr, Bool-cases, ◌≡◌, refl, Bool, true, false, none, some, [], ◌∷◌, ok, arith, first_where,
  first_by, select_where, update_where, put_row,
}
use telegram_lead_assistent.Domain.{QuestionStatus}
use telegram_lead_assistent.Database.Models.{Uuid, Database}
use telegram_lead_assistent.Database.Records.{BotNotification, DeliveryStatus}
use telegram_lead_assistent.Database.Notifications.{claim, taken, save_notification}
use telegram_lead_assistent.Listener.Events.Characters.{codes}
use telegram_lead_assistent.Bot.Notifications.{
  NumberFormat, NotificationChainItem, NotificationContent, render_notification,
}
use telegram_lead_assistent.Bot.Notifications.Blocks.{WritesNumbers}
use telegram_lead_assistent.Bot.Notifications.Bounds.{length-append}
use telegram_lead_assistent.Bot.Notifications.Parts.{AreParts, render_notification-AreParts}
use telegram_lead_assistent.Bot.Delivery.{NotificationBot, parts_of, run_once}
use telegram_lead_assistent.Bot.Delivery.Partial.{
  accepted_of, Leaves, notification_by, run_once-Leaves,
}
use telegram_lead_assistent.Tests.Fixtures.{waiting_db}

-- The digits of a number below ten to the power of one more than the fuel.
unfoldable digits : ℕ → ℕ → List ℕ
digits zero n = (48 + n % 10) ∷ []
digits (suc fuel) n =
    let rest = digits fuel (n / 10) in
    if ltb n 10 then (48 + n) ∷ [] else rest ++ (48 + n % 10) ∷ []

-- A confidence is rounded to a per cent, half to even.
abbrev rounded : ℕ → ℕ
rounded n =
    if ltb 50 (n % 100) || (n % 100 == 50 && (n / 100) % 2 == 1) then n / 100 + 1 else n / 100

-- Python's, for numbers of at most ten digits.
abbrev python : NumberFormat
python = record { decimal = λ n. digits 9 n; percent = λ n. digits 9 (rounded n) ++ codes "%" }

length-digits : (fuel n : ℕ) → length (digits fuel n) ≤ fuel + 1
unfolding digits
length-digits zero n = omega arith
length-digits (suc fuel) n = elim (Bool-cases (ltb n 10)) [
  | inl e ↦ rw e (omega arith)
  | inr e ↦ rw e (
      ground (
        arith,
        length-append (digits fuel (n / 10)) ((48 + n % 10) ∷ []),
        length-digits fuel (n / 10),
      ))
]

python-WritesNumbers : WritesNumbers python
python-WritesNumbers n within = (
  ground (arith, length-digits 9 n),
  ground (arith, length-append (digits 9 (rounded n)) (codes "%"), length-digits 9 (rounded n)),
)

ninety_percent : python.percent 9000 ≡ codes "90%"
unfolding digits
ninety_percent = refl

abbrev item : NotificationChainItem
item = record {
  position = 0;
  author_display_name = none;
  original_text = codes "<Who rents out a flat?>";
  translated_text = none;
  is_target = true;
}

abbrev content : NotificationContent
content = record {
  chat_title = codes "Flats";
  topic_title = none;
  category = codes "direct_question";
  confidence = some 9000;
  chain = item ∷ [];
}

render_notification-AreParts_example :
    AreParts {Controls = ℕ} 7 (render_notification 7 python content)
render_notification-AreParts_example =
    render_notification-AreParts 7 python content python-WritesNumbers
      (omega arith, tt, omega arith, omega arith) ((tt, omega arith), tt)

abbrev pending : BotNotification
pending = record {
  id = 61;
  question_id = 5;
  operator_telegram_user_id = 9;
  bot_chat_id = 9;
  bot_message_id = none;
  status = DeliveryStatus.pending;
  attempt_count = 0;
  next_attempt_at = 100;
  sent_at = none;
  last_error = none;
  created_at = 100;
  updated_at = 100;
}

abbrev pending_db : Database
pending_db = record (waiting_db QuestionStatus.detected []) { bot_notifications = pending ∷ [] }

abbrev claimed_db : Database
claimed_db = record pending_db { bot_notifications = taken 200 pending ∷ [] }

abbrev free : Uuid → Bool
free id = false

-- The Bot API accepts every message, and names it.
abbrev bot : NotificationBot ℕ
bot chat_id part = ok (some 300)

pending_claimed : claim 200 free 9 pending_db ≡ (some (taken 200 pending), claimed_db)
unfolding claim first_where first_by select_where save_notification put_row update_where
pending_claimed = refl

run_once-Leaves_example :
    (sent : ℕ) × (db' : Database) × (row' : BotNotification) × (run_once
        (15 ∷ [])
        python
        (λ q. 7)
        bot
        200
        free
        9
        pending_db
      ≡ ok ((true, sent), db'))
    × (sent ≡ accepted_of bot 9 (parts_of python (λ q. 7) (taken 200 pending) claimed_db))
    × (notification_by 61 db' ≡ some row')
    × Leaves sent row'
run_once-Leaves_example =
    run_once-Leaves (15 ∷ []) python (λ q. 7) bot 200 free 9 pending_db claimed_db
      (taken 200 pending) pending_claimed
