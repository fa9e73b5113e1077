-- ===== src/Classifier/Usage.antt =====
-- app/classifier/usage.py: the accounting of the classification calls. Money is in millionths of a
-- dollar, `USD_QUANTUM`, and a price in millionths of a dollar per million tokens.
pub mod Accounting
use telegram_lead_assistent.Prelude.{
  ℕ, ◌+◌, ◌*◌, ◌/◌, ◌%◌, ◌==◌, leb, if◌then◌else◌, Bool, true, false, not, ◌&&◌, ◌||◌, Option, none,
  some, List, [], ◌∷◌, ◌++◌, String, str_eq, find_where,
}
use telegram_lead_assistent.Database.Models.{Uuid, TelegramId, Timestamp, Date, same_date, Database}
use telegram_lead_assistent.Database.Records.{ClassificationRun, ApiUsageDaily, RunResult}
use telegram_lead_assistent.Classifier.Schemas.{category_value, reason_value, ClassificationResult}
use telegram_lead_assistent.Classifier.Adapter.{ClassificationResponse}

pub record ClassificationPricing : Type 0 where
  pub input_per_million_usd : ℕ
  pub output_per_million_usd : ℕ

-- `quantize(…, rounding=ROUND_HALF_UP)` of the quotient.
unfoldable pub round_half_up : ℕ → ℕ → ℕ
round_half_up numerator denominator = (2 * numerator + denominator) / (2 * denominator)

unfoldable pub estimate : ClassificationPricing → (input_tokens output_tokens : ℕ) → ℕ
unfolding round_half_up
estimate pricing input_tokens output_tokens =
    round_half_up
      (input_tokens * pricing.input_per_million_usd
        + output_tokens * pricing.output_per_million_usd)
      1000000

-- `calendar.monthrange(year, month)[1]`
abbrev pub is_leap : ℕ → Bool
is_leap year = year % 4 == 0 && (not (year % 100 == 0) || year % 400 == 0)

abbrev pub days_in_month : ℕ → ℕ → ℕ
days_in_month year month =
    if month == 2
    then if is_leap year then 29 else 28
    else if month == 4 || (month == 6 || (month == 9 || month == 11))
    then 30
    else 31

unfoldable pub project_month_cost : ℕ → Date → ℕ
unfolding round_half_up
project_month_cost month_to_date_cost as_of =
    round_half_up (month_to_date_cost * days_in_month as_of.year as_of.month) as_of.day

-- `result_name`
abbrev pub result_name : ClassificationResult → RunResult
result_name result =
    if result.context_required
    then RunResult.context_required
    else if result.is_relevant
    then RunResult.relevant
    else RunResult.irrelevant

abbrev pub is_stage : TelegramId → TelegramId → ℕ → ClassificationRun → Bool
is_stage chat_id message_id stage run =
    run.telegram_chat_id == chat_id && (run.telegram_message_id == message_id && run.stage == stage)

-- What a call is recorded with: the message, the stage and the model's answer.
pub record StageCall : Type 0 where
  pub telegram_chat_id : TelegramId
  pub telegram_message_id : TelegramId
  pub stage : ℕ
  pub queued_at : Timestamp
  pub model : String
  pub response : ClassificationResponse
  pub pricing : ClassificationPricing

abbrev pub cost_of : StageCall → ℕ
cost_of call =
    estimate call.pricing call.response.usage.input_tokens call.response.usage.output_tokens

abbrev pub run_of : Timestamp → Uuid → StageCall → ClassificationRun
run_of now id call = record {
  id = id;
  telegram_chat_id = call.telegram_chat_id;
  telegram_message_id = call.telegram_message_id;
  stage = call.stage;
  result = result_name call.response.result;
  category = category_value call.response.result.category;
  confidence = some call.response.result.confidence;
  reason_code = some (reason_value call.response.result.reason_code);
  context_used = call.stage == 2;
  model = call.model;
  input_tokens = call.response.usage.input_tokens;
  output_tokens = call.response.usage.output_tokens;
  estimated_cost_usd = cost_of call;
  queued_at = call.queued_at;
  created_at = now;
}

abbrev pub usage_of : Date → StageCall → ApiUsageDaily
usage_of today call = record {
  usage_date = today;
  model = call.model;
  request_count = 1;
  input_tokens = call.response.usage.input_tokens;
  output_tokens = call.response.usage.output_tokens;
  estimated_cost_usd = cost_of call;
}

-- `ON CONFLICT (usage_date, model) DO UPDATE`: the row of the key, which is unique, adds the new one.
abbrev pub added : ApiUsageDaily → ApiUsageDaily → ApiUsageDaily
added new row = record row {
  request_count = row.request_count + new.request_count;
  input_tokens = row.input_tokens + new.input_tokens;
  output_tokens = row.output_tokens + new.output_tokens;
  estimated_cost_usd = row.estimated_cost_usd + new.estimated_cost_usd;
}

abbrev pub same_usage : ApiUsageDaily → ApiUsageDaily → Bool
same_usage new row = same_date row.usage_date new.usage_date && str_eq row.model new.model

unfoldable pub upsert_usage : ApiUsageDaily → List ApiUsageDaily → List ApiUsageDaily
upsert_usage new [] = new ∷ []
upsert_usage new (row ∷ rows) =
    let rest = upsert_usage new rows in
    if same_usage new row then added new row ∷ rows else row ∷ rest

-- Whether the run went in, and the tables.
unfoldable pub record_stage : Timestamp → Date → Uuid → StageCall → Database → Bool × Database
unfolding upsert_usage
record_stage now today fresh call db =
    elim (find_where (is_stage call.telegram_chat_id call.telegram_message_id call.stage)
      db.classification_runs) [
        | some existing ↦ (false, db)
        | none ↦ (
          true,
          record db {
            classification_runs = db.classification_runs ++ run_of now fresh call ∷ [];
            api_usage_daily = upsert_usage (usage_of today call) db.api_usage_daily;
          },
        )
      ]

-- `usage_date BETWEEN month_start AND as_of`
abbrev pub in_month_to_date : Date → ApiUsageDaily → Bool
in_month_to_date as_of row =
    row.usage_date.year == as_of.year
    && (row.usage_date.month == as_of.month && leb row.usage_date.day as_of.day)

unfoldable pub month_to_date_cost : Date → List ApiUsageDaily → ℕ
month_to_date_cost as_of [] = 0
month_to_date_cost as_of (row ∷ rows) =
    let rest = month_to_date_cost as_of rows in
    if in_month_to_date as_of row then row.estimated_cost_usd + rest else rest

unfoldable pub projected_month_cost : Date → Database → ℕ
unfolding project_month_cost month_to_date_cost
projected_month_cost as_of db =
    project_month_cost (month_to_date_cost as_of db.api_usage_daily) as_of
