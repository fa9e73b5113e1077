-- ===== src/Classifier/Schemas.antt =====
-- app/classifier/schemas: what the classification model returns. A confidence is in ten-thousandths,
-- as the column `Numeric(5, 4)` keeps it.
use telegram_lead_assistent.Prelude.{ℕ, Bool, true, false, String}

pub data ClassificationCategory : Type 0 where
  technical operational strategy analytics problem_solving irrelevant : ClassificationCategory

-- `category.value`
abbrev pub category_value : ClassificationCategory → String
category_value technical = "technical"
category_value operational = "operational"
category_value strategy = "strategy"
category_value analytics = "analytics"
category_value problem_solving = "problem_solving"
category_value irrelevant = "irrelevant"

-- `a is b`
abbrev pub is_category : ClassificationCategory → ClassificationCategory → Bool
is_category technical technical = true
is_category operational operational = true
is_category strategy strategy = true
is_category analytics analytics = true
is_category problem_solving problem_solving = true
is_category irrelevant irrelevant = true
is_category _ _ = false

pub data ClassificationReasonCode : Type 0 where
  technical_problem implementation_question process_problem strategy_decision comparison_request
        analytics_question requests_recommendation casual_conversation advertisement
        rhetorical_question unrelated_topic insufficient_context :
      ClassificationReasonCode

-- `reason_code.value`
abbrev pub reason_value : ClassificationReasonCode → String
reason_value technical_problem = "TECHNICAL_PROBLEM"
reason_value implementation_question = "IMPLEMENTATION_QUESTION"
reason_value process_problem = "PROCESS_PROBLEM"
reason_value strategy_decision = "STRATEGY_DECISION"
reason_value comparison_request = "COMPARISON_REQUEST"
reason_value analytics_question = "ANALYTICS_QUESTION"
reason_value requests_recommendation = "REQUESTS_RECOMMENDATION"
reason_value casual_conversation = "CASUAL_CONVERSATION"
reason_value advertisement = "ADVERTISEMENT"
reason_value rhetorical_question = "RHETORICAL_QUESTION"
reason_value unrelated_topic = "UNRELATED_TOPIC"
reason_value insufficient_context = "INSUFFICIENT_CONTEXT"

pub record ClassificationResult : Type 0 where
  pub is_relevant : Bool
  pub category : ClassificationCategory
  pub confidence : ℕ
  pub context_required : Bool
  pub reason_code : ClassificationReasonCode
