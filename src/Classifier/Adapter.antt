-- ===== src/Classifier/Adapter.antt =====
-- app/classifier/openai_adapter.py: the boundary to the OpenAI SDK. What `responses.parse` of the SDK
-- comes to is a value of `SdkOutcome`; the SDK itself is a parameter.
use telegram_lead_assistent.Prelude.{
  ℕ, leb, if◌then◌else◌, true, false, Option, some, String, Result, ok, err,
}
use telegram_lead_assistent.Domain.{Exception, raised}
use telegram_lead_assistent.Classifier.Schemas.{ClassificationResult}

-- The exceptions that the adapter raises.
abbrev pub classification_timeout : Exception
classification_timeout = raised "ClassificationTimeoutError" (some "CLASSIFICATION_TIMEOUT") true

abbrev pub classification_rate_limit : Exception
classification_rate_limit =
    raised "ClassificationRateLimitError" (some "CLASSIFICATION_RATE_LIMIT") true

abbrev pub classification_temporary : Exception
classification_temporary =
    raised "ClassificationTemporaryError" (some "CLASSIFICATION_TEMPORARY") true

abbrev pub classification_schema : Exception
classification_schema = raised "ClassificationSchemaError" (some "CLASSIFICATION_SCHEMA") true

abbrev pub classification_permanent : Exception
classification_permanent =
    raised "ClassificationPermanentError" (some "CLASSIFICATION_PERMANENT") false

pub record ClassificationUsage : Type 0 where
  pub input_tokens : ℕ
  pub output_tokens : ℕ
  pub total_tokens : ℕ

pub record ClassificationResponse : Type 0 where
  pub result : ClassificationResult
  pub usage : ClassificationUsage

-- The two prompts.
pub data Instructions : Type 0 where
  stage1_system_prompt stage2_system_prompt : Instructions

-- What a call of the SDK comes to: an exception, by the first `except` clause that it meets, or a
-- response, by its `output_parsed` and `usage`.
pub data SdkOutcome : Type 0 where
  api_timeout rate_limit : SdkOutcome
  response_validation content_filter length_limit validation : SdkOutcome
  api_connection : SdkOutcome
  api_status : (status_code : ℕ) → SdkOutcome
  api_error : SdkOutcome
  other_error : Exception → SdkOutcome
  parsed : Option ClassificationResult → Option ClassificationUsage → SdkOutcome

abbrev pub ResponsesClient : Type 0
ResponsesClient = (model : String) → Instructions → (input : String) → SdkOutcome

-- The body of `OpenAIResponsesTransport.classify`, after the call.
unfoldable pub translated_outcome : SdkOutcome → Result Exception ClassificationResponse
translated_outcome api_timeout = err classification_timeout
translated_outcome rate_limit = err classification_rate_limit
translated_outcome response_validation = err classification_schema
translated_outcome content_filter = err classification_schema
translated_outcome length_limit = err classification_schema
translated_outcome validation = err classification_schema
translated_outcome api_connection = err classification_temporary
translated_outcome (api_status status_code) =
    if leb 500 status_code then err classification_temporary else err classification_permanent
translated_outcome api_error = err classification_permanent
translated_outcome (other_error e) = err e
translated_outcome (parsed (some result) (some usage)) =
    ok (record { result = result; usage = usage })
translated_outcome (parsed _ _) = err classification_schema

-- `OpenAIClassificationAdapter` over the transport of `client`.
pub record ClassificationAdapter : Type 0 where
  pub model : String
  pub client : ResponsesClient

unfoldable pub classify :
    ClassificationAdapter → Instructions → String → Result Exception ClassificationResponse
unfolding translated_outcome
classify adapter instructions target_text =
    translated_outcome (adapter.client adapter.model instructions target_text)
