-- ===== src/Translation/Client.antt =====
-- app/translation/client.py: the adapter of the LibreTranslate service. The HTTP client is a parameter,
-- `HttpClient`, by what the `try` block of a call sees of it; `lower` is Python's `str.lower`.
use telegram_lead_assistent.Prelude.{
  Bool, false, Option, none, some, String, str_eq, Result, ok, err, if◌then◌else◌,
}
use telegram_lead_assistent.Domain.{Exception}
use telegram_lead_assistent.Database.Models.{Json, JsonItems, JsonFields}
use telegram_lead_assistent.Database.Records.{TranslationStatus}

pub record TranslationResult : Type 0 where
  pub original_text : String
  pub translated_text : Option String
  pub source_language : Option String
  pub status : TranslationStatus
  pub error_code : Option String

-- `TranslationService`
pub record TranslationService : Type 0 where
  pub detect_language : String → Result Exception (Option String)
  pub translate_to_russian : String → Option String → Result Exception TranslationResult

-- What `post`, `raise_for_status` and `json` come to: `httpx.TimeoutException`, another
-- `httpx.HTTPError`, a `ValueError` or a `TypeError`, any other exception, or the decoded body.
pub data HttpOutcome : Type 0 where
  timeout http_error value_or_type_error : HttpOutcome
  other_error : Exception → HttpOutcome
  payload : Json → HttpOutcome

pub record HttpClient : Type 0 where
  pub detect : (q : String) → HttpOutcome
  pub translate : (q source target format : String) → HttpOutcome

-- `isinstance(value, str) and value`
abbrev pub non_empty_text : Json → Option String
non_empty_text (Json.text t) = if str_eq t "" then none else some t
non_empty_text _ = none

-- `payload.get(key)` of a dictionary, whose keys are distinct.
unfoldable pub get_field : String → JsonFields → Json
get_field key JsonFields.end = Json.null
get_field key (JsonFields.field name value rest) =
    let later = get_field key rest in if str_eq name key then value else later

abbrev pub lower_if_text : (String → String) → Option String → Option String
lower_if_text lower none = none
lower_if_text lower (some language) = some (lower language)

-- The language of the first item of a list of dictionaries.
unfoldable pub detected : (String → String) → Json → Option String
unfolding get_field
detected lower (Json.array (JsonItems.cons (Json.object fields) items)) =
    lower_if_text lower (non_empty_text (get_field "language" fields))
detected lower _ = none

detection : (String → String) → HttpOutcome → Result Exception (Option String)
unfolding detected
detection lower (payload body) = ok (detected lower body)
detection lower (other_error e) = err e
detection lower _ = ok none

unfoldable pub detect_language :
    (String → String) → HttpClient → String → Result Exception (Option String)
unfolding detection
detect_language lower client text = detection lower (client.detect text)

-- `_failure`
abbrev pub failure : String → Option String → String → TranslationResult
failure text source_language error_code = record {
  original_text = text;
  translated_text = none;
  source_language = source_language;
  status = TranslationStatus.failed;
  error_code = some error_code;
}

abbrev pub translation : String → Option String → Option String → TranslationResult
translation text source_language none = failure text source_language "invalid_response"
translation text source_language (some translated_text) = record {
  original_text = text;
  translated_text = some translated_text;
  source_language = source_language;
  status = TranslationStatus.translated;
  error_code = none;
}

-- `payload.get("translatedText")` of a dictionary.
abbrev pub translated_field : Json → Option String
translated_field (Json.object fields) = non_empty_text (get_field "translatedText" fields)
translated_field _ = none

unfoldable pub translation_of :
    String → Option String → HttpOutcome → Result Exception TranslationResult
unfolding get_field
translation_of text source (payload body) = ok (translation text source (translated_field body))
translation_of text source timeout = ok (failure text source "timeout")
translation_of text source http_error = ok (failure text source "service_unavailable")
translation_of text source value_or_type_error = ok (failure text source "service_unavailable")
translation_of text source (other_error e) = err e

-- `source_language.lower() if source_language else None`
abbrev pub normalized : (String → String) → Option String → Option String
normalized lower none = none
normalized lower (some language) = if str_eq language "" then none else some (lower language)

abbrev pub is_russian : Option String → Bool
is_russian none = false
is_russian (some language) = str_eq language "ru"

-- `normalized_source or "auto"`
abbrev pub source_or_auto : Option String → String
source_or_auto none = "auto"
source_or_auto (some language) = if str_eq language "" then "auto" else language

abbrev pub bypassed : String → TranslationResult
bypassed text = record {
  original_text = text;
  translated_text = none;
  source_language = some "ru";
  status = TranslationStatus.bypassed;
  error_code = none;
}

unfoldable pub translate_to_russian :
    (String → String) → HttpClient → String → Option String → Result Exception TranslationResult
unfolding translation_of
translate_to_russian lower client text source_language =
    let normalized_source = normalized lower source_language in
    if is_russian normalized_source
    then ok (bypassed text)
    else translation_of text normalized_source
        (client.translate text (source_or_auto normalized_source) "ru" "text")

-- `LibreTranslateAdapter`
abbrev pub libre_translate_adapter : (String → String) → HttpClient → TranslationService
libre_translate_adapter lower client = record {
  detect_language = detect_language lower client;
  translate_to_russian = translate_to_russian lower client;
}
