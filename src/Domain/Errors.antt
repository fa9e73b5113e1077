-- ===== src/Domain/Errors.antt =====
-- app/domain/errors.py, and the exception classes of the repositories and workers.
use telegram_lead_assistent.Prelude.{ℕ, Option, String, Bool}

pub data TelegramErrorCode : Type 0 where
  source_message_deleted chat_write_forbidden topic_closed topic_deleted flood_wait access_lost
        unknown_error :
      TelegramErrorCode

pub data TelegramFailureKind : Type 0 where
  permanent temporary ambiguous : TelegramFailureKind

pub record TelegramOutboundError : Type 0 where
  pub code : TelegramErrorCode
  pub kind : TelegramFailureKind
  pub retry_after_seconds : Option ℕ

-- `code.value`
abbrev pub code_value : TelegramErrorCode → String
code_value source_message_deleted = "SOURCE_MESSAGE_DELETED"
code_value chat_write_forbidden = "CHAT_WRITE_FORBIDDEN"
code_value topic_closed = "TOPIC_CLOSED"
code_value topic_deleted = "TOPIC_DELETED"
code_value flood_wait = "FLOOD_WAIT"
code_value access_lost = "ACCESS_LOST"
code_value unknown_error = "UNKNOWN_ERROR"

-- What a repository or a worker raises. `raised` is any exception of a handler, with what the
-- workers read of it: its class name, its `error_code` where that is a text, and whether its
-- `retryable` is anything but `False`.
pub data Exception : Type 0 where
  lookup_error value_error runtime_error integrity_error : Exception
  draft_unavailable confirmation_unavailable outbound_retry_unavailable outbound_validation :
      Exception
  raised : (class_name : String) (error_code : Option String) (retryable : Bool) → Exception
