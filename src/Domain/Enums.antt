-- ===== src/Domain/Enums.antt =====
-- app/domain/enums.py. `is_…` are the identity tests (`status is X`) of the source.
use telegram_lead_assistent.Prelude.{Bool, true, false}

pub data MonitoredChatStatus : Type 0 where
  pending_verification active access_lost read_only disabled verification_failed :
      MonitoredChatStatus

pub data MonitoredChatType : Type 0 where
  group supergroup forum_supergroup : MonitoredChatType

pub data ProcessingJobStatus : Type 0 where
  pending processing retry failed awaiting_relevant_processing awaiting_reply_context :
      ProcessingJobStatus

pub data QuestionStatus : Type 0 where
  detected waiting_for_draft waiting_confirmation send_requested sent send_failed dismissed
        cancelled :
      QuestionStatus

pub data OutboundCommandStatus : Type 0 where
  pending processing succeeded failed needs_review : OutboundCommandStatus

pub data TranslationManagerAction : Type 0 where
  install enable disable delete reload test : TranslationManagerAction

pub data TranslationManagerJobStatus : Type 0 where
  pending processing succeeded failed : TranslationManagerJobStatus

-- `action` of a reply version and `command_type` of an outbound command: texts that the tables
-- restrict to these values by a CHECK constraint.
pub data ReplyAction : Type 0 where
  draft sent edited : ReplyAction

pub data CommandType : Type 0 where
  send_reply edit_reply : CommandType

abbrev pub is_send : CommandType → Bool
is_send send_reply = true
is_send edit_reply = false

abbrev pub is_edit : CommandType → Bool
is_edit send_reply = false
is_edit edit_reply = true

abbrev pub is_draft : ReplyAction → Bool
is_draft draft = true
is_draft _ = false
