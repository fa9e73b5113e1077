-- ===== src/Listener/Mtproto.antt =====
-- app/listener/mtproto/client.py: the results of a verification of a chat.
pub mod TopicTitles
use telegram_lead_assistent.Prelude.{Bool, Option, String}

pub data ChatVerificationOutcome : Type 0 where
  active read_only access_lost verification_failed : ChatVerificationOutcome

pub record ChatVerificationResult : Type 0 where
  pub outcome : ChatVerificationOutcome
  pub is_supergroup : Bool
  pub is_forum : Bool
  pub error_code : Option String
