-- ===== src/Listener/Events/Incoming.antt =====
-- app/listener/events/incoming.py: what the ingestion reads of an event. Telethon's objects are given
-- by the attributes that the mapper reads; `display_name` is what `get_display_name` returns.
use telegram_lead_assistent.Prelude.{
  zero, suc, Bool, Option, none, some, String, str_eq, if◌then◌else◌, truncate, is_some, Result, ok,
  err,
}
use telegram_lead_assistent.Domain.{Exception, value_error}
use telegram_lead_assistent.Database.Models.{TelegramId, Timestamp}

pub record IncomingMessage : Type 0 where
  pub telegram_chat_id : TelegramId
  pub telegram_message_id : TelegramId
  pub topic_id : Option TelegramId
  pub sender_telegram_id : Option TelegramId
  pub sender_display_name : Option String
  pub text : Option String
  pub telegram_created_at : Timestamp
  pub is_own : Bool
  pub is_service : Bool
  pub has_sticker : Bool

-- `MessageReplyHeader`
pub record ReplyHeader : Type 0 where
  pub forum_topic : Bool
  pub reply_to_top_id : Option TelegramId
  pub reply_to_msg_id : Option TelegramId

pub data MessageAction : Type 0 where
  topic_create other_action : MessageAction

-- `reply_to` is `none` for another kind of reply header, too.
pub record TelethonMessage : Type 0 where
  pub id : TelegramId
  pub display_name : Option String
  pub sender_id : Option TelegramId
  pub raw_text : Option String
  pub date : Timestamp
  pub out : Bool
  pub action : Option MessageAction
  pub has_sticker : Bool
  pub reply_to : Option ReplyHeader

pub record TelethonMessageEvent : Type 0 where
  pub chat_id : Option TelegramId
  pub message : TelethonMessage

-- `text or None`
abbrev pub non_empty : String → Option String
non_empty text = if str_eq text "" then none else some text

abbrev pub display_name_of : Option String → Option String
display_name_of none = none
display_name_of (some name) = non_empty (truncate 255 name)

abbrev pub text_of : Option String → Option String
text_of none = none
text_of (some text) = non_empty text

-- `a or b` of two optional numbers.
abbrev pub number_or : Option TelegramId → Option TelegramId → Option TelegramId
number_or none b = b
number_or (some zero) b = b
number_or (some (suc n)) b = some (suc n)

abbrev topic_of_action : Option MessageAction → TelegramId → Option TelegramId
topic_of_action (some topic_create) id = some id
topic_of_action _ id = none

unfoldable pub extract_topic_id : TelethonMessage → Option TelegramId
extract_topic_id message = elim message.reply_to [
  | none ↦ topic_of_action message.action message.id
  | some header ↦
      if header.forum_topic
      then number_or header.reply_to_top_id header.reply_to_msg_id
      else topic_of_action message.action message.id
]

abbrev pub message_of : TelegramId → Option TelegramId → TelethonMessage → IncomingMessage
message_of chat_id topic_id message = record {
  telegram_chat_id = chat_id;
  telegram_message_id = message.id;
  topic_id = topic_id;
  sender_telegram_id = message.sender_id;
  sender_display_name = display_name_of message.display_name;
  text = text_of message.raw_text;
  telegram_created_at = message.date;
  is_own = message.out;
  is_service = is_some message.action;
  has_sticker = message.has_sticker;
}

unfoldable pub map_message :
    Option TelegramId → Option TelegramId → TelethonMessage → Result Exception IncomingMessage
map_message none topic_id message = err value_error
map_message (some chat_id) topic_id message = ok (message_of chat_id topic_id message)

unfoldable pub map_telethon_event :
    TelethonMessageEvent → Option TelegramId → Result Exception IncomingMessage
unfolding map_message
map_telethon_event event topic_id = map_message event.chat_id topic_id event.message
