-- ===== src/Listener/ReplyChain.antt =====
-- app/listener/reply_chain.py: the explicit parents of a message, loaded through MTProto.
pub mod Turns
pub mod Walk
pub mod Chain
pub mod Snapshot
use telegram_lead_assistent.Prelude.{
  ℕ, zero, suc, ◌==◌, ltb, if◌then◌else◌, Bool, true, false, not, ◌||◌, Option, none, some, List,
  [], ◌∷◌, String, Result, ok, err, opt_eq, any_where, is_some,
}
use telegram_lead_assistent.Domain.{Exception, value_error}
use telegram_lead_assistent.Database.Models.{TelegramId, Timestamp}

pub data ReplyChainStopReason : Type 0 where
  missing_parent cross_chat_parent cross_topic_parent cycle max_depth_reached : ReplyChainStopReason

pub record ReplyMessage : Type 0 where
  pub telegram_chat_id : TelegramId
  pub telegram_message_id : TelegramId
  pub reply_to_message_id : Option TelegramId
  pub topic_id : Option TelegramId
  pub reply_to_top_message_id : Option TelegramId
  pub author_telegram_id : Option TelegramId
  pub author_display_name : Option String
  pub telegram_created_at : Timestamp
  pub text : String

pub record ReplyChainItem : Type 0 where
  pub telegram_message_id : TelegramId
  pub reply_to_message_id : Option TelegramId
  pub topic_id : Option TelegramId
  pub reply_to_top_message_id : Option TelegramId
  pub author_telegram_id : Option TelegramId
  pub author_display_name : Option String
  pub telegram_created_at : Option Timestamp
  pub text : Option String
  pub is_target : Bool
  pub is_unavailable : Bool

pub record ReplyChain : Type 0 where
  pub chat_id : TelegramId
  pub items : List ReplyChainItem
  pub topic_id : Option TelegramId
  pub reply_to_top_message_id : Option TelegramId
  pub topic_title : Option String
  pub stop_reason : Option ReplyChainStopReason

-- `ReplyMessageSource`
pub record ReplyMessageSource : Type 0 where
  pub get_reply_message : TelegramId → TelegramId → Option ReplyMessage
  pub get_forum_topic_title : TelegramId → TelegramId → Option String

-- `_available_item` and `_unavailable_item`
abbrev pub available_item : ReplyMessage → ReplyChainItem
available_item message = record {
  telegram_message_id = message.telegram_message_id;
  reply_to_message_id = message.reply_to_message_id;
  topic_id = message.topic_id;
  reply_to_top_message_id = message.reply_to_top_message_id;
  author_telegram_id = message.author_telegram_id;
  author_display_name = message.author_display_name;
  telegram_created_at = some message.telegram_created_at;
  text = some message.text;
  is_target = false;
  is_unavailable = false;
}

abbrev pub unavailable_item : TelegramId → ReplyChainItem
unavailable_item message_id = record {
  telegram_message_id = message_id;
  reply_to_message_id = none;
  topic_id = none;
  reply_to_top_message_id = none;
  author_telegram_id = none;
  author_display_name = none;
  telegram_created_at = none;
  text = none;
  is_target = false;
  is_unavailable = true;
}

-- The variables of the loop. `items` is `newest_first` read from its end, so that it is the list that
-- the loop's `reversed` yields.
pub record Progress : Type 0 where
  pub items : List ReplyChainItem
  pub visited_message_ids : List TelegramId
  pub target_topic_id : Option TelegramId
  pub target_top_message_id : Option TelegramId
  pub stop_reason : Option ReplyChainStopReason

-- What an iteration of the loop comes to: a `break`, or the next `current_id`.
pub data Turn : Type 0 where
  break : Progress → Turn
  continue : TelegramId → Progress → Turn

abbrev pub is_empty : List ReplyChainItem → Bool
is_empty [] = true
is_empty (x ∷ xs) = false

abbrev pub stopped : TelegramId → ReplyChainStopReason → Progress → Turn
stopped current_id reason p =
    break (record p { items = unavailable_item current_id ∷ p.items; stop_reason = some reason })

-- The message is taken, and the loop goes on to its parent, if it has one.
abbrev pub extended : ReplyMessage → Progress → Turn
extended message p =
    let p' = record p { items = available_item message ∷ p.items } in
    elim message.reply_to_message_id [ none ↦ break p' | some parent ↦ continue parent p' ]

-- A message of the chat: the first one sets the topic, which the others must be of.
abbrev pub in_topic : TelegramId → ReplyMessage → Progress → Turn
in_topic current_id message p =
    if is_empty p.items
    then extended message (record p {
      target_topic_id = message.topic_id;
      target_top_message_id = message.reply_to_top_message_id;
    })
    else if opt_eq message.topic_id p.target_topic_id
    then extended message p
    else stopped current_id cross_topic_parent p

abbrev pub received : TelegramId → TelegramId → Option ReplyMessage → Progress → Turn
received chat_id current_id none p = stopped current_id missing_parent p
received chat_id current_id (some message) p =
    if message.telegram_chat_id == chat_id
    then in_topic current_id message p
    else stopped current_id cross_chat_parent p

-- The body of the loop.
unfoldable pub turn : ReplyMessageSource → TelegramId → TelegramId → Progress → Turn
turn source chat_id current_id p =
    if any_where (λ id. id == current_id) p.visited_message_ids
    then break (record p { stop_reason = some cycle })
    else received chat_id current_id (source.get_reply_message chat_id current_id)
        (record p { visited_message_ids = current_id ∷ p.visited_message_ids })

-- The `else` of the loop, which runs when no `break` did.
abbrev pub exhausted : Progress → Progress
exhausted p = elim p.items [
  | [] ↦ p
  | oldest ∷ newer ↦
      if is_some oldest.reply_to_message_id
      then record p { stop_reason = some max_depth_reached }
      else p
]

-- The loop, by how many items it may still add: `max_depth - len(newest_first)`. Each iteration that
-- goes on adds one.
unfoldable pub walk : ReplyMessageSource → TelegramId → ℕ → TelegramId → Progress → Progress
unfolding turn
walk source chat_id zero current_id p = exhausted p
walk source chat_id (suc n) current_id p = elim (turn source chat_id current_id p) [
  | break p' ↦ p'
  | continue parent p' ↦ walk source chat_id n parent p'
]

-- `ordered[-1] = replace(ordered[-1], is_target=True)`
unfoldable pub mark_target : List ReplyChainItem → List ReplyChainItem
mark_target [] = []
mark_target (item ∷ []) = record item { is_target = true } ∷ []
mark_target (item ∷ next ∷ rest) = item ∷ mark_target (next ∷ rest)

abbrev pub start : Progress
start = record {
  items = [];
  visited_message_ids = [];
  target_topic_id = none;
  target_top_message_id = none;
  stop_reason = none;
}

abbrev pub title_of : ReplyMessageSource → TelegramId → Option TelegramId → Option String
title_of source chat_id none = none
title_of source chat_id (some topic_id) = source.get_forum_topic_title chat_id topic_id

abbrev pub chain_of : ReplyMessageSource → TelegramId → Progress → ReplyChain
chain_of source chat_id p = record {
  chat_id = chat_id;
  items = mark_target p.items;
  topic_id = p.target_topic_id;
  reply_to_top_message_id = p.target_top_message_id;
  topic_title = title_of source chat_id p.target_topic_id;
  stop_reason = p.stop_reason;
}

unfoldable pub get_reply_chain :
    ReplyMessageSource → TelegramId → TelegramId → ℕ → Result Exception ReplyChain
unfolding walk mark_target
get_reply_chain source chat_id message_id max_depth =
    if ltb max_depth 1 || ltb 10 max_depth
    then err value_error
    else ok (chain_of source chat_id (walk source chat_id max_depth message_id start))
