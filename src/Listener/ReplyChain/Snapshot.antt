-- ===== src/Listener/ReplyChain/Snapshot.antt =====
-- app/listener/reply_chain.py and app/listener/reply_chain_worker.py: the hand-off of a chain to the
-- classifier as a JSON snapshot. The JSON form of the validated models (pydantic) is a parameter.
use telegram_lead_assistent.Prelude.{
  Bool, Option, List, [], ◌∷◌, ◌≡◌, refl, ap, String, Result, ok, ◌>>=◌, map,
}
use telegram_lead_assistent.Domain.{Exception}
use telegram_lead_assistent.Database.Models.{TelegramId, Timestamp, Json}
use telegram_lead_assistent.Database.Downstream
use telegram_lead_assistent.Database.Worker.{DownstreamJobHandler}
use telegram_lead_assistent.Listener.ReplyChain.{
  ReplyChain, ReplyChainItem, ReplyChainStopReason, ReplyMessageSource, get_reply_chain,
}

pub record ReplyChainItemSnapshot : Type 0 where
  pub telegram_message_id : TelegramId
  pub reply_to_message_id : Option TelegramId
  pub topic_id : Option TelegramId
  pub reply_to_top_message_id : Option TelegramId
  pub author_telegram_id : Option TelegramId
  pub author_display_name : Option String
  pub telegram_created_at : Option Timestamp
  pub text : Option String
  pub is_target : Bool
  pub is_unavailable : Bool

pub record ReplyChainSnapshot : Type 0 where
  pub chat_id : TelegramId
  pub items : List ReplyChainItemSnapshot
  pub topic_id : Option TelegramId
  pub reply_to_top_message_id : Option TelegramId
  pub topic_title : Option String
  pub stop_reason : Option ReplyChainStopReason

-- `model_dump(mode="json")` and `model_validate` of the snapshot.
pub record SnapshotModel : Type 0 where
  pub model_dump : ReplyChainSnapshot → Json
  pub model_validate : Json → Result Exception ReplyChainSnapshot

-- What pydantic documents: validating what was dumped yields the model that was dumped.
abbrev pub ValidatesDumps : SnapshotModel → Type 0
ValidatesDumps model =
    (snapshot : ReplyChainSnapshot) → model.model_validate (model.model_dump snapshot) ≡ ok snapshot

abbrev pub item_snapshot : ReplyChainItem → ReplyChainItemSnapshot
item_snapshot item = record {
  telegram_message_id = item.telegram_message_id;
  reply_to_message_id = item.reply_to_message_id;
  topic_id = item.topic_id;
  reply_to_top_message_id = item.reply_to_top_message_id;
  author_telegram_id = item.author_telegram_id;
  author_display_name = item.author_display_name;
  telegram_created_at = item.telegram_created_at;
  text = item.text;
  is_target = item.is_target;
  is_unavailable = item.is_unavailable;
}

abbrev pub item_of : ReplyChainItemSnapshot → ReplyChainItem
item_of item = record {
  telegram_message_id = item.telegram_message_id;
  reply_to_message_id = item.reply_to_message_id;
  topic_id = item.topic_id;
  reply_to_top_message_id = item.reply_to_top_message_id;
  author_telegram_id = item.author_telegram_id;
  author_display_name = item.author_display_name;
  telegram_created_at = item.telegram_created_at;
  text = item.text;
  is_target = item.is_target;
  is_unavailable = item.is_unavailable;
}

unfoldable pub serialize_reply_chain : SnapshotModel → ReplyChain → Json
serialize_reply_chain model chain = model.model_dump (record {
  chat_id = chain.chat_id;
  items = map item_snapshot chain.items;
  topic_id = chain.topic_id;
  reply_to_top_message_id = chain.reply_to_top_message_id;
  topic_title = chain.topic_title;
  stop_reason = chain.stop_reason;
})

unfoldable pub deserialize_reply_chain : SnapshotModel → Json → Result Exception ReplyChain
deserialize_reply_chain model value = do
  snapshot ← model.model_validate value
  ok (record {
    chat_id = snapshot.chat_id;
    items = map item_of snapshot.items;
    topic_id = snapshot.topic_id;
    reply_to_top_message_id = snapshot.reply_to_top_message_id;
    topic_title = snapshot.topic_title;
    stop_reason = snapshot.stop_reason;
  })

map-item_of : (items : List ReplyChainItem) → map item_of (map item_snapshot items) ≡ items
map-item_of [] = refl
map-item_of (item ∷ items) = ap (λ rest. item ∷ rest) (map-item_of items)

-- A chain that was serialized is restored.
pub deserialize-serialize :
    (model : SnapshotModel)
    → ValidatesDumps model
    → (chain : ReplyChain)
    → deserialize_reply_chain model (serialize_reply_chain model chain) ≡ ok chain
unfolding serialize_reply_chain deserialize_reply_chain
deserialize-serialize model law chain =
    rw law (ap (λ items. ok (record chain { items = items })) (map-item_of chain.items))

-- `ReplyChainSnapshotHandler`; `max_depth` has its default.
unfoldable pub snapshot_handler :
    SnapshotModel → ReplyMessageSource → Timestamp → DownstreamJobHandler
snapshot_handler model source now job db = do
  chain ← get_reply_chain source job.telegram_chat_id job.telegram_message_id 10
  Downstream.save_reply_chain now job.id (serialize_reply_chain model chain) db
