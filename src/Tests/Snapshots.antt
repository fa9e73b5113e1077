-- ===== src/Tests/Snapshots.antt =====
-- A JSON form of the reply-chain snapshots.
use telegram_lead_assistent.Prelude.{
  ℕ, ◌≡◌, refl, true, false, Option, none, some, List, [], ◌∷◌, String, Result, ok, err, ◌>>=◌,
}
use telegram_lead_assistent.Domain.{Exception, value_error}
use telegram_lead_assistent.Database.Models.{Json, JsonItems, JsonFields}
use telegram_lead_assistent.Listener.ReplyChain.{
  ReplyChainStopReason, missing_parent, cross_chat_parent, cross_topic_parent, cycle,
  max_depth_reached,
}
use telegram_lead_assistent.Listener.ReplyChain.Snapshot.{
  ReplyChainItemSnapshot, ReplyChainSnapshot, SnapshotModel, ValidatesDumps,
}

dump_number : Option ℕ → Json
dump_number none = Json.null
dump_number (some n) = Json.number n

read_number : Json → Result Exception (Option ℕ)
read_number Json.null = ok none
read_number (Json.number n) = ok (some n)
read_number _ = err value_error

read_number-dump : (o : Option ℕ) → read_number (dump_number o) ≡ ok o
unfolding read_number dump_number
read_number-dump none = refl
read_number-dump (some n) = refl

dump_text : Option String → Json
dump_text none = Json.null
dump_text (some t) = Json.text t

read_text : Json → Result Exception (Option String)
read_text Json.null = ok none
read_text (Json.text t) = ok (some t)
read_text _ = err value_error

read_text-dump : (o : Option String) → read_text (dump_text o) ≡ ok o
unfolding read_text dump_text
read_text-dump none = refl
read_text-dump (some t) = refl

dump_reason : Option ReplyChainStopReason → Json
dump_reason none = Json.null
dump_reason (some missing_parent) = Json.text "missing_parent"
dump_reason (some cross_chat_parent) = Json.boolean true
dump_reason (some cross_topic_parent) = Json.boolean false
dump_reason (some cycle) = Json.array JsonItems.nil
dump_reason (some max_depth_reached) = Json.object JsonFields.end

read_reason : Json → Result Exception (Option ReplyChainStopReason)
read_reason Json.null = ok none
read_reason (Json.text t) = ok (some missing_parent)
read_reason (Json.boolean true) = ok (some cross_chat_parent)
read_reason (Json.boolean false) = ok (some cross_topic_parent)
read_reason (Json.array items) = ok (some cycle)
read_reason (Json.object fields) = ok (some max_depth_reached)
read_reason (Json.number n) = err value_error

read_reason-dump : (o : Option ReplyChainStopReason) → read_reason (dump_reason o) ≡ ok o
unfolding read_reason dump_reason
read_reason-dump none = refl
read_reason-dump (some missing_parent) = refl
read_reason-dump (some cross_chat_parent) = refl
read_reason-dump (some cross_topic_parent) = refl
read_reason-dump (some cycle) = refl
read_reason-dump (some max_depth_reached) = refl

infixr 20 ◌◃◌
abbrev ◌◃◌ : Json → JsonItems → JsonItems
j ◃ js = JsonItems.cons j js

dump_item : ReplyChainItemSnapshot → Json
unfolding dump_number dump_text
dump_item i = Json.array (
    Json.number i.telegram_message_id
    ◃ (dump_number i.reply_to_message_id
        ◃ (dump_number i.topic_id
            ◃ (dump_number i.reply_to_top_message_id
                ◃ (dump_number i.author_telegram_id
                    ◃ (dump_text i.author_display_name
                        ◃ (dump_number i.telegram_created_at
                            ◃ (dump_text i.text
                                ◃ (Json.boolean i.is_target
                                    ◃ (Json.boolean i.is_unavailable ◃ JsonItems.nil))))))))))

read_item : Json → Result Exception ReplyChainItemSnapshot
unfolding read_number read_text
read_item
      (Json.array (
        JsonItems.cons (Json.number id) (
          JsonItems.cons reply (
            JsonItems.cons topic (
              JsonItems.cons top (
                JsonItems.cons author (
                  JsonItems.cons name (
                    JsonItems.cons at (
                      JsonItems.cons words (
                        JsonItems.cons
                          (Json.boolean target)
                          (JsonItems.cons (Json.boolean gone) JsonItems.nil))))))))))) =
    do
      reply' ← read_number reply
      topic' ← read_number topic
      top' ← read_number top
      author' ← read_number author
      name' ← read_text name
      at' ← read_number at
      text' ← read_text words
      ok (record {
        telegram_message_id = id;
        reply_to_message_id = reply';
        topic_id = topic';
        reply_to_top_message_id = top';
        author_telegram_id = author';
        author_display_name = name';
        telegram_created_at = at';
        text = text';
        is_target = target;
        is_unavailable = gone;
      })
read_item _ = err value_error

read_item-dump : (i : ReplyChainItemSnapshot) → read_item (dump_item i) ≡ ok i
unfolding read_item dump_item
read_item-dump i =
    rw
      (
        read_number-dump i.reply_to_message_id,
        read_number-dump i.topic_id,
        read_number-dump i.reply_to_top_message_id,
        read_number-dump i.author_telegram_id,
        read_text-dump i.author_display_name,
        read_number-dump i.telegram_created_at,
        read_text-dump i.text,
      )
      refl

dump_items : List ReplyChainItemSnapshot → JsonItems
unfolding dump_item
dump_items [] = JsonItems.nil
dump_items (i ∷ rest) = dump_item i ◃ dump_items rest

read_items : JsonItems → Result Exception (List ReplyChainItemSnapshot)
unfolding read_item
read_items JsonItems.nil = ok []
read_items (JsonItems.cons j js) = do i ← read_item j; rest ← read_items js; ok (i ∷ rest)

read_items-dump : (items : List ReplyChainItemSnapshot) → read_items (dump_items items) ≡ ok items
unfolding read_items dump_items
read_items-dump [] = refl
read_items-dump (i ∷ rest) = rw (read_item-dump i, read_items-dump rest) refl

pub dump : ReplyChainSnapshot → Json
unfolding dump_number dump_text dump_reason dump_items
dump s = Json.array (
    Json.number s.chat_id
    ◃ (Json.array (dump_items s.items)
        ◃ (dump_number s.topic_id
            ◃ (dump_number s.reply_to_top_message_id
                ◃ (dump_text s.topic_title ◃ (dump_reason s.stop_reason ◃ JsonItems.nil))))))

pub validate : Json → Result Exception ReplyChainSnapshot
unfolding read_number read_text read_reason read_items
validate
      (Json.array (
        JsonItems.cons (Json.number chat) (
          JsonItems.cons (Json.array items) (
            JsonItems.cons topic (
              JsonItems.cons top (JsonItems.cons title (JsonItems.cons reason JsonItems.nil))))))) =
    do
      items' ← read_items items
      topic' ← read_number topic
      top' ← read_number top
      title' ← read_text title
      reason' ← read_reason reason
      ok (record {
        chat_id = chat;
        items = items';
        topic_id = topic';
        reply_to_top_message_id = top';
        topic_title = title';
        stop_reason = reason';
      })
validate _ = err value_error

abbrev pub snapshot_model : SnapshotModel
snapshot_model = record { model_dump = dump; model_validate = validate }

pub snapshot_model-ValidatesDumps : ValidatesDumps snapshot_model
unfolding dump validate
snapshot_model-ValidatesDumps s =
    rw
      (
        read_items-dump s.items,
        read_number-dump s.topic_id,
        read_number-dump s.reply_to_top_message_id,
        read_text-dump s.topic_title,
        read_reason-dump s.stop_reason,
      )
      refl
