-- ===== src/Listener/ReplyChain/Turns.antt =====
-- What an iteration of the loop keeps true of the items that were gathered.
use telegram_lead_assistent.Prelude.{
  ℕ, ◌==◌, ◌+◌, ◌≤◌, ◌≡◌, refl, sym, ap, subst, ◌∙◌, Bool, true, false, Option, none, some, List,
  [], ◌∷◌, map, arith, ◌⊎◌, inl, inr, Bool-cases, any_where, length, opt_eq, opt_eq_iff, ◌||◌, ◌&&◌,
  is_some,
}
use telegram_lead_assistent.Database.Models.{TelegramId}
use telegram_lead_assistent.Listener.ReplyChain.{
  ReplyChainItem, ReplyMessage, ReplyMessageSource, Progress, Turn, break, continue, is_empty,
  stopped, in_topic, received, available_item, unavailable_item, ReplyChainStopReason,
  cross_topic_parent, cross_chat_parent, missing_parent,
}

-- Each item but the last is the parent of the one after it.
abbrev pub IsLinked : List ReplyChainItem → Type 0
IsLinked [] = Unit
IsLinked (x ∷ []) = Unit
IsLinked (x ∷ (y ∷ rest)) =
    (y.reply_to_message_id ≡ some x.telegram_message_id) × IsLinked (y ∷ rest)

-- No two items are of one message.
abbrev pub IsDistinct : List ReplyChainItem → Type 0
IsDistinct [] = Unit
IsDistinct (x ∷ rest) =
    (any_where (λ y. y.telegram_message_id == x.telegram_message_id) rest ≡ false) × IsDistinct rest

-- The message of the last item, the target.
abbrev pub EndsIn : TelegramId → List ReplyChainItem → Type 0
EndsIn id [] = ⊥
EndsIn id (x ∷ []) = x.telegram_message_id ≡ id
EndsIn id (x ∷ (y ∷ rest)) = EndsIn id (y ∷ rest)

-- Every item is of the topic or a marker.
abbrev pub IsInTopic : Option TelegramId → List ReplyChainItem → Type 0
IsInTopic topic [] = Unit
IsInTopic topic (x ∷ rest) =
    ((x.is_unavailable ≡ true) ⊎ (x.topic_id ≡ topic)) × IsInTopic topic rest

-- Every item is a marker or has the text and the time of its message.
abbrev pub is_complete : ReplyChainItem → Bool
is_complete x = x.is_unavailable || (is_some x.text && is_some x.telegram_created_at)

abbrev pub IsComplete : List ReplyChainItem → Type 0
IsComplete [] = Unit
IsComplete (x ∷ rest) = (is_complete x ≡ true) × IsComplete rest

-- No item is marked as the target yet.
abbrev pub IsUnmarked : List ReplyChainItem → Type 0
IsUnmarked [] = Unit
IsUnmarked (x ∷ rest) = (x.is_target ≡ false) × IsUnmarked rest

-- What the next message is to the items: the target itself, or the parent of the oldest.
abbrev pub IsNext : TelegramId → TelegramId → List ReplyChainItem → Type 0
IsNext target id [] = id ≡ target
IsNext target id (x ∷ rest) = (x.reply_to_message_id ≡ some id) × EndsIn target (x ∷ rest)

-- What holds of the variables before an iteration.
pub record IsWalk (target current : TelegramId) (p : Progress) : Type 0 where
  pub linked : IsLinked p.items
  pub distinct : IsDistinct p.items
  pub in_topic : IsInTopic p.target_topic_id p.items
  pub complete : IsComplete p.items
  pub unmarked : IsUnmarked p.items
  pub next : IsNext target current p.items
  pub visited : p.visited_message_ids ≡ map (λ i. i.telegram_message_id) p.items

-- What holds when the loop is left, after at most `depth` items.
pub record IsWalked (target : TelegramId) (depth : ℕ) (p : Progress) : Type 0 where
  pub linked : IsLinked p.items
  pub distinct : IsDistinct p.items
  pub in_topic : IsInTopic p.target_topic_id p.items
  pub complete : IsComplete p.items
  pub unmarked : IsUnmarked p.items
  pub ends : EndsIn target p.items
  pub bounded : length p.items ≤ depth

-- Telegram answers with the message that was asked for.
abbrev pub FetchesById : ReplyMessageSource → Type 0
FetchesById source =
    (chat_id id : TelegramId) (message : ReplyMessage)
    → source.get_reply_message chat_id id ≡ some message
    → message.telegram_message_id ≡ id

any_visited :
    (id : TelegramId) (items : List ReplyChainItem)
    → any_where (λ i. i == id) (map (λ i. i.telegram_message_id) items)
      ≡ any_where (λ i. i.telegram_message_id == id) items
unfolding any_where
any_visited id [] = refl
any_visited id (x ∷ rest) = ground (arith, any_visited id rest)

IsLinked-cons :
    (target id : TelegramId) (x : ReplyChainItem) (items : List ReplyChainItem)
    → x.telegram_message_id ≡ id
    → IsNext target id items
    → IsLinked items
    → IsLinked (x ∷ items)
IsLinked-cons target id x [] e n l = tt
IsLinked-cons target id x (y ∷ rest) e n l = (n.0 ∙ ap some (sym e), l)

EndsIn-cons :
    (target id : TelegramId) (x : ReplyChainItem) (items : List ReplyChainItem)
    → x.telegram_message_id ≡ id
    → IsNext target id items
    → EndsIn target (x ∷ items)
EndsIn-cons target id x [] e n = e ∙ n
EndsIn-cons target id x (y ∷ rest) e n = n.1

unfoldable pub TurnKeeps : (target : TelegramId) (before : List ReplyChainItem) → Turn → Type 0
TurnKeeps target before (break p) = IsWalked target (length before + 1) p
TurnKeeps target before (continue parent p) =
    IsWalk target parent p × (length p.items ≡ length before + 1)

module _ (target current : TelegramId) (p : Progress) (w : IsWalk target current p)
    (new : any_where (λ id. id == current) p.visited_message_ids ≡ false) where
  unvisited : any_where (λ i. i.telegram_message_id == current) p.items ≡ false
  unvisited =
      sym (any_visited current p.items)
      ∙ subst (λ ids. any_where (λ id. id == current) ids ≡ false) w.visited new

  -- The marker that ends the walk at the message.
  stopped-keeps :
      (reason : ReplyChainStopReason)
      → TurnKeeps target p.items (
          stopped current reason
            (record p { visited_message_ids = current ∷ p.visited_message_ids }))
  unfolding TurnKeeps
  stopped-keeps reason = record {
    linked = IsLinked-cons target current (unavailable_item current) p.items refl w.next w.linked;
    distinct = (unvisited, w.distinct);
    in_topic = (inl refl, w.in_topic);
    complete = (refl, w.complete);
    unmarked = (refl, w.unmarked);
    ends = EndsIn-cons target current (unavailable_item current) p.items refl w.next;
    bounded = omega arith;
  }

  module _ (message : ReplyMessage) (its_id : message.telegram_message_id ≡ current) where
    new_item : any_where (λ i. i.telegram_message_id == message.telegram_message_id) p.items ≡ false
    new_item =
        subst (λ id. any_where (λ i. i.telegram_message_id == id) p.items ≡ false) (sym its_id)
          unvisited

    -- The variables with the message taken, where its topic is that of the others.
    abbrev taken : Option TelegramId → Option TelegramId → Progress
    taken topic top = record p {
      items = available_item message ∷ p.items;
      visited_message_ids = current ∷ p.visited_message_ids;
      target_topic_id = topic;
      target_top_message_id = top;
    }

    extended-keeps :
        (topic top parent : Option TelegramId)
        → IsInTopic topic p.items
        → message.topic_id ≡ topic
        → message.reply_to_message_id ≡ parent
        → TurnKeeps target p.items (elim parent [
          | none ↦ break (taken topic top)
          | some id ↦ continue id (taken topic top)
        ])
    unfolding TurnKeeps
    extended-keeps topic top none others own e = record {
      linked = IsLinked-cons target current (available_item message) p.items its_id w.next w.linked;
      distinct = (new_item, w.distinct);
      in_topic = (inr own, others);
      complete = (refl, w.complete);
      unmarked = (refl, w.unmarked);
      ends = EndsIn-cons target current (available_item message) p.items its_id w.next;
      bounded = omega arith;
    }
    extended-keeps topic top (some id) others own e = (
      record {
        linked =
            IsLinked-cons target current (available_item message) p.items its_id w.next w.linked;
        distinct = (new_item, w.distinct);
        in_topic = (inr own, others);
        complete = (refl, w.complete);
        unmarked = (refl, w.unmarked);
        next = (e, EndsIn-cons target current (available_item message) p.items its_id w.next);
        visited =
            ap (λ ids. current ∷ ids) w.visited
            ∙ ap (λ id. id ∷ map (λ i. i.telegram_message_id) p.items) (sym its_id);
      },
      omega arith,
    )

    in_topic-keeps :
        (empty same : Bool)
        → is_empty p.items ≡ empty
        → opt_eq message.topic_id p.target_topic_id ≡ same
        → TurnKeeps target p.items (
            in_topic current message
              (record p { visited_message_ids = current ∷ p.visited_message_ids }))
    in_topic-keeps true same e s = rw e (
        extended-keeps message.topic_id message.reply_to_top_message_id message.reply_to_message_id
          (nothing p.items e) refl refl)
      where
        nothing :
            (items : List ReplyChainItem) → is_empty items ≡ true → IsInTopic message.topic_id items
        nothing [] h = tt
        nothing (x ∷ rest) h = cc
    in_topic-keeps false true e s =
        rw (e, s)
          (extended-keeps p.target_topic_id p.target_top_message_id message.reply_to_message_id
            w.in_topic (ground (arith, opt_eq_iff message.topic_id p.target_topic_id)) refl)
    in_topic-keeps false false e s = rw (e, s) (stopped-keeps cross_topic_parent)

  pub received-keeps :
      (answer : Option ReplyMessage) (chat_id : TelegramId)
      → ((message : ReplyMessage) → answer ≡ some message → message.telegram_message_id ≡ current)
      → TurnKeeps target p.items (
          received chat_id current answer
            (record p { visited_message_ids = current ∷ p.visited_message_ids }))
  received-keeps none chat_id law = stopped-keeps missing_parent
  received-keeps (some message) chat_id law =
      elim (Bool-cases (message.telegram_chat_id == chat_id)) [
        | inl e ↦ rw e (
            in_topic-keeps message (law message refl) (is_empty p.items)
              (opt_eq message.topic_id p.target_topic_id) refl refl)
        | inr e ↦ rw e (stopped-keeps cross_chat_parent)
      ]
