-- ===== src/Listener/ReplyChain/Chain.antt =====
-- The chain that the loader returns.
use telegram_lead_assistent.Prelude.{
  ℕ, suc, ◌==◌, ◌≤◌, ◌<◌, ◌≡◌, refl, ap, ◌∙◌, true, false, Option, List, [], ◌∷◌, arith, any_where,
  length, ok, ◌||◌,
}
use telegram_lead_assistent.Database.Models.{TelegramId}
use telegram_lead_assistent.Listener.ReplyChain.{
  ReplyChainItem, ReplyMessageSource, ReplyChain, Progress, mark_target, start, walk, chain_of,
  get_reply_chain,
}
use telegram_lead_assistent.Listener.ReplyChain.Walk.{walk-start}
use telegram_lead_assistent.Listener.ReplyChain.Turns.{
  IsLinked, IsDistinct, EndsIn, IsInTopic, IsComplete, IsUnmarked, IsWalked, FetchesById,
}

-- The last item is marked as the target, and no other.
abbrev pub IsMarked : List ReplyChainItem → Type 0
IsMarked [] = ⊥
IsMarked (x ∷ []) = x.is_target ≡ true
IsMarked (x ∷ (y ∷ rest)) = (x.is_target ≡ false) × IsMarked (y ∷ rest)

-- What the classifier relies on: at least one and at most `depth` messages, each the parent of the
-- next, without repetition, all of the topic and with their texts but for the markers, and the last one the target.
pub record IsChain (message_id : TelegramId) (depth : ℕ) (chain : ReplyChain) : Type 0 where
  pub linked : IsLinked chain.items
  pub distinct : IsDistinct chain.items
  pub in_topic : IsInTopic chain.topic_id chain.items
  pub complete : IsComplete chain.items
  pub marked : IsMarked chain.items
  pub ends : EndsIn message_id chain.items
  pub bounded : length chain.items ≤ depth

mark_target-IsLinked : (items : List ReplyChainItem) → IsLinked items → IsLinked (mark_target items)
unfolding mark_target
mark_target-IsLinked [] l = tt
mark_target-IsLinked (x ∷ []) l = tt
mark_target-IsLinked (x ∷ (y ∷ [])) l = l
mark_target-IsLinked (x ∷ (y ∷ (z ∷ rest))) l = (l.0, mark_target-IsLinked (y ∷ (z ∷ rest)) l.1)

any_where-mark_target :
    (id : TelegramId) (items : List ReplyChainItem)
    → any_where (λ y. y.telegram_message_id == id) (mark_target items)
      ≡ any_where (λ y. y.telegram_message_id == id) items
unfolding mark_target any_where
any_where-mark_target id [] = refl
any_where-mark_target id (x ∷ []) = refl
any_where-mark_target id (x ∷ (y ∷ rest)) =
    ap (λ b. x.telegram_message_id == id || b) (any_where-mark_target id (y ∷ rest))

mark_target-IsDistinct :
    (items : List ReplyChainItem) → IsDistinct items → IsDistinct (mark_target items)
unfolding mark_target
mark_target-IsDistinct [] d = tt
mark_target-IsDistinct (x ∷ []) d = d
mark_target-IsDistinct (x ∷ (y ∷ rest)) d = (
  any_where-mark_target x.telegram_message_id (y ∷ rest) ∙ d.0,
  mark_target-IsDistinct (y ∷ rest) d.1,
)

mark_target-IsInTopic :
    (topic : Option TelegramId) (items : List ReplyChainItem)
    → IsInTopic topic items
    → IsInTopic topic (mark_target items)
unfolding mark_target
mark_target-IsInTopic topic [] t = tt
mark_target-IsInTopic topic (x ∷ []) t = t
mark_target-IsInTopic topic (x ∷ (y ∷ rest)) t = (t.0, mark_target-IsInTopic topic (y ∷ rest) t.1)

mark_target-IsComplete :
    (items : List ReplyChainItem) → IsComplete items → IsComplete (mark_target items)
unfolding mark_target
mark_target-IsComplete [] c = tt
mark_target-IsComplete (x ∷ []) c = c
mark_target-IsComplete (x ∷ (y ∷ rest)) c = (c.0, mark_target-IsComplete (y ∷ rest) c.1)

mark_target-EndsIn :
    (id : TelegramId) (items : List ReplyChainItem)
    → EndsIn id items
    → EndsIn id (mark_target items)
unfolding mark_target
mark_target-EndsIn id [] e = e
mark_target-EndsIn id (x ∷ []) e = e
mark_target-EndsIn id (x ∷ (y ∷ [])) e = e
mark_target-EndsIn id (x ∷ (y ∷ (z ∷ rest))) e = mark_target-EndsIn id (y ∷ (z ∷ rest)) e

mark_target-IsMarked :
    (id : TelegramId) (items : List ReplyChainItem)
    → EndsIn id items
    → IsUnmarked items
    → IsMarked (mark_target items)
unfolding mark_target
mark_target-IsMarked id [] e u = absurd e
mark_target-IsMarked id (x ∷ []) e u = refl
mark_target-IsMarked id (x ∷ (y ∷ [])) e u = (u.0, refl)
mark_target-IsMarked id (x ∷ (y ∷ (z ∷ rest))) e u =
    (u.0, mark_target-IsMarked id (y ∷ (z ∷ rest)) e u.1)

length-mark_target : (items : List ReplyChainItem) → length (mark_target items) ≡ length items
unfolding mark_target
length-mark_target [] = refl
length-mark_target (x ∷ []) = refl
length-mark_target (x ∷ (y ∷ rest)) = ap (λ n. suc n) (length-mark_target (y ∷ rest))

walked-IsChain :
    (source : ReplyMessageSource) (chat_id message_id : TelegramId) (depth : ℕ) (p : Progress)
    → IsWalked message_id depth p
    → IsChain message_id depth (chain_of source chat_id p)
walked-IsChain source chat_id message_id depth p w = record {
  linked = mark_target-IsLinked p.items w.linked;
  distinct = mark_target-IsDistinct p.items w.distinct;
  in_topic = mark_target-IsInTopic p.target_topic_id p.items w.in_topic;
  complete = mark_target-IsComplete p.items w.complete;
  marked = mark_target-IsMarked message_id p.items w.ends w.unmarked;
  ends = mark_target-EndsIn message_id p.items w.ends;
  bounded = rw (length-mark_target p.items) w.bounded;
}

-- If Telegram answers with the message that is asked for, then for a depth of 1 to 10 the loader
-- returns a chain, however the messages answer one another: it has at most that many items,
-- ordered from the oldest, each the parent of the next, no message twice, each of the topic of the
-- chain or marked as unavailable, each with its text and its time or marked as unavailable, and the
-- last one, alone marked as the target, is the message that was asked for.
pub get_reply_chain-IsChain :
    (source : ReplyMessageSource)
    → FetchesById source
    → (chat_id message_id : TelegramId) (depth : ℕ) → 0 < depth
    → depth ≤ 10
    → (chain : ReplyChain) × (get_reply_chain source chat_id message_id depth ≡ ok chain)
      × IsChain message_id depth chain
unfolding get_reply_chain
get_reply_chain-IsChain source law chat_id message_id depth low high = (
  chain_of source chat_id (walk source chat_id depth message_id start),
  ground arith,
  walked-IsChain source chat_id message_id depth (walk source chat_id depth message_id start)
      (walk-start source law chat_id message_id depth low),
)
