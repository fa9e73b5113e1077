-- ===== src/Listener/ReplyChain/Walk.antt =====
-- What the loop gathers.
use telegram_lead_assistent.Prelude.{
  ℕ, zero, suc, ◌==◌, ◌+◌, ◌≤◌, ◌<◌, ◌≡◌, refl, sym, subst, true, Option, some, List, [], ◌∷◌, map,
  arith, ◌⊎◌, inl, inr, Bool-cases, any_where, length, is_some,
}
use telegram_lead_assistent.Database.Models.{TelegramId}
use telegram_lead_assistent.Listener.ReplyChain.{
  ReplyChainItem, ReplyMessageSource, Progress, Turn, break, continue, turn, exhausted, walk,
  ReplyChainStopReason, cycle, max_depth_reached, start,
}
use telegram_lead_assistent.Listener.ReplyChain.Turns.{
  EndsIn, IsNext, IsWalk, IsWalked, FetchesById, TurnKeeps, received-keeps,
}

seen_item :
    (current : TelegramId) (visited : List TelegramId) (items : List ReplyChainItem)
    → visited ≡ map (λ i. i.telegram_message_id) items
    → any_where (λ id. id == current) visited ≡ true
    → ¬ (items ≡ [])
unfolding any_where
seen_item current visited [] e seen = λ h. absurd (ground arith)
seen_item current visited (x ∷ rest) e seen = λ h. cc

keeps_next :
    {target : TelegramId} (before : List ReplyChainItem) (parent : TelegramId) (p : Progress)
    → TurnKeeps target before (continue parent p)
    → IsWalk target parent p × (length p.items ≡ length before + 1)
unfolding TurnKeeps
keeps_next before parent p keeps = keeps

Turn-cases :
    (t : Turn)
    → ((p : Progress) × (t ≡ break p))
      ⊎ ((parent : TelegramId) × (p : Progress) × (t ≡ continue parent p))
Turn-cases (break p) = inl (p, refl)
Turn-cases (continue parent p) = inr (parent, p, refl)

weaken :
    {target : TelegramId} (few many : ℕ) (p : Progress)
    → few ≤ many
    → IsWalked target few p
    → IsWalked target many p
weaken few many p le w = record {
  linked = w.linked;
  distinct = w.distinct;
  in_topic = w.in_topic;
  complete = w.complete;
  unmarked = w.unmarked;
  ends = w.ends;
  bounded = ground (arith, w.bounded);
}

module _ (source : ReplyMessageSource) (law : FetchesById source)
    (chat_id target : TelegramId) where
  left_early :
      (current : TelegramId) (p : Progress) (reason : Option ReplyChainStopReason)
      (items : List ReplyChainItem) (depth : ℕ)
      → p.items ≡ items
      → IsWalk target current p
      → ¬ (items ≡ [])
      → length items ≤ depth
      → IsWalked target depth (record p { stop_reason = reason })
  left_early current p reason [] depth e w some_item fits = absurd (some_item refl)
  left_early current p reason (x ∷ rest) depth e w some_item fits = record {
    linked = w.linked;
    distinct = w.distinct;
    in_topic = w.in_topic;
    complete = w.complete;
    unmarked = w.unmarked;
    ends = subst (EndsIn target) (sym e) ((subst (IsNext target current) e w.next).1);
    bounded = subst (λ items. length items ≤ depth) (sym e) fits;
  }

  exhausted-IsWalked :
      (current : TelegramId) (items : List ReplyChainItem) (visited : List TelegramId)
      (topic top : Option TelegramId) (reason : Option ReplyChainStopReason)
      → let p : Progress = record {
        items = items;
        visited_message_ids = visited;
        target_topic_id = topic;
        target_top_message_id = top;
        stop_reason = reason;
      } in
        IsWalk target current p
        → 0 < length items + 0
        → IsWalked target (length items + 0) (exhausted p)
  exhausted-IsWalked current [] visited topic top reason w some_item = absurd (omega arith)
  exhausted-IsWalked current (x ∷ rest) visited topic top reason w some_item =
      let p : Progress = record {
        items = x ∷ rest;
        visited_message_ids = visited;
        target_topic_id = topic;
        target_top_message_id = top;
        stop_reason = reason;
      } in
      elim (Bool-cases (is_some x.reply_to_message_id)) [
        | inl h ↦ rw h (
            left_early current p (some max_depth_reached) (x ∷ rest) (length p.items + 0) refl w
              (λ n. cc) (omega arith))
        | inr h ↦ rw h (
            left_early current p reason (x ∷ rest) (length p.items + 0) refl w (λ n. cc)
              (omega arith))
      ]

  turn-keeps :
      (current : TelegramId) (p : Progress)
      → IsWalk target current p
      → TurnKeeps target p.items (turn source chat_id current p)
  unfolding turn
  turn-keeps current p w =
      elim (Bool-cases (any_where (λ id. id == current) p.visited_message_ids)) [
        | inl seen ↦ rw seen (
            unfold TurnKeeps in
            left_early current p (some cycle) p.items (length p.items + 1) refl w
              (seen_item current p.visited_message_ids p.items w.visited seen) (omega arith))
        | inr new ↦ rw new (
            received-keeps target current p w new (source.get_reply_message chat_id current) chat_id
              (law chat_id current))
      ]

  walk-IsWalked :
      (n : ℕ) (current : TelegramId) (p : Progress)
      → IsWalk target current p
      → 0 < length p.items + n
      → IsWalked target (length p.items + n) (walk source chat_id n current p)
  unfolding walk
  walk-IsWalked zero current p w some_item =
      exhausted-IsWalked current p.items p.visited_message_ids p.target_topic_id
        p.target_top_message_id p.stop_reason w some_item
  walk-IsWalked (suc n) current p w some_item = elim (Turn-cases (turn source chat_id current p)) [
    | inl (p', e) ↦
        rw (e, walk)
          (weaken (length p.items + 1) (length p.items + suc n) p' (omega arith)
            (unfold TurnKeeps in subst (TurnKeeps target p.items) e (turn-keeps current p w)))
    | inr (parent, p', e) ↦
        let keeps : TurnKeeps target p.items (continue parent p') =
          subst (TurnKeeps target p.items) e (turn-keeps current p w) in
        let (w', grown) = keeps_next p.items parent p' keeps in
        rw (e, walk)
          (weaken (length p'.items + n) (length p.items + suc n) (walk source chat_id n parent p')
            (ground arith) (walk-IsWalked n parent p' w' (ground arith)))
  ]

  start-IsWalk : IsWalk target target start
  start-IsWalk = record {
    linked = tt;
    distinct = tt;
    in_topic = tt;
    complete = tt;
    unmarked = tt;
    next = refl;
    visited = refl;
  }

  -- What the loop gathers from the start.
  pub walk-start :
      (depth : ℕ) → 0 < depth → IsWalked target depth (walk source chat_id depth target start)
  walk-start depth positive =
      weaken (0 + depth) depth _ (omega arith)
        (walk-IsWalked depth target start start-IsWalk (omega arith))
