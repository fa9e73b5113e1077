-- ===== src/Classifier/Stage2/Input.antt =====
-- The input of the second stage, from the chains that the listener loads.
use telegram_lead_assistent.Prelude.{
  ℕ, ◌≤◌, ◌<◌, ◌≡◌, refl, leb, true, some, List, [], ◌∷◌, String, ok, arith, length, Bool-cases,
  Option-cases, inl, inr,
}
use telegram_lead_assistent.Database.Models.{TelegramId}
use telegram_lead_assistent.Listener.ReplyChain.{
  ReplyChain, ReplyChainItem, ReplyMessageSource, get_reply_chain,
}
use telegram_lead_assistent.Listener.ReplyChain.Turns.{FetchesById, EndsIn, IsComplete, is_complete}
use telegram_lead_assistent.Listener.ReplyChain.Chain.{IsMarked, IsChain, get_reply_chain-IsChain}
use telegram_lead_assistent.Classifier.Stage2.{
  target_count, ends_in_target, shown_text, rendered, render, join, format_stage2_input,
}

target_count-IsMarked : (items : List ReplyChainItem) → IsMarked items → target_count items ≡ 1
unfolding target_count
target_count-IsMarked [] m = absurd m
target_count-IsMarked (x ∷ []) m = rw m refl
target_count-IsMarked (x ∷ (y ∷ rest)) m =
    rw m.0 (ground (arith, target_count-IsMarked (y ∷ rest) m.1))

ends_in_target-IsMarked :
    (items : List ReplyChainItem) → IsMarked items → ends_in_target items ≡ true
unfolding ends_in_target
ends_in_target-IsMarked [] m = absurd m
ends_in_target-IsMarked (x ∷ []) m = m
ends_in_target-IsMarked (x ∷ (y ∷ rest)) m = ends_in_target-IsMarked (y ∷ rest) m.1

shown_text-is_complete :
    (item : ReplyChainItem)
    → is_complete item ≡ true
    → (text : String) × (shown_text item ≡ some text)
unfolding shown_text
shown_text-is_complete item c = elim (Bool-cases item.is_unavailable) [
  | inl e ↦ ("[unavailable message]", rw e refl)
  | inr e ↦ elim (Option-cases item.text) [
    | inl n ↦ absurd (ground arith)
    | inr (text, t) ↦ (text, rw (e, t) refl)
  ]
]

render-IsComplete :
    (items : List ReplyChainItem)
    → IsComplete items
    → (texts : List String) × (render items ≡ ok texts) × (length texts ≡ length items)
unfolding render
render-IsComplete [] c = ([], refl, refl)
render-IsComplete (x ∷ rest) c =
    let (text, t) = shown_text-is_complete x c.0 in
    let (texts, e, l) = render-IsComplete rest c.1 in
    (rendered x text ∷ texts, rw (t, e, render) refl, rw l refl)

some_item :
    (id : TelegramId) (items : List ReplyChainItem) → EndsIn id items → leb 1 (length items) ≡ true
some_item id [] e = absurd e
some_item id (x ∷ rest) e = ground arith

pub format-IsChain :
    (id : TelegramId) (depth : ℕ) (chain : ReplyChain)
    → IsChain id depth chain
    → depth ≤ 10
    → (text : String) × (format_stage2_input chain ≡ ok text)
unfolding format_stage2_input
format-IsChain id depth chain c d =
    let (texts, e, l) = render-IsComplete chain.items c.complete in
    let few : leb (length chain.items) 10 ≡ true = ground (arith, c.bounded) in
    (
      join texts,
      rw
          (
            some_item id chain.items c.ends,
            few,
            target_count-IsMarked chain.items c.marked,
            ends_in_target-IsMarked chain.items c.marked,
            e,
          )
          refl,
    )

-- If Telegram answers with the message that is asked for, then for a depth of 1 to 10 the listener
-- loads a chain that the classifier accepts: formatting it for the second stage does not raise.
pub loaded_chain_formats :
    (source : ReplyMessageSource)
    → FetchesById source
    → (chat_id message_id : TelegramId) (depth : ℕ) → 0 < depth
    → depth ≤ 10
    → (chain : ReplyChain) × (text : String) × (get_reply_chain source chat_id message_id depth
        ≡ ok chain)
      × (format_stage2_input chain ≡ ok text)
loaded_chain_formats source law chat_id message_id depth low high =
    let (chain, e, c) = get_reply_chain-IsChain source law chat_id message_id depth low high in
    let (text, f) = format-IsChain message_id depth chain c high in (chain, text, e, f)
