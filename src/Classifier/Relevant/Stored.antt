-- ===== src/Classifier/Relevant/Stored.antt =====
-- What the persistence makes of a chain that the listener loaded.
use telegram_lead_assistent.Prelude.{
  ℕ, suc, ◌≡◌, refl, ap, ◌∙◌, Bool, true, not, ◌&&◌, ==_refl, none, some, List, [], ◌∷◌, map, ok,
  arith, inl, inr, Option-cases, Bool-cases, find_where, select_where, any_where, is_some,
}
use telegram_lead_assistent.Database.Models.{TelegramId, Timestamp, ProcessingJob, Database}
use telegram_lead_assistent.Database.Records.{ClassificationRun, QuestionChainMessage}
use telegram_lead_assistent.Listener.ReplyChain.{ReplyChain, ReplyChainItem}
use telegram_lead_assistent.Listener.ReplyChain.Turns.{EndsIn, IsComplete}
use telegram_lead_assistent.Listener.ReplyChain.Chain.{IsMarked, IsChain}
use telegram_lead_assistent.Translation.Client.{TranslationResult}
use telegram_lead_assistent.Classifier.Relevant.{
  PersistenceService, NewIds, identifies, available, translate, translate_items,
  translation_of_target, chain_message, chain_messages, question_of, question_row, relevant_run,
  awaits_processing, with_question, store_question, persist,
}

-- Every item has the text and the time of its message.
abbrev IsReadable : List ReplyChainItem → Type 0
IsReadable [] = Unit
IsReadable (x ∷ rest) =
    (is_some x.text ≡ true) × (is_some x.telegram_created_at ≡ true) × IsReadable rest

abbrev pub numbered : ℕ → List ReplyChainItem → List (ℕ × TelegramId)
numbered n [] = []
numbered n (x ∷ rest) = (n, x.telegram_message_id) ∷ numbered (suc n) rest

-- The target of the chain is one of the messages that could be read.
abbrev pub is_readable_target : ReplyChainItem → Bool
is_readable_target item = item.is_target && not item.is_unavailable

available-IsReadable :
    (items : List ReplyChainItem) → IsComplete items → IsReadable (available items)
unfolding select_where
available-IsReadable [] c = tt
available-IsReadable (x ∷ rest) c = elim (Bool-cases x.is_unavailable) [
  | inl e ↦ rw e (available-IsReadable rest c.1)
  | inr e ↦ rw e (ground (arith), ground (arith), available-IsReadable rest c.1)
]

identifies-IsMarked :
    (id : TelegramId) (items : List ReplyChainItem)
    → IsMarked items
    → EndsIn id items
    → identifies id (select_where (λ item. item.is_target) items) ≡ true
unfolding select_where
identifies-IsMarked id [] m e = absurd m
identifies-IsMarked id (x ∷ []) m e = rw m (ground (arith))
identifies-IsMarked id (x ∷ (y ∷ rest)) m e = rw m.0 (identifies-IsMarked id (y ∷ rest) m.1 e)

target_available :
    (items : List ReplyChainItem)
    → any_where is_readable_target items ≡ true
    → any_where (λ item. item.is_target) (available items) ≡ true
unfolding any_where select_where
target_available [] t = t
target_available (x ∷ rest) t = ground (arith, target_available rest)

abbrev items_of : List (ReplyChainItem × TranslationResult) → List ReplyChainItem
items_of pairs = map (λ pair. pair.0) pairs

translate_items_lem :
    (service : PersistenceService) (items : List ReplyChainItem)
    → IsReadable items
    → (pairs : List (ReplyChainItem × TranslationResult)) × (translate_items service items
        ≡ ok pairs)
      × (items_of pairs ≡ items)
unfolding translate_items
translate_items_lem service [] r = ([], refl, refl)
translate_items_lem service (x ∷ rest) r = elim (Option-cases x.text) [
  | inl e ↦ absurd (ground arith)
  | inr (text, e) ↦
      let (pairs, done, same) = translate_items_lem service rest r.2 in
      ((x, translate service text) ∷ pairs, simp (e, done) refl, ap (λ xs. x ∷ xs) same)
]

target_translated :
    (pairs : List (ReplyChainItem × TranslationResult))
    → any_where (λ item. item.is_target) (items_of pairs) ≡ true
    → (result : TranslationResult) × (translation_of_target pairs ≡ ok result)
unfolding translation_of_target find_where any_where
target_translated [] t = absurd (ground arith)
target_translated (pair ∷ pairs) t = elim (Bool-cases pair.0.is_target) [
  | inl e ↦ (pair.1, rw e refl)
  | inr e ↦ let (result, r) = target_translated pairs (ground arith) in (result, rw e r)
]

chain_messages_lem :
    (ids : NewIds) (n : ℕ) (pairs : List (ReplyChainItem × TranslationResult))
    → IsReadable (items_of pairs)
    → (rows : List QuestionChainMessage) × (chain_messages ids n pairs ≡ ok rows)
      × (map (λ row. (row.position, row.telegram_message_id)) rows ≡ numbered n (items_of pairs))
unfolding chain_messages
chain_messages_lem ids n [] r = ([], refl, refl)
chain_messages_lem ids n ((x, result) ∷ pairs) r = elim (Option-cases x.text) [
  | inl e ↦ absurd (ground arith)
  | inr (text, e) ↦ elim (Option-cases x.telegram_created_at) [
    | inl f ↦ absurd (ground arith)
    | inr (at, f) ↦
        let (rows, done, same) = chain_messages_lem ids (suc n) pairs r.2 in
        (
          chain_message ids n x result at text ∷ rows,
          simp (e, f, done) refl,
          ap (λ xs. (n, x.telegram_message_id) ∷ xs) same,
        )
  ]
]

-- For a job that waits for the relevant processing, whose message has no question but a relevant
-- classification, and a chain of its chat that ends in its message, as the listener loads it, and
-- in which that message could be read, the persistence succeeds: it stores one question, the one of
-- the message with its latest relevant classification, one notification, the messages of the chain
-- that could be read, in their order and numbered from 0, and it removes the job.
pub persist_stores :
    (service : PersistenceService) (now : Timestamp) (ids : NewIds) (job : ProcessingJob)
    (chain : ReplyChain) (depth : ℕ) (classification : ClassificationRun) (db : Database)
    → awaits_processing job.status ≡ true
    → chain.chat_id ≡ job.telegram_chat_id
    → IsChain job.telegram_message_id depth chain
    → any_where is_readable_target chain.items ≡ true
    → question_row job db ≡ none
    → relevant_run job db ≡ some classification
    → (target : TranslationResult) × (rows : List QuestionChainMessage) × (persist service now ids
          job chain db
        ≡ ok (
          ids.question_id,
          with_question service now ids job
              (question_of now ids.question_id job chain classification target)
              rows
              db,
        ))
      × (map (λ row. (row.position, row.telegram_message_id)) rows
          ≡ numbered 0 (available chain.items))
unfolding persist store_question
persist_stores service now ids job chain depth classification db waits ours c readable new run =
    let readables = available-IsReadable chain.items c.complete in
    let (pairs, translated, same) = translate_items_lem service (available chain.items) readables in
    let (target, its) = target_translated pairs (rw same (target_available chain.items readable)) in
    let (rows, made, order) = chain_messages_lem ids 0 pairs (rw same readables) in
    let found = identifies-IsMarked job.telegram_message_id chain.items c.marked c.ends in
    (
      target,
      rows,
      rw (waits, ours, ==_refl job.telegram_chat_id, new, run, found, translated, its, made) refl,
      order ∙ ap (numbered 0) same,
    )
