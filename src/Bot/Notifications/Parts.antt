-- ===== src/Bot/Notifications/Parts.antt =====
-- The messages of a notification fit.
use telegram_lead_assistent.Prelude.{
  ℕ, ◌+◌, ◌≤◌, ◌≡◌, refl, false, ltb, none, some, List, [], ◌∷◌, ◌++◌, arith, length, inl, inr,
  Bool-cases,
}
use telegram_lead_assistent.Listener.Events.Characters.{codes}
use telegram_lead_assistent.Bot.Notifications.{
  telegram_message_limit, NumberFormat, NotificationContent, NotificationPart, is_empty_text,
  render_metadata, pack_from, pack_blocks, sort_items, render_items, blocks_of, with_controls,
  render_notification,
}
use telegram_lead_assistent.Bot.Notifications.Bounds.{AllFit, pack_from-AllFit}
use telegram_lead_assistent.Bot.Notifications.Blocks.{
  FitsColumns, FitItems, WritesNumbers, render_metadata-bounded, render_items-AllFit,
  sort_items-FitItems,
}

module _ {Controls : Type 0} (controls : Controls) where
  -- Every part is within the limit of a message, and exactly the last one has the controls.
  abbrev pub AreParts : List (NotificationPart Controls) → Type 0
  AreParts [] = ⊥
  AreParts (part ∷ []) =
      (length part.text ≤ telegram_message_limit) × (part.reply_markup ≡ some controls)
  AreParts (part ∷ (next ∷ rest)) =
      (length part.text ≤ telegram_message_limit)
      × (part.reply_markup ≡ none)
      × AreParts (next ∷ rest)

  with_controls-AreParts :
      (text : List ℕ) (texts : List (List ℕ))
      → AllFit telegram_message_limit (text ∷ texts)
      → AreParts (with_controls controls (text ∷ texts))
  unfolding with_controls
  with_controls-AreParts text [] a = (a.0, refl)
  with_controls-AreParts text (next ∷ []) a = (a.0, refl, with_controls-AreParts next [] a.1)
  with_controls-AreParts text (next ∷ (third ∷ rest)) a =
      (a.0, refl, with_controls-AreParts next (third ∷ rest) a.1)

  packed-AreParts :
      (texts : List (List ℕ))
      → ¬ (texts ≡ [])
      → AllFit telegram_message_limit texts
      → AreParts (with_controls controls texts)
  packed-AreParts [] n a = absurd (n refl)
  packed-AreParts (text ∷ texts) n a = with_controls-AreParts text texts a

  pack_from-some :
      (c : ℕ) (cs : List ℕ) (blocks : List (List ℕ)) → ¬ (pack_from (c ∷ cs) blocks ≡ [])
  unfolding pack_from
  pack_from-some c cs [] = λ h. cc
  pack_from-some c cs (block ∷ blocks) =
      elim (Bool-cases
        (ltb telegram_message_limit (length (c ∷ cs) + length (codes "\n\n") + length block))) [
          | inl e ↦ rw e (λ h. cc)
          | inr e ↦ rw e (pack_from-some c (cs ++ (codes "\n\n" ++ block)) blocks)
        ]

  pack_from_first :
      (block : List ℕ) (blocks : List (List ℕ))
      → is_empty_text block ≡ false
      → ¬ (pack_from [] (block ∷ blocks) ≡ [])
  unfolding pack_from
  pack_from_first [] blocks e = cc
  pack_from_first (c ∷ cs) blocks e = pack_from-some c cs blocks

  -- Where the titles, the names, the category, the confidence and the positions are within their
  -- columns, and a number of at most five digits is written in at most 20 characters, a notification
  -- is rendered as at least one message, whatever the texts of its chain are; every message has at
  -- most 4096 characters, and the last one, and no other, carries the controls.
  pub render_notification-AreParts :
      (format : NumberFormat) (content : NotificationContent)
      → WritesNumbers format
      → FitsColumns content
      → FitItems content.chain
      → AreParts (render_notification controls format content)
  unfolding render_notification pack_blocks blocks_of
  render_notification-AreParts format content w fits named =
      packed-AreParts (pack_from [] (blocks_of format content)) starts (
        pack_from-AllFit [] (blocks_of format content) (omega arith) (
          render_metadata-bounded format content w fits,
          render_items-AllFit format (sort_items content.chain) w
              (sort_items-FitItems content.chain named),
        ))
    where
      starts : ¬ (pack_from [] (blocks_of format content) ≡ [])
      starts =
          pack_from_first (render_metadata format content)
            (render_items format (sort_items content.chain)) refl
