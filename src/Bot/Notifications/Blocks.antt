-- ===== src/Bot/Notifications/Blocks.antt =====
-- The blocks of a notification fit.
use telegram_lead_assistent.Prelude.{
  ℕ, ◌+◌, ◌*◌, ◌≤◌, Bool, true, false, ltb, if◌then◌else◌, Option, none, some, List, [], ◌∷◌, ◌++◌,
  arith, length, inl, inr, Bool-cases,
}
use telegram_lead_assistent.Listener.Events.Characters.{codes, same_text}
use telegram_lead_assistent.Bot.Notifications.{
  telegram_message_limit, NumberFormat, NotificationChainItem, NotificationContent, escape,
  split_escaped_text, block_prefix, block_suffix, payload_limit, wrap_chunks, render_text_blocks,
  text_or, confidence_text, render_metadata, render_heading, translation_blocks, render_chain_item,
  insert_item, sort_items, render_items,
}
use telegram_lead_assistent.Bot.Notifications.Bounds.{
  length-append, AllFit, AllFit-append, length-escape, split_escaped_text-AllFit,
  wrap_chunks-AllFit, AllFit-weaken,
}

-- The blocks of a text fit, whatever the text is, under a label of at most 20 characters.
render_text_blocks-AllFit :
    (label text : List ℕ)
    → length label ≤ 20
    → AllFit telegram_message_limit (render_text_blocks label text)
unfolding render_text_blocks
render_text_blocks-AllFit label text short =
    AllFit-weaken (length (block_prefix label) + payload_limit label + length block_suffix)
      telegram_message_limit (wrap_chunks label (split_escaped_text text (payload_limit label)))
      (ground (arith, prefix))
      (wrap_chunks-AllFit label (payload_limit label)
        (split_escaped_text text (payload_limit label))
        (split_escaped_text-AllFit text (payload_limit label) (ground (arith, prefix))))
  where
    prefix : length (block_prefix label) ≤ 60
    prefix = ground (
      arith,
      length-append (codes "<b>") (label ++ codes ":</b>\n<blockquote>"),
      length-append label (codes ":</b>\n<blockquote>"),
    )

-- What the columns of the tables allow: 255 characters for a title and a name, 30 for a category, a
-- position of at most 9 and a confidence of five digits.
abbrev pub AtMost : ℕ → Option (List ℕ) → Type 0
AtMost limit none = Unit
AtMost limit (some text) = length text ≤ limit

abbrev pub IsWithin : ℕ → Option ℕ → Type 0
IsWithin limit none = Unit
IsWithin limit (some n) = n ≤ limit

abbrev pub FitsColumns : NotificationContent → Type 0
FitsColumns content =
    (length content.chat_title ≤ 255)
    × AtMost 255 content.topic_title
    × (length content.category ≤ 30)
    × IsWithin 99999 content.confidence

abbrev pub FitsItem : NotificationChainItem → Type 0
FitsItem item = AtMost 255 item.author_display_name × (item.position ≤ 9)

abbrev pub FitItems : List NotificationChainItem → Type 0
FitItems [] = Unit
FitItems (item ∷ items) = FitsItem item × FitItems items

-- A number of at most five digits, and such a confidence, is written in at most 20 characters.
abbrev pub WritesNumbers : NumberFormat → Type 0
WritesNumbers format =
    (n : ℕ) → n ≤ 99999 → (length (format.decimal n) ≤ 20) × (length (format.percent n) ≤ 20)

text_or-bounded :
    (default : List ℕ) (text : Option (List ℕ))
    → length default ≤ 255
    → AtMost 255 text
    → length (text_or default text) ≤ 255
text_or-bounded default none d a = d
text_or-bounded default (some []) d a = d
text_or-bounded default (some (c ∷ cs)) d a = a

confidence_text-bounded :
    (format : NumberFormat) (confidence : Option ℕ)
    → WritesNumbers format
    → IsWithin 99999 confidence
    → length (confidence_text format confidence) ≤ 20
confidence_text-bounded format none w within = omega arith
confidence_text-bounded format (some n) w within = (w n within).1

-- One more text in front.
longer :
    (front rest : List ℕ) (a b : ℕ)
    → length front ≤ a
    → length rest ≤ b
    → length (front ++ rest) ≤ a + b
longer front rest a b f r = ground (arith, length-append front rest)

escaped_longer :
    (text rest : List ℕ) (n b : ℕ)
    → length text ≤ n
    → length rest ≤ b
    → length (escape text ++ rest) ≤ 6 * n + b
escaped_longer text rest n b f r =
    longer (escape text) rest (6 * n) b (ground (arith, length-escape text)) r

pub render_metadata-bounded :
    (format : NumberFormat) (content : NotificationContent)
    → WritesNumbers format
    → FitsColumns content
    → length (render_metadata format content) ≤ telegram_message_limit
unfolding render_metadata
render_metadata-bounded format content w fits =
    let confidence = confidence_text format content.confidence in
    let r5 : List ℕ = codes "\n<b>Уверенность:</b> " ++ confidence in
    let e5 =
      longer (codes "\n<b>Уверенность:</b> ") confidence 30 20 (omega arith)
        (confidence_text-bounded format content.confidence w fits.3) in
    let r4 : List ℕ = escape content.category ++ r5 in
    let e4 = escaped_longer content.category r5 30 50 fits.2 e5 in
    let r3 : List ℕ = codes "\n<b>Категория:</b> " ++ r4 in
    let e3 = longer (codes "\n<b>Категория:</b> ") r4 30 230 (omega arith) e4 in
    let topic = text_or (codes "Без темы") content.topic_title in
    let r2 : List ℕ = escape topic ++ r3 in
    let e2 =
      escaped_longer topic r3 255 260
        (text_or-bounded (codes "Без темы") content.topic_title (omega arith) fits.1) e3 in
    let r1 : List ℕ = codes "\n<b>Тема:</b> " ++ r2 in
    let e1 = longer (codes "\n<b>Тема:</b> ") r2 30 1790 (omega arith) e2 in
    let r0 : List ℕ = escape content.chat_title ++ r1 in
    let e0 = escaped_longer content.chat_title r1 255 1820 fits.0 e1 in
    let bound : length (render_metadata format content) ≤ 50 + 3350 =
      longer (codes "<b>Новый вопрос</b>\n<b>Чат:</b> ") r0 50 3350 (omega arith) e0 in
    ground (arith, bound)

render_heading-bounded :
    (format : NumberFormat) (item : NotificationChainItem)
    → WritesNumbers format
    → FitsItem item
    → length (render_heading format item) ≤ telegram_message_limit
unfolding render_heading
render_heading-bounded format item w fits =
    let author = text_or (codes "Неизвестный автор") item.author_display_name in
    let marked = if item.is_target then codes " • целевое сообщение" else [] in
    let number = format.decimal (item.position + 1) in
    let escaped_fits : length (escape author) ≤ 1530 = ground (
      arith,
      length-escape author,
      text_or-bounded (codes "Неизвестный автор") item.author_display_name (omega arith) fits.0,
    ) in
    let r2 : List ℕ = codes "</b>\n<b>Автор:</b> " ++ escape author in
    let e2 =
      longer (codes "</b>\n<b>Автор:</b> ") (escape author) 60 1530 (omega arith) escaped_fits in
    let r1 : List ℕ = marked ++ r2 in
    let e1 = longer marked r2 40 1590 (marker item.is_target) e2 in
    let r0 : List ℕ = number ++ r1 in
    let e0 = longer number r1 20 1630 (w (item.position + 1) (ground (arith, fits.1))).0 e1 in
    let bound : length (render_heading format item) ≤ 30 + 1650 =
      longer (codes "<b>Сообщение ") r0 30 1650 (omega arith) e0 in
    ground (arith, bound)
  where
    marker : (b : Bool) → length (if b then codes " • целевое сообщение" else []) ≤ 40
    marker true = omega arith
    marker false = omega arith

translation_blocks-AllFit :
    (original : List ℕ) (translated : Option (List ℕ))
    → AllFit telegram_message_limit (translation_blocks original translated)
translation_blocks-AllFit original none = (omega arith, tt)
translation_blocks-AllFit original (some text) = elim (Bool-cases (same_text text original)) [
  | inl e ↦ rw e (omega arith, tt)
  | inr e ↦ rw e (render_text_blocks-AllFit (codes "Перевод") text (omega arith))
]

pub render_items-AllFit :
    (format : NumberFormat) (items : List NotificationChainItem)
    → WritesNumbers format
    → FitItems items
    → AllFit telegram_message_limit (render_items format items)
unfolding render_items render_chain_item
render_items-AllFit format [] w n = tt
render_items-AllFit format (item ∷ items) w n = (
  render_heading-bounded format item w n.0,
  AllFit-append telegram_message_limit
      (render_text_blocks (codes "Оригинал") item.original_text
        ++ translation_blocks item.original_text item.translated_text)
      (render_items format items)
      (AllFit-append telegram_message_limit
        (render_text_blocks (codes "Оригинал") item.original_text)
        (translation_blocks item.original_text item.translated_text)
        (render_text_blocks-AllFit (codes "Оригинал") item.original_text (omega arith))
        (translation_blocks-AllFit item.original_text item.translated_text))
      (render_items-AllFit format items w n.1),
)

insert_item-FitItems :
    (item : NotificationChainItem) (items : List NotificationChainItem)
    → FitsItem item
    → FitItems items
    → FitItems (insert_item item items)
unfolding insert_item
insert_item-FitItems item [] a n = (a, tt)
insert_item-FitItems item (next ∷ items) a n = elim (Bool-cases (ltb next.position item.position)) [
  | inl e ↦ rw e (n.0, insert_item-FitItems item items a n.1)
  | inr e ↦ rw e (a, n)
]

pub sort_items-FitItems :
    (items : List NotificationChainItem) → FitItems items → FitItems (sort_items items)
unfolding sort_items
sort_items-FitItems [] n = tt
sort_items-FitItems (item ∷ items) n =
    insert_item-FitItems item (sort_items items) n.0 (sort_items-FitItems items n.1)
