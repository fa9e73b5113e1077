-- ===== src/Bot/Notifications.antt =====
-- app/bot/notifications.py: the messages of a notification. A text is the list of its code points; how
-- Python writes an integer and a confidence (`:.0%`) is a parameter, `NumberFormat`, and so is the type
-- of the keyboards. The fields of the content that only the keyboard reads are left out with it, and
-- so is the parse mode, which is always HTML.
pub mod Bounds
pub mod Blocks
pub mod Parts
use telegram_lead_assistent.Prelude.{
  ℕ, ◌+◌, ◌-◌, ◌==◌, ltb, if◌then◌else◌, Bool, true, false, not, ◌&&◌, Option, none, some, List, [],
  ◌∷◌, ◌++◌, String, length,
}
use telegram_lead_assistent.Listener.Events.Characters.{codes, same_text}

abbrev pub telegram_message_limit : ℕ
telegram_message_limit = 4096

pub record NumberFormat : Type 0 where
  pub decimal : ℕ → List ℕ
  pub percent : ℕ → List ℕ

pub record NotificationChainItem : Type 0 where
  pub position : ℕ
  pub author_display_name : Option (List ℕ)
  pub original_text : List ℕ
  pub translated_text : Option (List ℕ)
  pub is_target : Bool

pub record NotificationContent : Type 0 where
  pub chat_title : List ℕ
  pub topic_title : Option (List ℕ)
  pub category : List ℕ
  pub confidence : Option ℕ
  pub chain : List NotificationChainItem

pub record NotificationPart (Controls : Type 0) : Type 0 where
  pub text : List ℕ
  pub reply_markup : Option Controls

-- `html.escape` of a character.
unfoldable pub escape_character : ℕ → List ℕ
escape_character c =
    if c == 38
    then codes "&amp;"
    else if c == 60
    then codes "&lt;"
    else if c == 62
    then codes "&gt;"
    else if c == 34
    then codes "&quot;"
    else if c == 39
    then codes "&#x27;"
    else c ∷ []

unfoldable pub escape : List ℕ → List ℕ
unfolding escape_character
escape [] = []
escape (c ∷ cs) = escape_character c ++ escape cs

abbrev pub is_empty_text : List ℕ → Bool
is_empty_text [] = true
is_empty_text (c ∷ cs) = false

-- The loop of `_split_escaped_text` on the rest of the text, with the chunk that is being filled; the
-- chunks, oldest first.
unfoldable pub split_from : ℕ → List ℕ → List ℕ → List (List ℕ)
unfolding escape_character
split_from limit current [] = if is_empty_text current then [] else current ∷ []
split_from limit current (c ∷ cs) =
    let escaped = escape_character c in
    let full = not (is_empty_text current) && ltb limit (length current + length escaped) in
    let rest = split_from limit (if full then escaped else current ++ escaped) cs in
    if full then current ∷ rest else rest

unfoldable pub split_escaped_text : List ℕ → ℕ → List (List ℕ)
unfolding split_from
split_escaped_text [] limit = [] ∷ []
split_escaped_text (c ∷ cs) limit = split_from limit [] (c ∷ cs)

abbrev pub block_prefix : List ℕ → List ℕ
block_prefix label = codes "<b>" ++ (label ++ codes ":</b>\n<blockquote>")

abbrev pub block_suffix : List ℕ
block_suffix = codes "</blockquote>"

abbrev pub payload_limit : List ℕ → ℕ
payload_limit label = telegram_message_limit - length (block_prefix label) - length block_suffix

unfoldable pub wrap_chunks : List ℕ → List (List ℕ) → List (List ℕ)
wrap_chunks label [] = []
wrap_chunks label (chunk ∷ chunks) =
    (block_prefix label ++ (chunk ++ block_suffix)) ∷ wrap_chunks label chunks

unfoldable pub render_text_blocks : List ℕ → List ℕ → List (List ℕ)
unfolding split_escaped_text wrap_chunks
render_text_blocks label text = wrap_chunks label (split_escaped_text text (payload_limit label))

-- `value or default`
abbrev pub text_or : List ℕ → Option (List ℕ) → List ℕ
text_or default none = default
text_or default (some []) = default
text_or default (some (c ∷ cs)) = c ∷ cs

abbrev pub confidence_text : NumberFormat → Option ℕ → List ℕ
confidence_text format none = codes "—"
confidence_text format (some confidence) = format.percent confidence

unfoldable pub render_metadata : NumberFormat → NotificationContent → List ℕ
unfolding escape
render_metadata format content =
    codes "<b>Новый вопрос</b>\n<b>Чат:</b> "
    ++ (escape content.chat_title
        ++ (codes "\n<b>Тема:</b> "
            ++ (escape (text_or (codes "Без темы") content.topic_title)
                ++ (codes "\n<b>Категория:</b> "
                    ++ (escape content.category
                        ++ (codes "\n<b>Уверенность:</b> "
                            ++ confidence_text format content.confidence))))))

unfoldable pub render_heading : NumberFormat → NotificationChainItem → List ℕ
unfolding escape
render_heading format item =
    codes "<b>Сообщение "
    ++ (format.decimal (item.position + 1)
        ++ ((if item.is_target then codes " • целевое сообщение" else [])
            ++ (codes "</b>\n<b>Автор:</b> "
                ++ escape (text_or (codes "Неизвестный автор") item.author_display_name))))

abbrev pub no_translation : List ℕ
no_translation = codes "<b>Перевод:</b> недоступен"

abbrev pub translation_blocks : List ℕ → Option (List ℕ) → List (List ℕ)
translation_blocks original none = no_translation ∷ []
translation_blocks original (some translated) =
    if same_text translated original
    then no_translation ∷ []
    else render_text_blocks (codes "Перевод") translated

unfoldable pub render_chain_item : NumberFormat → NotificationChainItem → List (List ℕ)
unfolding render_heading render_text_blocks
render_chain_item format item =
    render_heading format item
    ∷ (render_text_blocks (codes "Оригинал") item.original_text
        ++ translation_blocks item.original_text item.translated_text)

-- The loop of `_pack_blocks`, with the message that is being filled.
unfoldable pub pack_from : List ℕ → List (List ℕ) → List (List ℕ)
pack_from current [] = if is_empty_text current then [] else current ∷ []
pack_from current (block ∷ blocks) =
    let separator = if is_empty_text current then [] else codes "\n\n" in
    let full =
      not (is_empty_text current)
      && ltb telegram_message_limit (length current + length separator + length block) in
    let rest = pack_from (if full then block else current ++ (separator ++ block)) blocks in
    if full then current ∷ rest else rest

unfoldable pub pack_blocks : List (List ℕ) → List (List ℕ)
unfolding pack_from
pack_blocks blocks = pack_from [] blocks

-- `sorted(…, key=position)`, which is stable: an item goes before the later ones of the same position.
unfoldable pub insert_item :
    NotificationChainItem → List NotificationChainItem → List NotificationChainItem
insert_item item [] = item ∷ []
insert_item item (next ∷ items) =
    let rest = insert_item item items in
    if ltb next.position item.position then next ∷ rest else item ∷ (next ∷ items)

unfoldable pub sort_items : List NotificationChainItem → List NotificationChainItem
unfolding insert_item
sort_items [] = []
sort_items (item ∷ items) = insert_item item (sort_items items)

unfoldable pub render_items : NumberFormat → List NotificationChainItem → List (List ℕ)
unfolding render_chain_item
render_items format [] = []
render_items format (item ∷ items) = render_chain_item format item ++ render_items format items

-- The blocks of a notification.
unfoldable pub blocks_of : NumberFormat → NotificationContent → List (List ℕ)
unfolding render_metadata render_items sort_items
blocks_of format content =
    render_metadata format content ∷ render_items format (sort_items content.chain)

module _ {Controls : Type 0} (controls : Controls) where
  -- The controls stand under the last message.
  unfoldable pub with_controls : List (List ℕ) → List (NotificationPart Controls)
  with_controls [] = []
  with_controls (text ∷ []) = record { text = text; reply_markup = some controls } ∷ []
  with_controls (text ∷ next ∷ rest) =
      record { text = text; reply_markup = none } ∷ with_controls (next ∷ rest)

  unfoldable pub render_notification :
      NumberFormat → NotificationContent → List (NotificationPart Controls)
  unfolding pack_blocks blocks_of with_controls
  render_notification format content = with_controls (pack_blocks (blocks_of format content))
