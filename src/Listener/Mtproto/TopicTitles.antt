-- ===== src/Listener/Mtproto/TopicTitles.antt =====
-- app/listener/mtproto/client.py: `TopicTitleCache`, the bounded cache of forum topic titles.
use telegram_lead_assistent.Prelude.{
  ℕ, ◌<◌, ◌≤◌, ◌==◌, ◌≡◌, refl, ltb, if◌then◌else◌, Bool, true, false, ◌&&◌, Option, none, some,
  List, [], ◌∷◌, ◌++◌, String, Result, ok, err, arith, length, find_where, delete_where, any_where,
  ==_refl,
}
use telegram_lead_assistent.Domain.{Exception, value_error}
use telegram_lead_assistent.Database.Models.{TelegramId}

-- An item of the ordered dictionary, by its key and its value.
pub record TopicTitle : Type 0 where
  pub chat_id : TelegramId
  pub topic_id : TelegramId
  pub title : Option String

-- The items in their order, the least recently used first.
pub record TopicTitleCache : Type 0 where
  pub max_size : ℕ
  pub items : List TopicTitle

unfoldable pub new_cache : ℕ → Result Exception TopicTitleCache
new_cache max_size =
    if ltb max_size 1 then err value_error else ok (record { max_size = max_size; items = [] })

abbrev pub is_of : TelegramId → TelegramId → TopicTitle → Bool
is_of chat_id topic_id item = item.chat_id == chat_id && item.topic_id == topic_id

unfoldable pub get :
    TelegramId → TelegramId → TopicTitleCache → (Bool × Option String) × TopicTitleCache
get chat_id topic_id cache = elim (find_where (is_of chat_id topic_id) cache.items) [
  | none ↦ ((false, none), cache)
  | some item ↦ (
    (true, item.title),
    record cache { items = delete_where (is_of chat_id topic_id) cache.items ++ item ∷ [] },
  )
]

-- `while len(items) > max_size: items.popitem(last=False)`
unfoldable pub trim : ℕ → List TopicTitle → List TopicTitle
trim max_size [] = []
trim max_size (item ∷ rest) =
    let trimmed = trim max_size rest in
    if ltb max_size (length (item ∷ rest)) then trimmed else item ∷ rest

abbrev pub new_item : TelegramId → TelegramId → Option String → TopicTitle
new_item chat_id topic_id title = record { chat_id = chat_id; topic_id = topic_id; title = title }

unfoldable pub put : TelegramId → TelegramId → Option String → TopicTitleCache → TopicTitleCache
unfolding trim
put chat_id topic_id title cache = record cache {
  items =
      trim cache.max_size
        (delete_where (is_of chat_id topic_id) cache.items ++ new_item chat_id topic_id title ∷ []);
}

length-trim : (max_size : ℕ) (items : List TopicTitle) → length (trim max_size items) ≤ max_size
unfolding trim
length-trim max_size [] = omega arith
length-trim max_size (item ∷ rest) = ground (arith, length-trim max_size rest)

any_where-delete_where :
    (p : TopicTitle → Bool) (items : List TopicTitle) → any_where p (delete_where p items) ≡ false
unfolding any_where delete_where
any_where-delete_where p [] = refl
any_where-delete_where p (item ∷ rest) = ground (arith, any_where-delete_where p rest)

find-append_last :
    (p : TopicTitle → Bool) (items : List TopicTitle) (last : TopicTitle)
    → any_where p items ≡ false
    → p last ≡ true
    → find_where p (items ++ last ∷ []) ≡ some last
unfolding find_where any_where
find-append_last p [] last h t = ground arith
find-append_last p (item ∷ rest) last h t = ground (arith, find-append_last p rest last)

find-trim :
    (p : TopicTitle → Bool) (max_size : ℕ) (items : List TopicTitle) (last : TopicTitle)
    → 0 < max_size
    → any_where p items ≡ false
    → p last ≡ true
    → find_where p (trim max_size (items ++ last ∷ [])) ≡ some last
unfolding find_where any_where trim
find-trim p max_size [] last positive h t = ground arith
find-trim p max_size (item ∷ rest) last positive h t =
    ground (arith, find-trim p max_size rest last, find-append_last p rest last)

-- After a title (or its absence) was put into a cache of positive size, the cache holds at most its
-- size of items, and asking for the topic finds what was put.
pub get-put :
    (chat_id topic_id : TelegramId) (title : Option String) (cache : TopicTitleCache)
    → 0 < cache.max_size
    → (length (put chat_id topic_id title cache).items ≤ cache.max_size)
      × ((get chat_id topic_id (put chat_id topic_id title cache)).0 ≡ (true, title))
unfolding put get
get-put chat_id topic_id title cache positive =
    let others = delete_where (is_of chat_id topic_id) cache.items in
    let item = new_item chat_id topic_id title in
    let found =
      find-trim (is_of chat_id topic_id) cache.max_size others item positive
        (any_where-delete_where (is_of chat_id topic_id) cache.items)
        (ground (arith, ==_refl chat_id, ==_refl topic_id)) in
    (length-trim cache.max_size (others ++ item ∷ []), rw (found, get) refl)
