-- ===== src/Tests/IngestionExamples.antt =====
-- The theorems of the ingestion on concrete events. The characters of the examples are ASCII.
use telegram_lead_assistent.Prelude.{
  ℕ, ◌+◌, ◌==◌, ◌≡◌, ◌⊎◌, refl, leb, Bool, true, false, ◌&&◌, ◌||◌, none, some, List, [], ◌∷◌,
  String, ok, arith, find_where, any_where, delete_where,
}
use telegram_lead_assistent.Database.Models.{Database}
use telegram_lead_assistent.Database.Queue.{new_row, enqueue}
use telegram_lead_assistent.Database.Fingerprints.{register_fingerprint, last_seen, touch}
use telegram_lead_assistent.Database.Chats.{get_active_id_by_telegram_chat_id}
use telegram_lead_assistent.Listener.ActiveChats.{contains}
use telegram_lead_assistent.Listener.Events.Incoming.{
  IncomingMessage, TelethonMessage, TelethonMessageEvent, extract_topic_id, message_of,
  map_telethon_event,
}
use telegram_lead_assistent.Listener.Events.Characters.{
  Unicode, codes, strip_left, strip_right, same_text, join_words,
}
use telegram_lead_assistent.Listener.Events.Fingerprint.{
  normalized_content, message_fingerprint, remove_urls, remove_mentions, starts_url,
}
use telegram_lead_assistent.Listener.Events.Prefilter.{
  prefilter_message, is_excluded, has_hiring_intent, has_stack_fit,
}
use telegram_lead_assistent.Listener.Events.Ingestion.{
  Ingestion, Instant, enqueued, duplicate_suppressed, job_of, persist, ingest,
}
use telegram_lead_assistent.Listener.Events.Ingestion.Admission.{
  Enqueues, ingest-Enqueues, repeated_text_suppressed,
}
use telegram_lead_assistent.Listener.Events.Stems.{search, compile_stem_terms}
use telegram_lead_assistent.Listener.Events.Stems.Words.{are_words, some_word_begins, search_words}
use telegram_lead_assistent.Tests.Fixtures.{chats_db}

abbrev is_letter_or_digit : ℕ → Bool
is_letter_or_digit c = (leb 97 c && leb c 122) || (leb 48 c && leb c 57)

-- Small letters and digits.
abbrev ascii : Unicode
ascii = record {
  is_word = is_letter_or_digit;
  is_space = λ c. c == 32;
  is_alnum = is_letter_or_digit;
  is_symbol_or_mark = λ c. false;
  casefold = λ cs. cs;
  same_letter = λ c d. c == d;
}

abbrev settings : Ingestion
settings = record { unicode = ascii; sha256 = λ cs. "digest"; dedup_window = 1000 }

abbrev at_time : ℕ → Instant
at_time n = record { now = n; clock = n; fresh = 100 + n; gone = λ id. false }

abbrev message_with : ℕ → String → TelethonMessage
message_with id text = record {
  id = id;
  display_name = some "Ann";
  sender_id = some 8;
  raw_text = some text;
  date = 5;
  out = false;
  action = none;
  has_sticker = false;
  reply_to = none;
}

abbrev event : TelethonMessageEvent
event = record { chat_id = some 70; message = message_with 1 "need a bot developer" }

ingest-Enqueues_example :
    (db' : Database) × (ingest settings (at_time 10) (70 ∷ []) event chats_db ≡ ok db')
    × ((db'.processing_jobs ≡ chats_db.processing_jobs)
        ⊎ ((message : IncomingMessage) × (map_telethon_event event (extract_topic_id event.message)
              ≡ ok message)
            × (contains message.telegram_chat_id (70 ∷ []) ≡ true)
            × ((prefilter_message ascii message).should_classify ≡ true)
            × Enqueues settings (at_time 10) message chats_db db'))
ingest-Enqueues_example = ingest-Enqueues settings (at_time 10) (70 ∷ []) event chats_db

abbrev first_message : IncomingMessage
first_message = message_of 70 none (message_with 1 "need a bot developer")

abbrev second_message : IncomingMessage
second_message = message_of 70 none (message_with 2 "need a  bot developer.")

-- The first message passes the filter, and a greeting does not.
passes_filter :
    ((prefilter_message ascii first_message).should_classify ≡ true)
    × ((prefilter_message ascii (message_of 70 none (message_with 3 "hello"))).should_classify
        ≡ false)
unfolding prefilter_message strip_right strip_left any_where same_text join_words is_excluded
    has_hiring_intent has_stack_fit
passes_filter = (refl, refl)

abbrev after_first : Database
after_first = record chats_db {
  processing_jobs = new_row 10 110 (job_of 1 "need a bot developer" first_message) ∷ [];
  recent_message_fingerprints =
      record { telegram_chat_id = 70; fingerprint = "digest"; last_seen_at = 10 } ∷ [];
}

repeated_text_suppressed_example :
    (db'' : Database) × (persist settings (at_time 500) second_message after_first
      ≡ ok (duplicate_suppressed, db''))
    × (db''.processing_jobs ≡ after_first.processing_jobs)
unfolding persist enqueue register_fingerprint last_seen touch find_where message_fingerprint
    get_active_id_by_telegram_chat_id normalized_content remove_urls remove_mentions starts_url
    delete_where join_words any_where
repeated_text_suppressed_example =
    repeated_text_suppressed settings (at_time 10) (at_time 500) first_message second_message
      "need a bot developer" "need a  bot developer." 1 chats_db after_first enqueued refl refl refl
      refl refl refl (omega arith)

abbrev bot_terms : List (List ℕ)
bot_terms = codes "bot" ∷ (codes "parser" ∷ [])

search_words_example :
    search ascii (compile_stem_terms ascii bot_terms) (codes "two bots")
    ≡ some_word_begins ascii bot_terms none (codes "two bots")
unfolding are_words
search_words_example =
    search_words ascii (codes "bot") (codes "parser" ∷ []) refl (codes "two bots")

-- A word that only contains the term is not found.
inside_a_word : search ascii (compile_stem_terms ascii bot_terms) (codes "robots") ≡ false
unfolding search compile_stem_terms
inside_a_word = refl
