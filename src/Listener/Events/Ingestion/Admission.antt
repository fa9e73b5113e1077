-- ===== src/Listener/Events/Ingestion/Admission.antt =====
-- Which events add to the queue.
use telegram_lead_assistent.Prelude.{
  ◌+◌, ◌<◌, ◌≡◌, refl, sym, ap, ◌∙◌, true, false, not, ◌||◌, ◌&&◌, ◌==◌, leb, if◌then◌else◌, Option,
  none, some, String, str_eq, eq_iff, Result, ok, arith, ◌⊎◌, inl, inr, Bool-cases, is_none,
  ok-injective, subst, >>=-eq-ok, Bool, err,
}
use telegram_lead_assistent.Domain.{Exception}
use telegram_lead_assistent.Database.Models.{Uuid, TelegramId, Timestamp, Timedelta, Database}
use telegram_lead_assistent.Database.Queue.{enqueue}
use telegram_lead_assistent.Database.Queue.Enqueue.{enqueue_keeps}
use telegram_lead_assistent.Database.Fingerprints.{register_fingerprint, register_again, last_seen}
use telegram_lead_assistent.Database.Chats.{get_active_id_by_telegram_chat_id}
use telegram_lead_assistent.Listener.ActiveChats.{ActiveChatAllowList, contains}
use telegram_lead_assistent.Listener.Events.Incoming.{
  IncomingMessage, TelethonMessageEvent, extract_topic_id, message_of, map_message,
  map_telethon_event,
}
use telegram_lead_assistent.Listener.Events.Characters.{codes}
use telegram_lead_assistent.Listener.Events.Fingerprint.{normalized_content, message_fingerprint}
use telegram_lead_assistent.Listener.Events.Prefilter.{prefilter_message}
use telegram_lead_assistent.Listener.Events.Ingestion.{
  Ingestion, Instant, PersistOutcome, duplicate_suppressed, inactive_chat, job_of, register,
  admit_registered, admit, admit_active, persist_text, persist, or_unchanged, ingest_message,
  ingest_in, ingest,
}

module _ (s : Ingestion) (at : Instant) (message : IncomingMessage) (db : Database) where
  -- The transaction enqueued the message: its chat is active, and its text was not seen within the
  -- window.
  pub record Enqueues (db' : Database) : Type 0 where
    pub text : String
    pub chat : Uuid
    pub id : Uuid
    pub has_text : message.text ≡ some text
    pub is_active : get_active_id_by_telegram_chat_id message.telegram_chat_id db ≡ some chat
    pub is_new : (register s at text message db).0 ≡ true
    pub is_queued :
        enqueue at.now at.fresh at.gone (job_of chat text message) (register s at text message db).1
        ≡ ok (id, db')

  -- What a transaction that does not raise leaves: the rows of the chats, what the registration wrote,
  -- and the queue as it was or with the message.
  abbrev Leaves : String → Database → Type 0
  Leaves text db' =
      ((db'.processing_jobs ≡ db.processing_jobs) ⊎ Enqueues db')
      × (db'.monitored_chats ≡ db.monitored_chats)
      × (db'.recent_message_fingerprints
          ≡ (register s at text message db).1.recent_message_fingerprints)

  registered_lem :
      (text : String) (chat : Uuid) (outcome : PersistOutcome) (db' : Database) (new : Bool)
      → message.text ≡ some text
      → get_active_id_by_telegram_chat_id message.telegram_chat_id db ≡ some chat
      → (register s at text message db).0 ≡ new
      → admit_registered s at (job_of chat text message) (new, (register s at text message db).1)
        ≡ ok (outcome, db')
      → Leaves text db'
  unfolding admit_registered register_fingerprint
  registered_lem text chat outcome db' false has_text active e h =
      subst (Leaves text) (ap (λ r. r.1) (ok-injective h)) (inl refl, refl, refl)
  registered_lem text chat outcome db' true has_text active e h =
      let ((id, queued), q, last) =
        >>=-eq-ok
          (enqueue at.now at.fresh at.gone (job_of chat text message)
            (register s at text message db).1)
          _ h in
      let (chats, prints) =
        enqueue_keeps at.now at.fresh at.gone (job_of chat text message)
          (register s at text message db).1 id queued q in
      subst (Leaves text) (ap (λ r. r.1) (ok-injective last)) (
        inr (record {
          text = text;
          chat = chat;
          id = id;
          has_text = has_text;
          is_active = active;
          is_new = e;
          is_queued = q;
        }),
        chats,
        prints,
      )

  admit_lem :
      (text : String) (chat : Uuid) (outcome : PersistOutcome) (db' : Database)
      → message.text ≡ some text
      → get_active_id_by_telegram_chat_id message.telegram_chat_id db ≡ some chat
      → admit s at text message chat db ≡ ok (outcome, db')
      → Leaves text db'
  unfolding admit
  admit_lem text chat outcome db' has_text active h =
      registered_lem text chat outcome db' (register s at text message db).0 has_text active refl h

  abbrev admitted_text : Option String → Option Uuid → Result Exception (PersistOutcome × Database)
  admitted_text none chat = ok (inactive_chat, db)
  admitted_text (some text) chat = admit_active s at text message chat db

  by_text :
      (text : Option String)
      → persist_text s at text message db
        ≡ admitted_text text (get_active_id_by_telegram_chat_id message.telegram_chat_id db)
  unfolding persist_text
  by_text none = refl
  by_text (some text) = refl

  persist_text_lem :
      (text : Option String) (chat : Option Uuid) (outcome : PersistOutcome) (db' : Database)
      → message.text ≡ text
      → get_active_id_by_telegram_chat_id message.telegram_chat_id db ≡ chat
      → admitted_text text chat ≡ ok (outcome, db')
      → (db'.processing_jobs ≡ db.processing_jobs) ⊎ Enqueues db'
  unfolding admit_active
  persist_text_lem none chat outcome db' e n h =
      inl (ap (λ r. r.1.processing_jobs) (sym (ok-injective h)))
  persist_text_lem (some text) none outcome db' e n h =
      inl (ap (λ r. r.1.processing_jobs) (sym (ok-injective h)))
  persist_text_lem (some text) (some chat) outcome db' e n h =
      (admit_lem text chat outcome db' e n h).0

  -- The handler drops what was written when the transaction raises.
  persisted_lem :
      (result : Result Exception (PersistOutcome × Database))
      → persist s at message db ≡ result
      → ((or_unchanged db result).processing_jobs ≡ db.processing_jobs)
        ⊎ Enqueues (or_unchanged db result)
  unfolding persist persist_text
  persisted_lem (err error) p = inl refl
  persisted_lem (ok (outcome, db')) p =
      persist_text_lem message.text (get_active_id_by_telegram_chat_id message.telegram_chat_id db)
        outcome db' refl refl (sym persist_cases ∙ p)
    where
      persist_cases :
          persist s at message db
          ≡ admitted_text message.text
              (get_active_id_by_telegram_chat_id message.telegram_chat_id db)
      persist_cases = by_text message.text

  ingest_message_lem :
      (db' : Database) × (ingest_message s at message db ≡ db')
      × ((db'.processing_jobs ≡ db.processing_jobs)
          ⊎ (((prefilter_message s.unicode message).should_classify ≡ true) × Enqueues db'))
  unfolding ingest_message
  ingest_message_lem =
      elim (Bool-cases
        (not (prefilter_message s.unicode message).should_classify || is_none message.text)) [
          | inl e ↦ (db, rw e refl, inl refl)
          | inr e ↦ (
            or_unchanged db (persist s at message db),
            rw e refl,
            elim (persisted_lem (persist s at message db) refl) [
              | inl same ↦ inl same
              | inr queued ↦ inr (ground arith, queued)
            ],
          )
        ]

-- The handler of the events never raises, since what its transaction raises is caught. It leaves the
-- queue as it was, or it enqueues the message of the event, and then the chat of the message is in the
-- allow-list and active in the database, the filter passes the message, and its text was not
-- registered for the chat within the window.
pub ingest-Enqueues :
    (s : Ingestion) (at : Instant) (allow_list : ActiveChatAllowList) (event : TelethonMessageEvent)
    (db : Database)
    → (db' : Database) × (ingest s at allow_list event db ≡ ok db')
      × ((db'.processing_jobs ≡ db.processing_jobs)
          ⊎ ((message : IncomingMessage) × (map_telethon_event event
                  (extract_topic_id event.message)
                ≡ ok message)
              × (contains message.telegram_chat_id allow_list ≡ true)
              × ((prefilter_message s.unicode message).should_classify ≡ true)
              × Enqueues s at message db db'))
unfolding ingest ingest_in
ingest-Enqueues s at allow_list event db = go event.chat_id refl
  where
    go :
        (chat : Option TelegramId)
        → event.chat_id ≡ chat
        → (db' : Database) × (ingest_in s at allow_list chat event db ≡ ok db')
          × ((db'.processing_jobs ≡ db.processing_jobs)
              ⊎ ((message : IncomingMessage) × (map_telethon_event event
                      (extract_topic_id event.message)
                    ≡ ok message)
                  × (contains message.telegram_chat_id allow_list ≡ true)
                  × ((prefilter_message s.unicode message).should_classify ≡ true)
                  × Enqueues s at message db db'))
    go none e = (db, refl, inl refl)
    go (some chat_id) e = elim (Bool-cases (contains chat_id allow_list)) [
      | inr c ↦ (db, rw (ingest_in, c) refl, inl refl)
      | inl c ↦
          let message = message_of chat_id (extract_topic_id event.message) event.message in
          let mapped : map_telethon_event event (extract_topic_id event.message) ≡ ok message =
            unfold map_telethon_event in
            ap (λ o. map_message o (extract_topic_id event.message) event.message) e in
          let (db', i, changed) = ingest_message_lem s at message db in
          (
            db',
            rw (ingest_in, c, mapped, i) refl,
            elim changed [
              | inl same ↦ inl same
              | inr (passes, queued) ↦ inr (message, mapped, c, passes, queued)
            ],
          )
    ]

seen_again :
    (later clock : Timestamp) (chat_id : TelegramId) (fingerprint : String) (window : Timedelta)
    (db db' : Database)
    → db'.recent_message_fingerprints ≡ db.recent_message_fingerprints
    → (register_fingerprint later clock chat_id fingerprint window db').0
      ≡ (register_fingerprint later clock chat_id fingerprint window db).0
unfolding register_fingerprint last_seen
seen_again later clock chat_id fingerprint window db db' e = rw e refl

active_again :
    (chat_id : TelegramId) (db db' : Database)
    → db'.monitored_chats ≡ db.monitored_chats
    → get_active_id_by_telegram_chat_id chat_id db' ≡ get_active_id_by_telegram_chat_id chat_id db
unfolding get_active_id_by_telegram_chat_id
active_again chat_id db db' e = rw e refl

persist-admit :
    (s : Ingestion) (at : Instant) (message : IncomingMessage) (text : String) (chat : Uuid)
    (db : Database)
    → message.text ≡ some text
    → get_active_id_by_telegram_chat_id message.telegram_chat_id db ≡ some chat
    → persist s at message db ≡ admit s at text message chat db
unfolding persist persist_text admit_active
persist-admit s at message text chat db t active =
    ap (λ o. persist_text s at o message db) t
    ∙ ap (λ o. admit_active s at text message o db) active

admit-seen :
    (s : Ingestion) (at : Instant) (message : IncomingMessage) (text : String) (chat : Uuid)
    (db : Database)
    → (register s at text message db).0 ≡ false
    → admit s at text message chat db ≡ ok (duplicate_suppressed, (register s at text message db).1)
unfolding admit
admit-seen s at message text chat db seen = rw seen refl

fingerprint_same :
    (s : Ingestion) (text text' : String)
    → normalized_content s.unicode (codes text') ≡ normalized_content s.unicode (codes text)
    → message_fingerprint s.unicode s.sha256 (codes text')
      ≡ message_fingerprint s.unicode s.sha256 (codes text)
unfolding message_fingerprint
fingerprint_same s text text' same = ap s.sha256 same

-- When a message with a text was persisted in an active chat, whether it was enqueued or suppressed,
-- then a message of the same chat whose text has the same normalized content is suppressed, and
-- leaves the queue as it was, while the application's clock has not passed the window since.
pub repeated_text_suppressed :
    (s : Ingestion) (at at' : Instant) (message again : IncomingMessage) (text text' : String)
    (chat : Uuid) (db db' : Database) (outcome : PersistOutcome)
    → message.text ≡ some text
    → get_active_id_by_telegram_chat_id message.telegram_chat_id db ≡ some chat
    → persist s at message db ≡ ok (outcome, db')
    → again.text ≡ some text'
    → again.telegram_chat_id ≡ message.telegram_chat_id
    → normalized_content s.unicode (codes text') ≡ normalized_content s.unicode (codes text)
    → at'.clock < at.now + s.dedup_window
    → (db'' : Database) × (persist s at' again db' ≡ ok (duplicate_suppressed, db''))
      × (db''.processing_jobs ≡ db'.processing_jobs)
unfolding register_fingerprint
repeated_text_suppressed s at at' message again text text' chat db db' outcome t active p t' c same
      soon =
    let (changed, chats', prints') =
      admit_lem s at message db text chat outcome db' t active
        (sym (persist-admit s at message text chat db t active) ∙ p) in
    let active' : get_active_id_by_telegram_chat_id again.telegram_chat_id db' ≡ some chat =
      ap (λ id. get_active_id_by_telegram_chat_id id db') c
      ∙ active_again message.telegram_chat_id db db' chats'
      ∙ active in
    let old = message_fingerprint s.unicode s.sha256 (codes text) in
    let new = message_fingerprint s.unicode s.sha256 (codes text') in
    let window = s.dedup_window in
    let fresh =
      register_again at.now at.clock message.telegram_chat_id old window db at'.now at'.clock
        again.telegram_chat_id new in
    let suppressed : (register s at' text' again db').0 ≡ false =
      seen_again at'.now at'.clock again.telegram_chat_id new window
        (register s at text message db).1 db' prints'
      ∙ fresh
      ∙ within (fingerprint_same s text text' same) in
    (
      (register s at' text' again db').1,
      persist-admit s at' again text' chat db' t' active'
          ∙ admit-seen s at' again text' chat db' suppressed,
      refl,
    )
  where
    within :
        message_fingerprint s.unicode s.sha256 (codes text')
          ≡ message_fingerprint s.unicode s.sha256 (codes text)
        → (if message.telegram_chat_id == again.telegram_chat_id
              && str_eq
                  (message_fingerprint s.unicode s.sha256 (codes text))
                  (message_fingerprint s.unicode s.sha256 (codes text'))
            then leb (at.now + s.dedup_window) at'.clock
            else (register_fingerprint at'.now at'.clock again.telegram_chat_id
                (message_fingerprint s.unicode s.sha256 (codes text'))
                s.dedup_window
                db).0)
          ≡ false
    within e = ground (
      arith,
      eq_iff (message_fingerprint s.unicode s.sha256 (codes text))
          (message_fingerprint s.unicode s.sha256 (codes text')),
    )
