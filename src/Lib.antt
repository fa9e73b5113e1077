-- ===== src/Lib.antt =====
-- A Telegram lead assistant (app/): the listener process watches the operator's chats and sends
-- replies, the classifier judges the messages, and the bot lets the operator write and confirm
-- replies. The processes share nothing but a PostgreSQL database, so the model is a database value
-- that every operation takes and returns.
--
-- - Domain: app/domain/enums.py and app/domain/errors.py, and the exceptions as values.
-- - Database.Models and Database.Records: app/database/models/entities.py, a record for each row and
--   the tables as lists.
-- - Database.Queue and Database.Fingerprints: app/database/queue.py. `enqueue`, `claim`, `retry`,
--   `complete`, `route`, `fail`, `recover_stale` and `register_fingerprint` keep their names.
-- - Database.Downstream: app/database/downstream.py, the second use of the queue's rows: the listener
--   adds a reply chain to them, then the classifier reads it.
-- - Database.Worker: app/database/worker.py. `run_once` of the two workers is `run_once` and
--   `run_downstream_once`; the handler is a parameter that works on the database in a savepoint.
-- - Database.Chats: app/database/repositories/monitored_chats.py.
-- - Database.Questions and Database.Drafts: app/database/repositories/reply_drafts.py and the
--   queries on questions and versions that it shares with the outbound commands.
-- - Database.Commands, Database.Sends and Database.Edits:
--   app/database/repositories/outbound_commands.py, by what they are about. `confirm_send` turns the
--   last draft into a command, which the listener claims.
-- - Listener.Outbound: app/listener/outbound/__init__.py, the workers that send and edit replies
--   through the MTProto client, which is a parameter (app/listener/mtproto/client.py).
-- - Listener.Mtproto: the verification results and the cache of topic titles of
--   app/listener/mtproto/client.py, whose calls of Telethon are not modelled.
-- - Listener.ReplyChain: app/listener/reply_chain.py, with the source of the messages as a parameter.
-- - Listener.ReplyChain.Snapshot: the snapshots of app/listener/reply_chain.py, and
--   app/listener/reply_chain_worker.py, which publishes them. The JSON form that pydantic gives a
--   snapshot is a parameter.
-- - Listener.Events: app/listener/events/. Incoming maps an event; Prefilter decides locally, with the
--   terms of Terms that Stems compiles; Fingerprint normalizes a text; Ingestion is the transaction
--   that admits a message and the handler. A text is the list of its code points there, and the tables
--   of Unicode and the SHA-256 digest are parameters. The patterns of Python's `re` are modelled by a
--   matcher that returns every remainder of the text.
-- - Listener.ActiveChats: app/listener/active_chats.py, the allow-list of the chats.
-- - Classifier: app/classifier/. Schemas and Adapter are the answers of the model and the boundary to
--   the SDK, which is a parameter; Usage accounts for the calls; Stage1 and Stage2 are the handlers'
--   two classifications; Relevant stores a question; Downstream chooses between the last two by the
--   status of the row. Pipeline joins the listener's and the classifier's downstream workers.
-- - Translation.Client: app/translation/client.py, with the HTTP client as a parameter.
-- - Database.Notifications, Bot.Notifications and Bot.Delivery:
--   app/database/repositories/bot_notifications.py, app/bot/notifications.py and app/bot/delivery.py,
--   the queue of the operator's notifications, the messages that show one, and the worker. The Bot
--   API, the keyboard and how Python writes a number are parameters.
-- - Database.Alerts: app/database/repositories/operational_alerts.py, which creates the alerts on the
--   budget and on conditions that last.
-- - Prelude: tables as lists of rows, results with exceptions, tests on numbers and options. Tests:
--   the theorems on concrete rows.
--
-- An operation is a function of the values that the database gives it: the time of its transaction
-- (`now()` does not change in one), the identifiers of new rows, and which rows other transactions
-- have locked (`SKIP LOCKED`), and which rows of the queue they delete in the middle of `enqueue`.
-- A transaction is one step; if it raises, the database stays as it was. A call that changes
-- something in Telegram is not undone then, so an iteration of the outbound workers returns its
-- calls beside its result. Times are in microseconds on the natural numbers, and an identifier is a
-- number that is only compared; a Telegram chat identifier, which may be negative there, is one
-- too. The loop of the reply chain recurses on the number of items that it may still add, which is
-- `max_depth` at the start and at most 10; no other definition needs a bound, and `run_forever` is
-- a list of iterations, with the operator's calls between them. The widths of the integer columns
-- are not modelled.
--
-- Money is in millionths of a dollar and a confidence in ten-thousandths, the scales of the columns; a
-- token price is taken to have no more than six decimals.
--
-- Not modelled: the bot's handlers and keyboards, the delivery of alerts, operator sessions, the
-- translation manager, retention, configuration, metrics, logging and the migrations. They are
-- presentation, calls of services, or parts that would stand on the repositories modelled here. The
-- MTProto client, the model service and the translation service are parameters wherever they are
-- called.
mod Prelude
pub mod Domain
pub mod Database
pub mod Listener
pub mod Translation
pub mod Classifier
pub mod Bot
mod Tests
