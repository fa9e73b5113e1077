-- ===== src/Database.antt =====
-- app/database: the tables, the processing queue, its workers and the repositories.
pub mod Columns
pub mod Records
pub mod Models
pub mod Queue
pub mod Chats
pub mod Fingerprints
pub mod Downstream
pub mod Worker
pub mod Questions
pub mod Drafts
pub mod Commands
pub mod Sends
pub mod Edits
pub mod Notifications
pub mod Alerts
