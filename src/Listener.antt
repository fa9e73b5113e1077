-- ===== src/Listener.antt =====
-- The listener process: it keeps the MTProto session, and sends and edits replies through it.
pub mod Mtproto
pub mod Outbound
pub mod ReplyChain
pub mod Events
pub mod ActiveChats
