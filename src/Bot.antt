-- ===== src/Bot.antt =====
-- The bot process: it shows the questions to the operator.
pub mod Notifications
pub mod Delivery
