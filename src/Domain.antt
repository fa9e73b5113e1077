-- ===== src/Domain.antt =====
-- app/domain: the enumerations that the tables persist, the failures that the Telegram adapter
-- reports, and the exceptions that the other modules raise.
mod Enums
mod Errors
pub use Enums.*
pub use Errors.*
