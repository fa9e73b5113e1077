-- ===== src/Translation.antt =====
-- app/translation: the client of the internal LibreTranslate service.
pub mod Client
