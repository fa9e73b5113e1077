-- ===== src/Listener/Events.antt =====
-- app/listener/events: the normalisation, the filtering and the admission of incoming messages.
pub mod Incoming
pub mod Characters
pub mod Stems
pub mod Terms
pub mod Fingerprint
pub mod Prefilter
pub mod Ingestion
