-- ===== src/Classifier.antt =====
-- app/classifier: the classification of the queued messages and what becomes of them.
pub mod Schemas
pub mod Adapter
pub mod Usage
pub mod Stage1
pub mod Stage2
pub mod Relevant
pub mod Downstream
pub mod Pipeline
