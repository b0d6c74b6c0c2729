-- ===== src/Ledger.antt =====
-- src/fetech/ledger.py: the event ledger: what it keeps of a payload, and its streams of events.
pub mod Document
pub mod Sanitize
pub mod Stream
mod Examples
