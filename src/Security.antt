-- ===== src/Security.antt =====
-- src/fetech/security.py, src/fetech/transport.py: which URLs may be fetched, what of a URL may be
-- shown, and which addresses are connected to.
pub mod Url
pub mod Policy
pub mod Transport
pub mod Variants
mod Examples
