-- ===== src/Adapters.antt =====
-- src/fetech/adapters: the checks and loops of adapters that do not depend on a network.
pub mod Archive
pub mod Discovery
mod Examples
mod CrawlExamples
