-- ===== src/Proxy.antt =====
-- project07-kweng: the caching web proxy.
pub mod Buffer
pub mod Queue
pub mod Cache
pub mod Request
