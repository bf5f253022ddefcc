-- ===== src/Caches.antt =====
-- internal/dns/repos: the store of authoritative zones, and the cache of upstream answers.
pub mod Zone
pub mod Lru
pub mod Dns
