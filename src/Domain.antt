-- ===== src/Domain.antt =====
-- internal/dns/domain: the codes, the question, the resource record, the response and the cache key.
pub mod Codes
pub mod CacheKey
pub mod Question
pub mod Record
pub mod Response
