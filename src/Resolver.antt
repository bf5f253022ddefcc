-- ===== src/Resolver.antt =====
-- internal/dns/services/resolver: the order in which a query is answered, and the CNAME chase.
pub mod Alias
pub mod HandleQuery
