-- ===== src/Wire.antt =====
-- internal/dns/gateways/wire: the codec of DNS messages over UDP.
pub mod Octets
pub mod Header
pub mod Name
pub mod Query
pub mod Response
