-- ===== src/Tests.antt =====
-- Runs on small inputs, and the theorems applied at concrete inputs.
mod Sample
mod Names
mod Domain
mod Wire
mod Caches
mod Resolver
mod Rdata
mod Response
mod Upstream
mod Encode
mod Listener
mod Packets
mod Config
mod App
mod Service
mod Main
