-- ===== src/Lib.antt =====
-- RR-DNS, a DNS server that answers from its own zones, follows aliases, and forwards the other
-- queries to upstream servers with a cache in front of them. Its core is modelled here.
--
-- The parts, under internal/dns in the repository, and the modules that model them:
-- - common/utils (`CanonicalDNSName`, `GetApexDomain`): Names. The text functions of Go's `strings`
--   package that the program calls are in Text, on lists of byte values; letter case and white space
--   are those of ASCII.
-- - domain: Domain/Codes (types, classes, response codes), Domain/Question, Domain/Record,
--   Domain/Response, Domain/CacheKey. A moment is a number of nanoseconds, and the clock an argument
--   of what reads it.
-- - gateways/wire: Wire/Octets (big-endian integers and checked slices), Wire/Header, Wire/Name
--   (`decodeName`, `encodeDomainName`), Wire/Query (`EncodeQuery`, `DecodeQuery`, `decodeQuestion`),
--   Wire/Response (`EncodeResponse`, `DecodeResponse`, `parseResourceRecord`).
-- - common/rrdata: Rdata (`Decode`, `encodeDomainName`, `decodeDomainName`), Rdata/Encode (`Encode`) and
--   Rdata/Address, with what they use of Go's package `net` (`IP.String`, `ParseIP`).
-- - gateways/upstream: Upstream (`queryServerWithContext`, `resolveSerialWithContext`) over a network
--   that is an argument, Upstream/Parallel (`resolveWithContext`), a step relation over the goroutines,
--   the channels and the end of the context, and Upstream/Client (`NewResolver`, `Resolve`,
--   `ensureContextDeadline`).
-- - gateways/transport: Transport (`handlePacket` and the factory) and Transport/Listener (`Start`,
--   `Stop` and the goroutines of `listenLoop`), a step relation.
-- - services/resolver: Resolver/Alias (`aliasChaser`), Resolver/HandleQuery (`Resolver`), and
--   Resolver/HandleQuery/Aliases, the resolver with an alias resolver.
-- - repos/zonecache and repos/dnscache: Caches/Zone and Caches/Dns, the latter over Caches/Lru, the
--   interface of the LRU library.
-- - repos/zone: ZoneFiles, from the parsed content of the files on.
-- - config: Config (`Load`, `validIPPort`, the transformation of environment variables), with
--   `net.SplitHostPort`.
-- - common/log and common/clock: Log (the loggers and the global one) and Clock (the clock of the tests).
-- - cmd/rr-dnsd (at the repository's root): App (`buildApplication` and what it calls, `Run`) and
--   App/Main (`main`).
--
-- How they interact: a datagram becomes a question (Wire/Query); the resolver asks the zone cache,
-- chases aliases, asks the blocklist, the DNS cache and the upstream in that order
-- (Resolver/HandleQuery), and its response is sent back (Wire/Response). Records carry their expiry
-- and are found by cache keys (Domain). The resolver takes its collaborators as arguments, as the
-- source takes interfaces; Resolver/HandleQuery/Caching fills in the DNS cache, Transport/Packets the
-- codec around the resolver, and App/Answers all that `buildApplication` wires: the zones of the zone
-- files (ZoneFiles) in the zone cache, the DNS cache and the upstream client. App/Service takes a
-- datagram through this server to the records that its sender reads. The listener hands each
-- datagram to a goroutine; `handle_packets` takes them in the order in which the handler is done, up
-- to one at which the process ends.
--
-- Errors are the constructors of `Error` in Prelude/Errors, one for each message of the source; an
-- index or a slice out of range is `panic`, and `out_of_fuel` is the end of the fuel of the model,
-- where the source recurses on. Both end the process: `crashed` in Transport and App/Main, `killed` in
-- Upstream/Serial.
-- State is passed on explicitly.
--
-- Fuel: `decode_name` and what calls it run on fuel, since the source follows compression pointers
-- without a bound; the theorems say which messages end and which do not (with too little fuel one
-- that ends counts as one that does not). `chase` runs on fuel; more
-- than the depth limit is enough. `canonical_dns_name` runs its loop with the length of the text as
-- fuel, `skip_labels` and `segments` the length of the message and one, since each round goes
-- forward, `binade` 64 doublings, and `decimal` has the 20 digits of a 64-bit number.
--
-- Parameters: the public suffix list (`PublicSuffix`), the LRU cache (`Lru`, with `LruLaws`), the
-- lookups of the alias chaser and the resolver, and in Wire/Response the decoder of record data, which
-- Rdata fills; the network of the upstream client; binding and closing the socket of the listener; the
-- content that koanf reads from a zone file (`Load`) and the entries of a directory (`Walked`); koanf
-- and the validator for the configuration (`Libraries`); zap's `ParseLevel` and `zap.Any`. App takes
-- the outside world as the record `Environment`, with the order in which Go ranges over a map, of which
-- App/Answers assumes that it is a permutation of the entries.
--
-- Seconds of a duration are those of Go's `Seconds`, a `float64` (`float_seconds` in Domain/Record).
--
-- Not modelled: the calls of the loggers and what zap writes, sockets and contexts beyond the steps of
-- the listener and of the parallel strategy, signals, what the validator makes of the tags of
-- `AppConfig`, the mutexes (an operation holds its mutex from start to end; what goroutines see of
-- `Stop` without it are the steps of Transport/Listener), the end of the process inside `HandleQuery`
-- and the parallel strategy (the resolver takes the outcome of the upstream as a value), numbers of a
-- configuration that its validation refuses as negative, and the letter case of characters beyond
-- ASCII.
pub mod Prelude
pub mod Text
pub mod Names
pub mod Domain
pub mod Wire
pub mod Rdata
pub mod Upstream
pub mod Resolver
pub mod Caches
pub mod ZoneFiles
pub mod Transport
pub mod Config
pub mod App
mod Tests
pub mod Log
pub mod Clock
