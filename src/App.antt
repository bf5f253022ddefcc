-- ===== src/App.antt =====
-- cmd/rr-dnsd/main.go: the components of the server and how they are wired. Logging is left out.
pub mod Answers
pub mod Order
pub mod Found
pub mod Service
pub mod Main
use rr_dns.Prelude.{
  Bool, ℕ, ◌*◌, ◌<◌, ltb, ◌-◌, ◌^◌, false, true, List, [], ◌∷◌, ◌++◌, Option, none, some, Result,
  ok, err, ◌>>=◌, wrap, wrap_err, Error, if◌then◌else◌, cache_too_large, cache_failed, zones_failed,
  upstream_failed, repositories_failed, gateways_failed, start_failed, shutdown_timeout,
}
use rr_dns.Prelude.Bytes.{Bytes}
use rr_dns.Prelude.Assoc.{Assoc}
use rr_dns.Text.Decimal.{decimal}
use rr_dns.Names.{PublicSuffix}
use rr_dns.Domain.Record.{second, ResourceRecord}
use rr_dns.Caches.Lru.{Lru}
use rr_dns.Caches.Dns as DnsCache
use rr_dns.Caches.Zone as ZoneCache
use rr_dns.ZoneFiles.{Load, Walked, load_zone_directory}
use rr_dns.Config.{AppConfig}
use rr_dns.Resolver.Alias.{FindRecords, Resolve}
use rr_dns.Resolver.HandleQuery
use rr_dns.Resolver.HandleQuery.{Cache, Resolver, noop_is_blocked}
use rr_dns.Upstream.{Network}
use rr_dns.Upstream.Client.{Options, Client, new_resolver, default_timeout, resolve}
use rr_dns.Transport.Listener.{Udp, new_udp_transport, start, stop}

-- The largest `int`.
abbrev pub max_int : ℕ
max_int = 2 ^ 63 - 1

-- What the program takes from outside: the public suffix list; the LRU library and the error of its
-- constructor for a size; reading a zone file; the entries of a directory; the order in which Go
-- ranges over a map; the network; when the upstream is called for a query that is answered at a time;
-- what `resolveWithContext` returns; and the fuel of names.
pub record Environment : Type 1 where
  pub psl : PublicSuffix
  pub lru : Lru (List ResourceRecord)
  pub lru_error : ℕ → Option Error
  pub load : Load
  pub entries : Bytes → List Walked
  pub range : Assoc (List ResourceRecord) → Assoc (List ResourceRecord)
  pub network : Network
  pub called : ℕ → ℕ
  pub race : (Bytes → Result (List ResourceRecord)) → List Bytes → Result (List ResourceRecord)
  pub fuel : ℕ

module _ (env : Environment) where
  -- The cache with its contents; `none` is `nil`.
  pub record Repositories : Type 0 where
    pub upstream_cache : Option (env.lru.State)
    pub zone_cache : ZoneCache.ZoneCache

  -- The loop over the zones.
  unfoldable pub put_zones : Assoc (List ResourceRecord) → ZoneCache.ZoneCache → ZoneCache.ZoneCache
  put_zones [] zc = zc
  put_zones ((root, records) ∷ zones) zc =
      put_zones zones (ZoneCache.put_zone env.psl root records zc)

  -- The cache of `dnscache.New`, or `nil`. A size is a `uint`, and is converted to an `int`.
  unfoldable pub build_cache : AppConfig → Result (Option env.lru.State)
  build_cache cfg =
      if cfg.disable_cache
      then ok none
      else if ltb max_int cfg.cache_size
      then err (cache_too_large cfg.cache_size)
      else elim (env.lru_error cfg.cache_size) [
        | some e ↦ err (wrap cache_failed e)
        | none ↦ ok (some (env.lru.empty cfg.cache_size))
      ]

  unfoldable pub build_repositories : AppConfig → Result Repositories
  unfolding put_zones
  build_repositories cfg = do
    cache ← build_cache cfg
    zones ←
        wrap_err zones_failed
          (load_zone_directory env.load (env.entries cfg.zone_dir) (300 * second))
    ok (record { upstream_cache = cache; zone_cache = put_zones (env.range zones) ZoneCache.new })

  unfoldable pub build_gateways : AppConfig → Result Client
  build_gateways cfg = wrap_err upstream_failed (
      new_resolver env.network (record {
        servers = cfg.servers;
        timeout = default_timeout;
        parallel = false;
        codec = true;
        dial = none;
      }))

  -- `dnscache`, read at the time `now`.
  unfoldable pub cache_at : ℕ → Cache env.lru.State
  cache_at now = record {
    get = λ s key. DnsCache.get env.lru s key now;
    set = λ s records. DnsCache.set env.psl env.lru s records;
  }

  pub record Application : Type 0 where
    pub config : AppConfig
    pub transport : Udp
    pub repositories : Repositories
    pub upstream : Client

  -- `NewResolver` with the options of `buildApplication`, for a query at the time `now`: no alias
  -- resolver is among them, and the limit of the recursion goes nowhere. The context of a query comes
  -- from `main` and has no deadline.
  unfoldable pub resolver_of : Application → ℕ → Resolver env.lru.State
  unfolding cache_at HandleQuery.new_resolver
  resolver_of app now = HandleQuery.new_resolver (record {
    blocklist = some noop_is_blocked;
    upstream = some (λ q now. resolve env.race env.fuel app.upstream none (env.called now) q now);
    upstream_cache = elim app.repositories.upstream_cache [
      | none ↦ none
      | some _ ↦ some (cache_at now)
    ];
    zone_cache = some (ZoneCache.find_records env.psl app.repositories.zone_cache);
    max_recursion = app.config.max_recursion;
    alias_resolver = none;
  })

  unfoldable pub build_application : AppConfig → Result Application
  unfolding build_repositories build_gateways
  build_application cfg = do
    repos ← wrap_err repositories_failed (build_repositories cfg)
    client ← wrap_err gateways_failed (build_gateways cfg)
    ok (record {
      config = cfg;
      transport = new_udp_transport (b':' ∷ decimal cfg.port);
      repositories = repos;
      upstream = client;
    })

-- `Run`: the transport is started, the context is awaited, and the transport is stopped; its error
-- is only logged. `late` is the choice of the last `select` if the timeout has passed, too; `death` is
-- the panic or the exhausted stack of a goroutine that serves a packet between the two, if there is one.
unfoldable pub run :
    (Bytes → Option Error) → Option Error → Bool → Option Error → Udp → Result (Udp × Option Error)
run bind closing late death t =
    let (t', failed) = start bind t in
    elim failed [
      | some e ↦ ok (t', some (wrap start_failed e))
      | none ↦ elim death [
        | some e ↦ err e
        | none ↦ stop closing t' >>= λ (stopped : Udp × Option Error).
            ok (stopped.0, if late then some shutdown_timeout else none)
      ]
    ]
