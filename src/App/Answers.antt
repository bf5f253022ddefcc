-- ===== src/App/Answers.antt =====
-- What the server that `buildApplication` makes answers, from the zone files on.
use rr_dns.Prelude.{
  ℕ, ◌*◌, List, [], ◌∷◌, false, Option, none, some, ok, ◌≡◌, refl, sym, ◌∙◌, ap, arith,
}
use rr_dns.Prelude.Bytes.{Bytes, bytes_eq_iff}
use rr_dns.Prelude.Assoc.{Assoc, lookup}
use rr_dns.Names.{PublicSuffix, canonical_dns_name, get_apex_domain}
use rr_dns.Domain.Codes.{noerror}
use rr_dns.Domain.Question
use rr_dns.Domain.Question.{Question}
use rr_dns.Domain.Record.{second, ResourceRecord}
use rr_dns.Domain.Response.{DnsResponse}
use rr_dns.Caches.Zone as ZoneCache
use rr_dns.Caches.Zone.Laws.{some_if_any, matching, find_records-put_zone}
use rr_dns.ZoneFiles.{load_zone_directory}
use rr_dns.Config.{AppConfig}
use rr_dns.Resolver.HandleQuery.{
  Resolver, noop_is_blocked, build_response, chase_from_zone, resolve_from_zone, check_blocklist,
  check_upstream_cache, is_fatal_alias_error, after_cache, handle_query,
}
use rr_dns.App.Order.{zone_of, HaveDistinctRoots, HaveDistinctRoots-order}
use mathlib.Core.Logic.{∥∥₁_elim}
use mathlib.Core.List.{Perm, Permᴰ}
use rr_dns.App.{
  Environment, put_zones, build_repositories, Application, resolver_of, build_application,
}

-- What a zone, if there is one, has for a question.
abbrev pub records_of :
    PublicSuffix → Question → Option (List ResourceRecord) → Option (List ResourceRecord)
records_of psl q none = none
records_of psl q (some rrs) = some_if_any (matching psl (Question.cache_key psl q) rrs)

-- What the zones have for a question.
abbrev pub zone_answer :
    PublicSuffix → Assoc (List ResourceRecord) → Question → Option (List ResourceRecord)
zone_answer psl zones q =
    records_of psl q (zone_of (get_apex_domain psl (canonical_dns_name q.name)) zones)

records-set : IsSet (Option (List ResourceRecord))
records-set = hlevel

module _ (env : Environment) where
  find_records-put_zones :
      (zones : Assoc (List ResourceRecord)) (zc : ZoneCache.ZoneCache) (q : Question)
      → HaveDistinctRoots zones
      → ZoneCache.find_records env.psl (put_zones env zones zc) q
        ≡ (elim (zone_of (get_apex_domain env.psl (canonical_dns_name q.name)) zones) [
          | none ↦ ZoneCache.find_records env.psl zc q
          | some rrs ↦ some_if_any (matching env.psl (Question.cache_key env.psl q) rrs)
        ])
  unfolding put_zones
  find_records-put_zones [] zc q h = refl
  find_records-put_zones ((root, rrs) ∷ zones) zc q h = ground (
    arith,
    find_records-put_zones zones (ZoneCache.put_zone env.psl root rrs zc) q h.1,
    find_records-put_zone env.psl root rrs zc q,
    bytes_eq_iff (canonical_dns_name root) (get_apex_domain env.psl (canonical_dns_name q.name)),
  )

  empty_cache : (q : Question) → ZoneCache.find_records env.psl ZoneCache.new q ≡ none
  unfolding ZoneCache.find_records lookup
  empty_cache q = refl

  -- A resolver that has no alias resolver and blocks nothing.
  handle_query-found :
      (r : Resolver env.lru.State) (now : ℕ) (s : env.lru.State) (q : Question)
      (rr : ResourceRecord) (rrs : List ResourceRecord)
      → resolve_from_zone r q ≡ some (rr ∷ rrs, none)
      → handle_query env.psl r now s q ≡ (s, build_response q noerror (rr ∷ rrs))
  unfolding handle_query is_fatal_alias_error
  handle_query-found r now s q rr rrs e = rw (e, handle_query)

  handle_query-unfound :
      (r : Resolver env.lru.State) (now : ℕ) (s : env.lru.State) (q : Question)
      → resolve_from_zone r q ≡ none
      → check_blocklist r q ≡ false
      → handle_query env.psl r now s q ≡ after_cache r now q (check_upstream_cache env.psl r s q)
  unfolding handle_query
  handle_query-unfound r now s q e b = rw (e, handle_query) (rw b)

  -- The records that the application's resolver takes from the zones.
  resolve_from_zone-found :
      (app : Application env) (now : ℕ) (q : Question) (found : Option (List ResourceRecord))
      → ZoneCache.find_records env.psl app.repositories.zone_cache q ≡ found
      → resolve_from_zone (resolver_of env app now) q ≡ chase_from_zone none q found
  unfolding resolver_of resolve_from_zone
  resolve_from_zone-found app now q found e = ap (chase_from_zone none q) e

  built_zones :
      (cfg : AppConfig) (app : Application env) (zones : Assoc (List ResourceRecord))
      → build_application env cfg ≡ ok app
      → load_zone_directory env.load (env.entries cfg.zone_dir) (300 * second) ≡ ok zones
      → app.repositories.zone_cache ≡ put_zones env (env.range zones) ZoneCache.new
  unfolding build_application build_repositories
  built_zones cfg app zones built loaded = ground (arith, loaded)

  -- What the resolver answers, given what the zones have; without it the cache and the upstream are
  -- asked.
  abbrev pub answer_from :
      Application env
      → ℕ
      → env.lru.State
      → Question
      → Option (List ResourceRecord)
      → env.lru.State × DnsResponse
  answer_from app now s q (some records) = (s, build_response q noerror records)
  answer_from app now s q none =
      after_cache (resolver_of env app now) now q
        (check_upstream_cache env.psl (resolver_of env app now) s q)

  answer_from-none :
      (app : Application env) (now : ℕ) (s : env.lru.State) (q : Question)
      → ZoneCache.find_records env.psl app.repositories.zone_cache q ≡ none
      → handle_query env.psl (resolver_of env app now) now s q ≡ answer_from app now s q none
  unfolding chase_from_zone
  answer_from-none app now s q e =
      handle_query-unfound (resolver_of env app now) now s q
        (resolve_from_zone-found app now q none e)
        (unfold resolver_of check_blocklist noop_is_blocked in refl)

  answer_from-some_if_any :
      (app : Application env) (now : ℕ) (s : env.lru.State) (q : Question)
      (rrs : List ResourceRecord)
      → ZoneCache.find_records env.psl app.repositories.zone_cache q ≡ some_if_any rrs
      → handle_query env.psl (resolver_of env app now) now s q
        ≡ answer_from app now s q (some_if_any rrs)
  unfolding chase_from_zone
  answer_from-some_if_any app now s q [] e = answer_from-none app now s q e
  answer_from-some_if_any app now s q (rr ∷ rrs) e =
      handle_query-found (resolver_of env app now) now s q rr rrs
        (resolve_from_zone-found app now q (some (rr ∷ rrs)) e)

  answer_from-records_of :
      (app : Application env) (now : ℕ) (s : env.lru.State) (q : Question)
      (zone : Option (List ResourceRecord))
      → ZoneCache.find_records env.psl app.repositories.zone_cache q ≡ records_of env.psl q zone
      → handle_query env.psl (resolver_of env app now) now s q
        ≡ answer_from app now s q (records_of env.psl q zone)
  answer_from-records_of app now s q none e = answer_from-none app now s q e
  answer_from-records_of app now s q (some rrs) e =
      answer_from-some_if_any app now s q (matching env.psl (Question.cache_key env.psl q) rrs) e

  records_of-empty :
      (q : Question) (zone : Option (List ResourceRecord))
      → (elim zone [
        | none ↦ ZoneCache.find_records env.psl ZoneCache.new q
        | some rrs ↦ some_if_any (matching env.psl (Question.cache_key env.psl q) rrs)
      ])
        ≡ records_of env.psl q zone
  records_of-empty q none = empty_cache q
  records_of-empty q (some rrs) = refl

  found_in_order :
      (zones zones' : Assoc (List ResourceRecord)) (q : Question)
      → Perm zones zones'
      → HaveDistinctRoots zones
      → ZoneCache.find_records env.psl (put_zones env zones' ZoneCache.new) q
        ≡ zone_answer env.psl zones q
  found_in_order zones zones' q order distinct = ∥∥₁_elim order (records-set _ _) found
    where
      apex : Bytes
      apex = get_apex_domain env.psl (canonical_dns_name q.name)

      found :
          Permᴰ zones zones'
          → ZoneCache.find_records env.psl (put_zones env zones' ZoneCache.new) q
            ≡ zone_answer env.psl zones q
      found d =
          let (distinct', same) = HaveDistinctRoots-order d distinct in
          find_records-put_zones zones' ZoneCache.new q distinct'
          ∙ (records_of-empty q (zone_of apex zones') ∙ ap (records_of env.psl q) (sym (same apex)))

  -- If `buildApplication` succeeds on the zones of the directory, no two of which have the same root
  -- in canonical form, then, in whichever order Go ranges over the zones, every query for whose cache
  -- key the zone of its registrable domain has records is answered with exactly these records,
  -- in their order and without a chase of any alias, and changes no cache. Every other query is
  -- answered from the upstream cache and the upstream; the blocklist never stops one.
  pub handle_query-build_application :
      (cfg : AppConfig) (app : Application env) (zones : Assoc (List ResourceRecord)) (now : ℕ)
      (s : env.lru.State) (q : Question)
      → build_application env cfg ≡ ok app
      → load_zone_directory env.load (env.entries cfg.zone_dir) (300 * second) ≡ ok zones
      → Perm zones (env.range zones)
      → HaveDistinctRoots zones
      → handle_query env.psl (resolver_of env app now) now s q
        ≡ answer_from app now s q (zone_answer env.psl zones q)
  handle_query-build_application cfg app zones now s q built loaded order distinct =
      answer_from-records_of app now s q
        (zone_of (get_apex_domain env.psl (canonical_dns_name q.name)) zones)
        (ap (λ zc. ZoneCache.find_records env.psl zc q) (built_zones cfg app zones built loaded)
          ∙ found_in_order zones (env.range zones) q order distinct)
