-- ===== src/Resolver/HandleQuery.antt =====
-- resolver.go: `HandleQuery`, the order in which a query is answered. Logging is left out, and so is
-- the cancellation of the context, which shows as an error of the upstream.
pub mod Sources
pub mod Caching
pub mod Aliases
use rr_dns.Prelude.{
  ℕ, List, [], ◌∷◌, is_empty, Bool, true, false, Option, none, some, Result, ok, err, Error,
  alias_depth_exceeded, alias_loop_detected, no_upstream, if◌then◌else◌,
}
use rr_dns.Prelude.Bytes.{Bytes}
use rr_dns.Names.{PublicSuffix}
use rr_dns.Domain.Codes.{RCode, noerror, servfail, nxdomain}
use rr_dns.Domain.Question
use rr_dns.Domain.Question.{Question}
use rr_dns.Domain.Record.{ResourceRecord}
use rr_dns.Domain.Response.{DnsResponse}
use rr_dns.Resolver.Alias.{FindRecords, Resolve}

-- The interface `Cache`, over the states `S` of an implementation.
pub record Cache (S : Type 0) : Type 0 where
  pub get : S → Bytes → S × Option (List ResourceRecord)
  pub set : S → List ResourceRecord → S × Option Error

-- The interface `AliasResolver`: the chain, with an error or `nil`.
abbrev pub Chase : Type 0
Chase = Question → List ResourceRecord → List ResourceRecord × Option Error

-- A component that is `nil` in the source is `none`.
pub record Resolver (S : Type 0) : Type 0 where
  pub blocklist : Option (Question → Bool)
  pub upstream : Option Resolve
  pub upstream_cache : Option (Cache S)
  pub zone_cache : Option FindRecords
  pub alias_resolver : Option Chase

-- The clock and the logger are left out; the limit of the recursion is kept by no method.
pub record ResolverOptions (S : Type 0) : Type 0 where
  pub blocklist : Option (Question → Bool)
  pub upstream : Option Resolve
  pub upstream_cache : Option (Cache S)
  pub zone_cache : Option FindRecords
  pub max_recursion : ℕ
  pub alias_resolver : Option Chase

unfoldable pub new_resolver : {S : Type 0} → ResolverOptions S → Resolver S
new_resolver opts = record {
  blocklist = opts.blocklist;
  upstream = opts.upstream;
  upstream_cache = opts.upstream_cache;
  zone_cache = opts.zone_cache;
  alias_resolver = opts.alias_resolver;
}

-- repos/blocklist/nop.go
unfoldable pub noop_is_blocked : Question → Bool
noop_is_blocked q = false

unfoldable pub is_fatal_alias_error : Option Error → Bool
is_fatal_alias_error none = false
is_fatal_alias_error (some alias_depth_exceeded) = true
is_fatal_alias_error (some alias_loop_detected) = true
is_fatal_alias_error (some _) = false

unfoldable pub build_response : Question → RCode → List ResourceRecord → DnsResponse
build_response q rcode records = record {
  id = q.id;
  rcode = rcode;
  question = q;
  answers = records;
  authorities = [];
  additionals = [];
}

-- The records of the zone and the error of the chase, if the zone has an answer.
unfoldable pub chase_from_zone :
    Option Chase
    → Question
    → Option (List ResourceRecord)
    → Option (List ResourceRecord × Option Error)
chase_from_zone alias q none = none
chase_from_zone alias q (some []) = none
chase_from_zone none q (some (rr ∷ rrs)) = some (rr ∷ rrs, none)
chase_from_zone (some chase) q (some (rr ∷ rrs)) = some (chase q (rr ∷ rrs))

module _ {S : Type 0} where
  unfoldable pub resolve_from_zone :
      Resolver S → Question → Option (List ResourceRecord × Option Error)
  unfolding chase_from_zone
  resolve_from_zone r q = elim r.zone_cache [
    | none ↦ none
    | some find ↦ chase_from_zone r.alias_resolver q (find q)
  ]

  unfoldable pub check_blocklist : Resolver S → Question → Bool
  check_blocklist r q = elim r.blocklist [ none ↦ false | some is_blocked ↦ is_blocked q ]

  unfoldable pub check_upstream_cache :
      PublicSuffix → Resolver S → S → Question → S × Option (List ResourceRecord)
  check_upstream_cache psl r s q = elim r.upstream_cache [
    | none ↦ (s, none)
    | some cache ↦ cache.get s (Question.cache_key psl q)
  ]

  unfoldable pub resolve_upstream : Resolver S → ℕ → Question → Result (List ResourceRecord)
  resolve_upstream r now q = elim r.upstream [
    | none ↦ err no_upstream
    | some resolve ↦ resolve q now
  ]

  -- The error is only logged.
  unfoldable pub cache_upstream_response : Resolver S → S → List ResourceRecord → S
  cache_upstream_response r s records = elim r.upstream_cache [
    | none ↦ s
    | some cache ↦ (cache.set s records).0
  ]

  -- Steps 4 to 6: the upstream is asked, and its answer is cached.
  unfoldable pub ask_upstream : Resolver S → ℕ → S → Question → S × DnsResponse
  ask_upstream r now s q = elim (resolve_upstream r now q) [
    | err e ↦ (s, build_response q servfail [])
    | ok records ↦ (cache_upstream_response r s records, build_response q noerror records)
  ]

  -- Step 3, with what the cache returned.
  unfoldable pub after_cache :
      Resolver S → ℕ → Question → S × Option (List ResourceRecord) → S × DnsResponse
  after_cache r now q (s, some records) = (s, build_response q noerror records)
  after_cache r now q (s, none) = ask_upstream r now s q

  -- The response, and the cache behind the call. The error of the source is always `nil`.
  unfoldable pub handle_query : PublicSuffix → Resolver S → ℕ → S → Question → S × DnsResponse
  handle_query psl r now s q = elim (resolve_from_zone r q) [
    | some (records, e) ↦
        if is_fatal_alias_error e
        then (s, build_response q servfail [])
        else (s, build_response q noerror records)
    | none ↦
        if check_blocklist r q
        then (s, build_response q nxdomain [])
        else after_cache r now q (check_upstream_cache psl r s q)
  ]
