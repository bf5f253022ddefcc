-- ===== src/Tests/Resolver.antt =====
-- The resolver at concrete inputs.
use rr_dns.Prelude.{
  ◌+◌, List, [], ◌∷◌, Option, none, some, ok, alias_depth_exceeded, alias_loop_detected, ◌==◌, ◌&&◌,
  if◌then◌else◌, ◌≡◌, refl, arith,
}
use rr_dns.Prelude.Bytes.{codes, bytes_eq}
use rr_dns.Prelude.Assoc.{Assoc, lookup}
use rr_dns.Text.{to_lower, trim_space, is_space}
use rr_dns.Domain.Codes.{noerror, rrtype_is_valid, rrclass_is_valid}
use rr_dns.Domain.Question
use rr_dns.Domain.Question.{Question, new_question}
use rr_dns.Domain.Record
use rr_dns.Domain.Record.{ResourceRecord}
use rr_dns.Caches.Dns.Unexpired.{IsPast, lasting, all_seen}
use rr_dns.Caches.Dns.{same_keys}
use rr_dns.Resolver.Alias.{
  AliasChaser, should_chase, chase, chase_loop, new_chase_state, step, follow, advance,
  current_head, guard_depth, guard_loop, contains, extract_target, build_next_question,
  resolve_next, authoritative_lookup, cname_lookup, upstream_lookup,
}
use rr_dns.Resolver.Alias.Chased.{Chased}
use rr_dns.Resolver.HandleQuery.{
  Resolver, build_response, resolve_from_zone, check_blocklist, resolve_upstream, handle_query,
  noop_is_blocked,
}
use rr_dns.Resolver.HandleQuery.Aliases.{chase_by, with_aliases}
use rr_dns.Resolver.HandleQuery.Caching.{with_cache, handle_query-again}
use rr_dns.Tests.Sample.{no_suffix, address, alias, ask, unbounded, unbounded-LruLaws}

program : Unit {0}
unfolding bytes_eq trim_space is_space to_lower rrtype_is_valid rrclass_is_valid new_question
    should_chase chase chase_loop new_chase_state step follow advance current_head guard_depth
    guard_loop contains extract_target build_next_question resolve_next authoritative_lookup
    cname_lookup upstream_lookup
program = tt

-- Two aliases and an address.
abbrev zone : Question → Option (List ResourceRecord)
zone q =
    if bytes_eq q.name (codes "b") && q.rrtype == 5
    then some (alias (codes "b") (codes " c ") ∷ [])
    else if bytes_eq q.name (codes "c") && q.rrtype == 1
    then some (address (codes "c") none ∷ [])
    else none

abbrev chaser : AliasChaser
chaser = record { zone = some zone; up = none; now = λ n. n; max_depth = 8 }

abbrev first : List ResourceRecord
first = alias (codes "a") (codes "b") ∷ []

two_hops :
    chase 9 chaser (ask (codes "a")) first
    ≡ some (
      alias (codes "a") (codes "b")
          ∷ alias (codes "b") (codes " c ")
          ∷ address (codes "c") none
          ∷ [],
      none,
    )
unfolding program
two_hops = refl

too_deep :
    chase 9 (record chaser { max_depth = 1 }) (ask (codes "a")) first
    ≡ some (
      alias (codes "a") (codes "b") ∷ alias (codes "b") (codes " c ") ∷ [],
      some alias_depth_exceeded,
    )
unfolding program
too_deep = refl

abbrev circle : Question → Option (List ResourceRecord)
circle q = some (alias (codes "A") (codes "a") ∷ [])

self_loop :
    chase 9
      (record chaser { zone = some circle })
      (ask (codes "a"))
      (alias (codes "a") (codes "a") ∷ [])
    ≡ some (
      alias (codes "a") (codes "a") ∷ alias (codes "A") (codes "a") ∷ [],
      some alias_loop_detected,
    )
unfolding program
self_loop = refl

abbrev fetches : Resolver unbounded.State
fetches = record {
  blocklist = some noop_is_blocked;
  upstream = some (λ q now. ok (address q.name (some (now + 100)) ∷ []));
  upstream_cache = none;
  zone_cache = none;
  alias_resolver = none;
}

-- The same without an upstream.
abbrev offline : Resolver unbounded.State
offline = record fetches { upstream = none }

abbrev kept : ResourceRecord
kept = address (codes "a") (some 105)

same_key : Record.cache_key no_suffix kept ≡ Question.cache_key no_suffix (ask (codes "a"))
unfolding Record.cache_key Question.cache_key
same_key = refl

kept_lasts : ¬ IsPast 50 kept
kept_lasts (at, e, lt) = absurd (ground arith)

handle_query-again_example :
    ((handle_query no_suffix (with_cache no_suffix unbounded fetches 5) 5 [] (ask (codes "a"))).1
      ≡ build_response (ask (codes "a")) noerror (kept ∷ []))
    × ((handle_query no_suffix
          (with_cache no_suffix unbounded offline 50)
          50
          (handle_query no_suffix
            (with_cache no_suffix unbounded fetches 5)
            5
            []
            (ask (codes "a"))).0
          (ask (codes "a"))).1
        ≡ build_response (ask (codes "a")) noerror (kept ∷ []))
unfolding resolve_from_zone check_blocklist noop_is_blocked resolve_upstream same_keys lookup
handle_query-again_example =
    handle_query-again no_suffix unbounded unbounded-LruLaws fetches offline 5 50 []
      (ask (codes "a")) kept kept [] [] refl refl refl refl refl refl same_key refl
      (lasting kept [] [] kept_lasts all_seen)

-- A zone with the first alias for every question, and the rest of the chain.
abbrev aliases : Question → Option (List ResourceRecord)
aliases q = some first

abbrev aliased : Resolver (Assoc (List ResourceRecord))
aliased = with_aliases offline aliases (chase_by chaser)
