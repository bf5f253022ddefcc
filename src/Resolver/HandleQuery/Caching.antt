-- ===== src/Resolver/HandleQuery/Caching.antt =====
-- `HandleQuery` over the cache of dnscache.go: an answer that was fetched once is served again.
use rr_dns.Prelude.{ℕ, List, ◌∷◌, true, false, Option, none, some, ok, ◌≡◌, refl, arith, ◌∙◌, ap}
use rr_dns.Prelude.Bytes.{Bytes}
use rr_dns.Names.{PublicSuffix}
use rr_dns.Domain.Codes.{noerror}
use rr_dns.Domain.Question
use rr_dns.Domain.Question.{Question}
use rr_dns.Domain.Record
use rr_dns.Domain.Record.{ResourceRecord}
use rr_dns.Caches.Lru.{Lru, LruLaws}
use rr_dns.Caches.Dns
use rr_dns.Caches.Dns.{same_keys}
use rr_dns.Caches.Zone.Laws.{some_if_any}
use rr_dns.Caches.Dns.Laws.{fresh, get-Reads, get-set_fresh}
use rr_dns.Caches.Dns.Unexpired.{Unexpired, Unexpired-valid_records}
use rr_dns.Resolver.HandleQuery.Sources.{handle_query_later, ask_upstream_ok}
use rr_dns.Resolver.HandleQuery.{
  Cache, Resolver, build_response, resolve_from_zone, check_blocklist, check_upstream_cache,
  resolve_upstream, cache_upstream_response, ask_upstream, after_cache, handle_query,
}

module _ (psl : PublicSuffix) (lru : Lru (List ResourceRecord)) where
  open lru use {State, peek}

  -- `*dnsCache` as the resolver's `Cache`; its `Get` reads the clock, at `now`.
  unfoldable pub dns_cache : ℕ → Cache State
  dns_cache now = record {
    get = λ s key. Dns.get lru s key now;
    set = λ s records. Dns.set psl lru s records;
  }

  -- The resolver with that cache.
  unfoldable pub with_cache : Resolver State → ℕ → Resolver State
  with_cache r now = record r { upstream_cache = some (dns_cache now) }

  with_cache-zone :
      (r : Resolver State) (now : ℕ) (q : Question)
      → resolve_from_zone (with_cache r now) q ≡ resolve_from_zone r q
  unfolding with_cache resolve_from_zone
  with_cache-zone r now q = refl

  with_cache-blocklist :
      (r : Resolver State) (now : ℕ) (q : Question)
      → check_blocklist (with_cache r now) q ≡ check_blocklist r q
  unfolding with_cache check_blocklist
  with_cache-blocklist r now q = refl

  with_cache-upstream :
      (r : Resolver State) (now at : ℕ) (q : Question)
      → resolve_upstream (with_cache r now) at q ≡ resolve_upstream r at q
  unfolding with_cache resolve_upstream
  with_cache-upstream r now at q = refl

  with_cache-get :
      (r : Resolver State) (now : ℕ) (s : State) (q : Question)
      → check_upstream_cache psl (with_cache r now) s q
        ≡ Dns.get lru s (Question.cache_key psl q) now
  unfolding with_cache check_upstream_cache dns_cache
  with_cache-get r now s q = refl

  with_cache-set :
      (r : Resolver State) (now : ℕ) (s : State) (records : List ResourceRecord)
      → cache_upstream_response (with_cache r now) s records ≡ (Dns.set psl lru s records).0
  unfolding with_cache cache_upstream_response dns_cache
  with_cache-set r now s records = refl

  -- A cache that finds nothing hands the query on; one that finds records answers it.
  after_cache_miss :
      (r : Resolver State) (now : ℕ) (q : Question) (found : State × Option (List ResourceRecord))
      → found.1 ≡ none
      → after_cache r now q found ≡ ask_upstream r now found.0 q
  unfolding after_cache
  after_cache_miss r now q (s, none) e = refl
  after_cache_miss r now q (s, some records) e = absurd (ground arith)

  after_cache_hit :
      (r : Resolver State) (now : ℕ) (q : Question) (found : State × Option (List ResourceRecord))
      (records : List ResourceRecord)
      → found.1 ≡ some records
      → (after_cache r now q found).1 ≡ build_response q noerror records
  unfolding after_cache
  after_cache_hit r now q (s, none) records e = absurd (ground arith)
  after_cache_hit r now q (s, some rrs) records e = ground arith

  module _ (laws : LruLaws (List ResourceRecord) lru) where
    -- A query that neither the zones nor the blocklist answer, and for which the cache holds
    -- nothing, is fetched from the upstream. If the records all have the query's cache key, then at
    -- a later moment at which some of them have not expired (no expiry, or none before that moment),
    -- the same query is answered with exactly those in their order, whatever the upstream is by then.
    pub handle_query-again :
        (r r' : Resolver State) (now later : ℕ) (s : State) (q : Question)
        (rr kept : ResourceRecord) (rrs rest : List ResourceRecord)
        → resolve_from_zone r q ≡ none
        → check_blocklist r q ≡ false
        → resolve_from_zone r' q ≡ none
        → check_blocklist r' q ≡ false
        → peek s (Question.cache_key psl q) ≡ none
        → resolve_upstream r now q ≡ ok (rr ∷ rrs)
        → Record.cache_key psl rr ≡ Question.cache_key psl q
        → same_keys psl (Record.cache_key psl rr) rrs ≡ true
        → Unexpired later (rr ∷ rrs) (kept ∷ rest)
        → ((handle_query psl (with_cache r now) now s q).1 ≡ build_response q noerror (rr ∷ rrs))
          × ((handle_query psl
                (with_cache r' later)
                later
                (handle_query psl (with_cache r now) now s q).0
                q).1
              ≡ build_response q noerror (kept ∷ rest))
    handle_query-again r r' now later s q rr kept rrs rest z b z' b' miss fetched key same valid =
        (rw first, rw first served)
      where
        k : Bytes
        k = Question.cache_key psl q

        s' : State
        s' = (Dns.get lru s k now).0

        first :
            handle_query psl (with_cache r now) now s q
            ≡ ((Dns.set psl lru s' (rr ∷ rrs)).0, build_response q noerror (rr ∷ rrs))
        first =
            handle_query_later psl (with_cache r now) now s q (with_cache-zone r now q ∙ z)
              (with_cache-blocklist r now q ∙ b)
            ∙ after_cache_miss (with_cache r now) now q _ (
                rw (with_cache-get r now s q)
                  ((get-Reads lru laws s k now).0 ∙ ap (fresh now) miss))
            ∙ ask_upstream_ok psl (with_cache r now) now s q _
                (with_cache-upstream r now now q ∙ fetched)
            ∙ rw (with_cache-get r now s q, with_cache-set r now s' (rr ∷ rrs))

        served :
            (handle_query psl (with_cache r' later) later (Dns.set psl lru s' (rr ∷ rrs)).0 q).1
            ≡ build_response q noerror (kept ∷ rest)
        served =
            ap (λ o. o.1)
              (handle_query_later psl (with_cache r' later) later (Dns.set psl lru s' (rr ∷ rrs)).0
                q (with_cache-zone r' later q ∙ z') (with_cache-blocklist r' later q ∙ b'))
            ∙ after_cache_hit (with_cache r' later) later q _ (kept ∷ rest) (
                rw (with_cache-get r' later _ q) (
                  rw (← key) (
                    get-set_fresh lru laws psl s' rr rrs later same
                    ∙ ap some_if_any (Unexpired-valid_records later valid))))
