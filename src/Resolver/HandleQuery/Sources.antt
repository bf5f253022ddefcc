-- ===== src/Resolver/HandleQuery/Sources.antt =====
-- Where an answer comes from, and what a response can look like.
use rr_dns.Prelude.{
  ℕ, List, [], true, false, Bool-cases, Option-cases, Result-cases, inl, inr, Option, none, some,
  ok, err, Error, ◌≡◌, refl,
}
use rr_dns.Names.{PublicSuffix}
use rr_dns.Domain.Codes.{noerror, servfail, nxdomain}
use rr_dns.Domain.Question.{Question}
use rr_dns.Domain.Record.{ResourceRecord}
use rr_dns.Domain.Response.{DnsResponse}
use rr_dns.Resolver.HandleQuery.{
  Resolver, is_fatal_alias_error, build_response, resolve_from_zone, check_blocklist,
  check_upstream_cache, resolve_upstream, cache_upstream_response, ask_upstream, after_cache,
  handle_query,
}

module _ {S : Type 0} (psl : PublicSuffix) (r : Resolver S) (now : ℕ) (s : S) (q : Question) where
  -- The six ways in which a query is answered, in the order in which they are tried. Each names the
  -- sources before it that had nothing.
  pub data Source (o : S × DnsResponse) : Type 0 where
    from_zone :
        (records : List ResourceRecord) (e : Option Error)
        → resolve_from_zone r q ≡ some (records, e)
        → is_fatal_alias_error e ≡ false
        → o ≡ (s, build_response q noerror records)
        → Source o
    alias_failure :
        (records : List ResourceRecord) (e : Option Error)
        → resolve_from_zone r q ≡ some (records, e)
        → is_fatal_alias_error e ≡ true
        → o ≡ (s, build_response q servfail [])
        → Source o
    blocked :
        resolve_from_zone r q ≡ none
        → check_blocklist r q ≡ true
        → o ≡ (s, build_response q nxdomain [])
        → Source o
    cached :
        (s' : S) (records : List ResourceRecord)
        → resolve_from_zone r q ≡ none
        → check_blocklist r q ≡ false
        → check_upstream_cache psl r s q ≡ (s', some records)
        → o ≡ (s', build_response q noerror records)
        → Source o
    upstream_failure :
        (s' : S) (e : Error)
        → resolve_from_zone r q ≡ none
        → check_blocklist r q ≡ false
        → check_upstream_cache psl r s q ≡ (s', none)
        → resolve_upstream r now q ≡ err e
        → o ≡ (s', build_response q servfail [])
        → Source o
    fetched :
        (s' : S) (records : List ResourceRecord)
        → resolve_from_zone r q ≡ none
        → check_blocklist r q ≡ false
        → check_upstream_cache psl r s q ≡ (s', none)
        → resolve_upstream r now q ≡ ok records
        → o ≡ (cache_upstream_response r s' records, build_response q noerror records)
        → Source o

  pub handle_query_later :
      resolve_from_zone r q ≡ none
      → check_blocklist r q ≡ false
      → handle_query psl r now s q ≡ after_cache r now q (check_upstream_cache psl r s q)
  unfolding handle_query
  handle_query_later z b = rw (z, handle_query) (rw b)

  pub ask_upstream_ok :
      (s' : S) {records : List ResourceRecord}
      → resolve_upstream r now q ≡ ok records
      → ask_upstream r now s' q
        ≡ (cache_upstream_response r s' records, build_response q noerror records)
  unfolding ask_upstream
  ask_upstream_ok s' e = rw (e, ask_upstream)

  ask_upstream_err :
      (s' : S) {e : Error}
      → resolve_upstream r now q ≡ err e
      → ask_upstream r now s' q ≡ (s', build_response q servfail [])
  unfolding ask_upstream
  ask_upstream_err s' e = rw (e, ask_upstream)

  after_cache-Source :
      resolve_from_zone r q ≡ none
      → check_blocklist r q ≡ false
      → (found : S × Option (List ResourceRecord)) → check_upstream_cache psl r s q ≡ found
      → Source (after_cache r now q found)
  unfolding after_cache
  after_cache-Source z b (s', some records) c = cached s' records z b c refl
  after_cache-Source z b (s', none) c = elim (Result-cases (resolve_upstream r now q)) [
    | inl (records, e) ↦ fetched s' records z b c e (ask_upstream_ok s' e)
    | inr (x, e) ↦ upstream_failure s' x z b c e (ask_upstream_err s' e)
  ]

  -- Every query is answered in exactly the order of the source: a zone answer first (SERVFAIL
  -- without records if its alias chase exceeded the depth or met a loop), then the blocklist
  -- (NXDOMAIN), then the cache, then the upstream (SERVFAIL if it fails). A source is asked only if
  -- those before it had nothing, and only the last two change the cache.
  pub handle_query-Source : Source (handle_query psl r now s q)
  unfolding handle_query
  handle_query-Source = elim (Option-cases (resolve_from_zone r q)) [
    | inr ((records, e), z) ↦ elim (Bool-cases (is_fatal_alias_error e)) [
      | inl fatal ↦ alias_failure records e z fatal (rw (z, handle_query) (rw fatal))
      | inr mild ↦ from_zone records e z mild (rw (z, handle_query) (rw mild))
    ]
    | inl z ↦ elim (Bool-cases (check_blocklist r q)) [
      | inl b ↦ blocked z b (rw (z, handle_query) (rw b))
      | inr b ↦ rw (handle_query_later z b) (after_cache-Source z b _ refl)
    ]
  ]
