-- ===== src/Tests/Domain.antt =====
-- domain: codes, keys and records at concrete inputs.
use rr_dns.Prelude.{
  ℕ, ◌+◌, ◌-◌, ◌*◌, ◌<◌, [], ◌∷◌, none, some, true, false, ok, ◌≡◌, ◌↔◌, refl, arith,
}
use rr_dns.Prelude.Bytes.{codes}
use rr_dns.Names.{PublicSuffix, canonical_dns_name}
use rr_dns.Domain.Codes.{
  rrtype_is_valid, rrtype_string, rrtype_from_string, rrclass_is_valid, rrclass_string,
  parse_rrclass, rcode_is_valid, rcode_string, parse_rcode,
}
use rr_dns.Domain.Codes.Laws.{codes_round_trip}
use rr_dns.Domain.CacheKey.{generate_cache_key}
use rr_dns.Domain.CacheKey.Laws.{generate_cache_key-eq_iff}
use rr_dns.Domain.Record.{
  ResourceRecord, second, new_cached, new_authoritative, effective_ttl, is_expired,
  is_authoritative,
}
use rr_dns.Domain.Record.Expiry.{new_cached-countdown}

-- A public suffix list that knows no suffix.
abbrev no_suffix : PublicSuffix
no_suffix name = none

codes_round_trip_example :
    (rrtype_from_string (rrtype_string 28) ≡ 28)
    × (parse_rrclass (rrclass_string 254) ≡ 254)
    × (parse_rcode (rcode_string 3) ≡ 3)
unfolding rrtype_is_valid rrclass_is_valid rcode_is_valid
codes_round_trip_example = codes_round_trip 28 254 3 refl refl refl

unknown_type : rrtype_string 999 ≡ codes "UNKNOWN(999)"
unfolding rrtype_string rr_dns.Text.Decimal.decimal
unknown_type = refl

generate_cache_key-eq_iff_example :
    (generate_cache_key no_suffix (codes "A.com") 1 1
      ≡ generate_cache_key no_suffix (codes "a.com.") 28 1)
    ↔ ((canonical_dns_name (codes "A.com") ≡ canonical_dns_name (codes "a.com."))
        × (◌≡◌ {A = ℕ} 1 28)
        × (◌≡◌ {A = ℕ} 1 1))
unfolding rrtype_is_valid rrclass_is_valid
generate_cache_key-eq_iff_example =
    generate_cache_key-eq_iff no_suffix (λ b name apex e h. absurd (ground arith)) (codes "A.com")
      (codes "a.com.") 1 28 1 1 (omega arith) (omega arith) refl refl refl refl

abbrev an_address : ResourceRecord
an_address = record {
  name = codes "a.com";
  rrtype = 1;
  rrclass = 1;
  ttl = 300;
  expires_at = some (1000 + 300 * second);
  rdata = 10 ∷ 0 ∷ 0 ∷ 1 ∷ [];
  text = codes "10.0.0.1";
}

new_cached_runs :
    new_cached (codes "A.com.") 1 1 300 (10 ∷ 0 ∷ 0 ∷ 1 ∷ []) (codes "10.0.0.1") 1000
    ≡ ok an_address
unfolding new_cached canonical_dns_name rr_dns.Names.trim_dots rr_dns.Text.trim_space
    rr_dns.Text.to_lower rr_dns.Text.has_dot rr_dns.Text.trim_dot rr_dns.Text.is_space
    rrtype_is_valid rrclass_is_valid
new_cached_runs = refl

new_cached-countdown_example :
    (an_address.name ≡ canonical_dns_name (codes "A.com."))
    × (effective_ttl an_address 1000 ≡ 300)
    × (effective_ttl an_address (1000 + 7 * second) ≡ 300 - 7)
    × ((is_expired an_address (1000 + 7) ≡ true) ↔ (300 * second < 7))
    × (is_authoritative an_address ≡ false)
new_cached-countdown_example =
    new_cached-countdown (codes "A.com.") 1 1 300 (10 ∷ 0 ∷ 0 ∷ 1 ∷ []) (codes "10.0.0.1") 1000 7
      (omega arith) new_cached_runs

abbrev a_zone_record : ResourceRecord
a_zone_record = record an_address { expires_at = none }

new_authoritative_runs :
    new_authoritative (codes "A.com.") 1 1 300 (10 ∷ 0 ∷ 0 ∷ 1 ∷ []) (codes "10.0.0.1")
    ≡ ok a_zone_record
unfolding new_authoritative canonical_dns_name rr_dns.Names.trim_dots rr_dns.Text.trim_space
    rr_dns.Text.to_lower rr_dns.Text.has_dot rr_dns.Text.trim_dot rr_dns.Text.is_space
    rrtype_is_valid rrclass_is_valid
new_authoritative_runs = refl
