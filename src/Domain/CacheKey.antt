-- ===== src/Domain/CacheKey.antt =====
-- domain/utils.go: `GenerateCacheKey`, "apex|name|type|class".
pub mod Laws
use rr_dns.Prelude.{ℕ, ◌∷◌, ◌++◌}
use rr_dns.Prelude.Bytes.{Bytes}
use rr_dns.Names.{PublicSuffix, canonical_dns_name, get_apex_domain}
use rr_dns.Domain.Codes.{RrType, RrClass, rrtype_string, rrclass_string}

abbrev pub pipe : ℕ
pipe = b'|'

unfoldable pub generate_cache_key : PublicSuffix → Bytes → RrType → RrClass → Bytes
generate_cache_key psl name t c =
    let canonical = canonical_dns_name name in
    get_apex_domain psl canonical
    ++ (pipe ∷ (canonical ++ (pipe ∷ (rrtype_string t ++ (pipe ∷ rrclass_string c)))))
