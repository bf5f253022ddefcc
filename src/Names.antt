-- ===== src/Names.antt =====
-- internal/dns/common/utils: `CanonicalDNSName` and `GetApexDomain`.
-- The public suffix list (golang.org/x/net/publicsuffix) is a parameter: `EffectiveTLDPlusOne` is a
-- function from a name to the registrable domain, or to nothing when it returns an error.
pub mod Canonical
use rr_dns.Prelude.{ℕ, zero, suc, List, Option, none, some, if◌then◌else◌, length}
use rr_dns.Prelude.Bytes.{Bytes}
use rr_dns.Text.{trim_space, to_lower, has_dot, trim_dot}

abbrev pub PublicSuffix : Type 0
PublicSuffix = Bytes → Option Bytes

-- `for strings.HasSuffix(name, ".") { name = strings.TrimSuffix(name, ".") }`, on fuel.
unfoldable pub trim_dots : ℕ → Bytes → Bytes
trim_dots zero s = s
trim_dots (suc f) s = let rest = trim_dots f (trim_dot s) in if has_dot s then rest else s

-- A round removes a byte, so the length is enough fuel.
unfoldable pub canonical_dns_name : Bytes → Bytes
canonical_dns_name name =
    let lowered = to_lower (trim_space name) in trim_dots (length lowered) lowered

unfoldable pub get_apex_domain : PublicSuffix → Bytes → Bytes
get_apex_domain effective_tld_plus_one name =
    let canonical = canonical_dns_name name in
    elim (effective_tld_plus_one canonical) [ none ↦ canonical | some apex ↦ apex ]
