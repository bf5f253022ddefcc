-- ===== src/Tests/Names.antt =====
-- utils: names at concrete inputs.
use rr_dns.Prelude.{◌++◌, [], ◌∷◌, ◌≡◌, refl}
use rr_dns.Prelude.Bytes.{codes}
use rr_dns.Text.{dot, upper, map_bytes, trim_space, is_space, to_lower, has_dot, trim_dot}
use rr_dns.Names.{canonical_dns_name, trim_dots}
use rr_dns.Names.Canonical.{
  IsCanonical, canonical_dns_name-IsCanonical, canonical_dns_name-upper-dot,
}

runs : canonical_dns_name (codes " WWW.Example.COM.. ") ≡ codes "www.example.com"
unfolding canonical_dns_name trim_dots trim_space to_lower has_dot trim_dot is_space
runs = refl

canonical_dns_name-IsCanonical_example : IsCanonical (canonical_dns_name (codes " Example.COM. "))
canonical_dns_name-IsCanonical_example = canonical_dns_name-IsCanonical (codes " Example.COM. ")

canonical_dns_name-upper-dot_example :
    (canonical_dns_name (map_bytes upper (codes "a.b")) ≡ canonical_dns_name (codes "a.b"))
    × (canonical_dns_name (codes "a.b" ++ dot ∷ []) ≡ canonical_dns_name (codes "a.b"))
unfolding is_space
canonical_dns_name-upper-dot_example =
    canonical_dns_name-upper-dot (codes "a.b") (refl, (refl, (refl, tt)))
