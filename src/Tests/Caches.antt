-- ===== src/Tests/Caches.antt =====
-- The caches at concrete inputs.
use rr_dns.Prelude.{
  ℕ, ◌+◌, ◌*◌, List, [], ◌∷◌, Option, none, some, Bool, true, false, if◌then◌else◌, ◌≡◌, refl,
  arith,
}
use rr_dns.Prelude.Bytes.{Bytes, codes, bytes_eq, bytes_eq_refl}
use rr_dns.Names.{canonical_dns_name, trim_dots}
use rr_dns.Domain.Record
use rr_dns.Domain.Record.{ResourceRecord, second}
use rr_dns.Caches.Zone
use rr_dns.Caches.Zone.Refinement.{
  Command, put, remove, no_zones, all_changed, apply_all, Implements, apply_all-Implements,
}
use rr_dns.Text.{is_space, lower, to_lower, trim_left, trim_right, trim_space, has_dot, trim_dot}
use rr_dns.Caches.Dns
use rr_dns.Caches.Dns.{valid_records, same_keys}
use rr_dns.Caches.Dns.Laws.{get-fresh, get-set}
use rr_dns.Caches.Dns.Unexpired.{Readable}
use rr_dns.Tests.Sample.{no_suffix, address, unbounded, unbounded-LruLaws}

abbrev a_com : Bytes
a_com = codes "a.com"

abbrev host : ResourceRecord
host = address a_com none

-- A zone is put, put again in another spelling, and another one is put and removed.
abbrev commands : List Command
commands =
    put a_com []
    ∷ put (codes "A.com.") (host ∷ [])
    ∷ put (codes "b.com") (host ∷ [])
    ∷ remove (codes "B.com")
    ∷ []

apply_all-Implements_example :
    Implements no_suffix (apply_all no_suffix commands Zone.new) (all_changed commands no_zones)
apply_all-Implements_example = apply_all-Implements no_suffix commands

-- The zones that are left.
left :
    (all_changed commands no_zones a_com ≡ some (host ∷ []))
    × (all_changed commands no_zones (codes "b.com") ≡ none)
unfolding canonical_dns_name trim_dots to_lower lower trim_space trim_left trim_right is_space
    trim_dot has_dot bytes_eq
left = (refl, refl)

-- Two records under one key, one of which lives longer.
abbrev short : ResourceRecord
short = address a_com (some 100)

abbrev long : ResourceRecord
long = address a_com (some 900)

get-fresh_example :
    Readable 500
      (some (short ∷ long ∷ []))
      (Dns.get unbounded ((a_com, short ∷ long ∷ []) ∷ []) a_com 500).1
    × (rr_dns.Prelude.Assoc.lookup
          (codes "b")
          (Dns.get unbounded ((a_com, short ∷ long ∷ []) ∷ []) a_com 500).0
        ≡ none)
unfolding rr_dns.Prelude.Assoc.lookup bytes_eq
get-fresh_example =
    get-fresh unbounded unbounded-LruLaws ((a_com, short ∷ long ∷ []) ∷ []) a_com (codes "b") 500

long_is_left : valid_records 500 (short ∷ long ∷ []) ≡ long ∷ []
unfolding valid_records Record.is_expired
long_is_left = refl

same_key : same_keys no_suffix (Record.cache_key no_suffix short) (long ∷ []) ≡ true
unfolding same_keys Record.cache_key
same_key = rw (bytes_eq_refl (Record.cache_key no_suffix short))

get-set_example :
    Readable 500
      (some (short ∷ long ∷ []))
      (Dns.get unbounded
        (Dns.set no_suffix unbounded [] (short ∷ long ∷ [])).0
        (Record.cache_key no_suffix short)
        500).1
get-set_example = get-set unbounded unbounded-LruLaws no_suffix [] short (long ∷ []) 500 same_key
