-- ===== src/Caches/Zone.antt =====
-- zonecache/zonecache.go: zone root → cache key → records. Each operation holds the lock for its
-- whole length, so operations are functions on the map.
pub mod Laws
pub mod Refinement
use rr_dns.Prelude.{ℕ, ◌+◌, List, [], ◌∷◌, ◌++◌, Option, none, some, length}
use rr_dns.Prelude.Bytes.{Bytes}
use rr_dns.Prelude.Assoc.{Assoc, lookup, insert, delete}
use rr_dns.Names.{PublicSuffix, canonical_dns_name, get_apex_domain}
use rr_dns.Domain.Question
use rr_dns.Domain.Question.{Question}
use rr_dns.Domain.Record
use rr_dns.Domain.Record.{ResourceRecord}

abbrev pub ZoneMap : Type 0
ZoneMap = Assoc (List ResourceRecord)

abbrev pub ZoneCache : Type 0
ZoneCache = Assoc ZoneMap

abbrev pub new : ZoneCache
new = []

-- A missing key reads as Go's nil slice.
abbrev pub records_at : Bytes → ZoneMap → List ResourceRecord
records_at key m = elim (lookup key m) [ none ↦ [] | some rrs ↦ rrs ]

module _ (psl : PublicSuffix) where
  unfoldable pub find_records : ZoneCache → Question → Option (List ResourceRecord)
  find_records zc q =
      let zone = get_apex_domain psl (canonical_dns_name q.name) in
      elim (lookup zone zc) [
        | none ↦ none
        | some records ↦ lookup (Question.cache_key psl q) records
      ]

  -- The loop that groups the records by their cache key.
  unfoldable pub group : List ResourceRecord → ZoneMap → ZoneMap
  group [] m = m
  group (rr ∷ rrs) m =
      let key = Record.cache_key psl rr in group rrs (insert key (records_at key m ++ rr ∷ []) m)

  unfoldable pub put_zone : Bytes → List ResourceRecord → ZoneCache → ZoneCache
  unfolding group
  put_zone root records zc = insert (canonical_dns_name root) (group records []) zc

unfoldable pub remove_zone : Bytes → ZoneCache → ZoneCache
remove_zone root zc = delete (canonical_dns_name root) zc

-- In the order of the list; Go's order is arbitrary.
unfoldable pub zones : ZoneCache → List Bytes
zones [] = []
zones ((root, _) ∷ zc) = root ∷ zones zc

unfoldable pub count : ZoneCache → ℕ
count [] = 0
count ((_, zone) ∷ zc) = length zone + count zc
