-- ===== src/Caches/Zone/Refinement.antt =====
-- The zone cache against what it promises: a zone of records for each root that was put and not
-- removed since.
use rr_dns.Prelude.{
  List, [], ◌∷◌, Bool, true, false, ◌||◌, Option, none, some, if◌then◌else◌, ◌≡◌, refl, ◌∙◌, arith,
}
use rr_dns.Prelude.Bytes.{Bytes, bytes_eq}
use rr_dns.Prelude.Assoc.{lookup, lookup-insert, lookup-delete}
use rr_dns.Names.{PublicSuffix, canonical_dns_name, get_apex_domain}
use rr_dns.Domain.Question
use rr_dns.Domain.Question.{Question}
use rr_dns.Domain.Record.{ResourceRecord}
use rr_dns.Caches.Zone.{ZoneCache, new, find_records, group, put_zone, remove_zone, zones}
use rr_dns.Caches.Zone.Laws.{some_if_any, matching, find_records-put_zone, find_records-remove_zone}

-- The operations that change the cache.
pub data Command : Type 0 where
  put : Bytes → List ResourceRecord → Command
  remove : Bytes → Command

-- The records of each zone, by its canonical root.
abbrev pub Zones : Type 0
Zones = Bytes → Option (List ResourceRecord)

abbrev pub no_zones : Zones
no_zones apex = none

-- What a command does to the zones: it is a function on them.
abbrev pub changed : Command → Zones → Zones
changed (put root rrs) held apex =
    if bytes_eq (canonical_dns_name root) apex then some rrs else held apex
changed (remove root) held apex =
    if bytes_eq (canonical_dns_name root) apex then none else held apex

abbrev pub all_changed : List Command → Zones → Zones
all_changed [] held = held
all_changed (c ∷ cs) held = all_changed cs (changed c held)

-- The records of a zone, if there is one, that have the cache key of a question.
abbrev pub shown :
    PublicSuffix → Question → Option (List ResourceRecord) → Option (List ResourceRecord)
shown psl q none = none
shown psl q (some rrs) = some_if_any (matching psl (Question.cache_key psl q) rrs)

abbrev pub is_listed : Bytes → List Bytes → Bool
is_listed root [] = false
is_listed root (r ∷ roots) = bytes_eq r root || is_listed root roots

abbrev pub is_some : {A : Type 0} → Option A → Bool
is_some none = false
is_some (some x) = true

is_listed-zones :
    (apex : Bytes) (zc : ZoneCache) → is_listed apex (zones zc) ≡ is_some (lookup apex zc)
unfolding zones lookup
is_listed-zones apex [] = refl
is_listed-zones apex ((root, m) ∷ zc) = ground (arith, is_listed-zones apex zc)

module _ (psl : PublicSuffix) where
  unfoldable pub apply : Command → ZoneCache → ZoneCache
  apply (put root rrs) zc = put_zone psl root rrs zc
  apply (remove root) zc = remove_zone root zc

  unfoldable pub apply_all : List Command → ZoneCache → ZoneCache
  unfolding apply
  apply_all [] zc = zc
  apply_all (c ∷ cs) zc = apply_all cs (apply c zc)

  -- The cache answers questions and lists its roots as the zones prescribe.
  pub record Implements (zc : ZoneCache) (held : Zones) : Type 0 where
    pub finds :
        (q : Question)
        → find_records psl zc q
          ≡ shown psl q (held (get_apex_domain psl (canonical_dns_name q.name)))
    pub lists : (apex : Bytes) → is_listed apex (zones zc) ≡ is_some (held apex)

  put-Implements :
      (root : Bytes) (rrs : List ResourceRecord) (zc : ZoneCache) (held : Zones)
      → Implements zc held
      → Implements (put_zone psl root rrs zc) (changed (put root rrs) held)
  put-Implements root rrs zc held h = record {
    finds = λ q. find_records-put_zone psl root rrs zc q ∙ ground (arith, h.finds q);
    lists = λ apex. is_listed-zones apex (put_zone psl root rrs zc) ∙ put_listed apex;
  }
    where
      put_listed :
          (apex : Bytes)
          → is_some (lookup apex (put_zone psl root rrs zc))
            ≡ is_some (changed (put root rrs) held apex)
      put_listed apex =
          unfold put_zone in
          ground (
            arith,
            lookup-insert (canonical_dns_name root) apex (group psl rrs []) zc,
            is_listed-zones apex zc,
            h.lists apex,
          )

  remove-Implements :
      (root : Bytes) (zc : ZoneCache) (held : Zones)
      → Implements zc held
      → Implements (remove_zone root zc) (changed (remove root) held)
  remove-Implements root zc held h = record {
    finds = λ q. find_records-remove_zone psl root zc q ∙ ground (arith, h.finds q);
    lists = λ apex. is_listed-zones apex (remove_zone root zc) ∙ remove_listed apex;
  }
    where
      remove_listed :
          (apex : Bytes)
          → is_some (lookup apex (remove_zone root zc)) ≡ is_some (changed (remove root) held apex)
      remove_listed apex =
          unfold remove_zone in
          ground (
            arith,
            lookup-delete (canonical_dns_name root) apex zc,
            is_listed-zones apex zc,
            h.lists apex,
          )

  apply-Implements :
      (c : Command) (zc : ZoneCache) (held : Zones)
      → Implements zc held
      → Implements (apply c zc) (changed c held)
  unfolding apply
  apply-Implements (put root rrs) zc held h = put-Implements root rrs zc held h
  apply-Implements (remove root) zc held h = remove-Implements root zc held h

  apply_all-Implements_from :
      (cs : List Command) (zc : ZoneCache) (held : Zones)
      → Implements zc held
      → Implements (apply_all cs zc) (all_changed cs held)
  unfolding apply_all
  apply_all-Implements_from [] zc held h = h
  apply_all-Implements_from (c ∷ cs) zc held h =
      apply_all-Implements_from cs (apply c zc) (changed c held) (apply-Implements c zc held h)

  new-Implements : Implements new no_zones
  unfolding find_records zones lookup
  new-Implements = record { finds = λ q. refl; lists = λ apex. refl }

  -- After any sequence of `PutZone` and `RemoveZone` on a new cache, a question finds exactly those
  -- records of the zone last put under its registrable domain that have its cache key, in their order, or
  -- nothing if there are none or the zone was removed since; and a root is listed exactly if a zone was
  -- put under it, in any spelling with its canonical form, and not removed since.
  pub apply_all-Implements :
      (cs : List Command) → Implements (apply_all cs new) (all_changed cs no_zones)
  apply_all-Implements cs = apply_all-Implements_from cs new no_zones new-Implements
