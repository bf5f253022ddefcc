-- ===== src/Caches/Zone/Laws.antt =====
-- What a lookup finds after a zone was put or removed.
use rr_dns.Prelude.{
  List, [], ◌∷◌, ◌++◌, append_assoc, append-nil, Option, none, some, Bool-cases, inl, inr,
  if◌then◌else◌, ◌≡◌, refl, sym, ap, ◌∙◌, arith,
}
use rr_dns.Prelude.Bytes.{Bytes, bytes_eq, bytes_eq_iff}
use rr_dns.Prelude.Assoc.{lookup, insert, lookup-insert, lookup-delete}
use rr_dns.Names.{PublicSuffix, canonical_dns_name, get_apex_domain}
use rr_dns.Domain.Question
use rr_dns.Domain.Question.{Question}
use rr_dns.Domain.Record
use rr_dns.Domain.Record.{ResourceRecord}
use rr_dns.Caches.Zone.{ZoneMap, ZoneCache, records_at, find_records, group, put_zone, remove_zone}

-- The records, or nothing if there are none.
abbrev pub some_if_any : List ResourceRecord → Option (List ResourceRecord)
some_if_any [] = none
some_if_any (rr ∷ rrs) = some (rr ∷ rrs)

empty_map : (key : Bytes) → lookup {V = List ResourceRecord} key [] ≡ none
unfolding lookup
empty_map key = refl

module _ (psl : PublicSuffix) where
  -- The records with the key, in the order of the list.
  unfoldable pub matching : Bytes → List ResourceRecord → List ResourceRecord
  matching key [] = []
  matching key (rr ∷ rrs) =
      if bytes_eq (Record.cache_key psl rr) key then rr ∷ matching key rrs else matching key rrs

  -- No key of the map has an empty list.
  abbrev IsFull : ZoneMap → Type 0
  IsFull m = (key : Bytes) → lookup key m ≡ some_if_any (records_at key m)

  some_if_any-snoc :
      (rrs : List ResourceRecord) (rr : ResourceRecord)
      → some_if_any (rrs ++ rr ∷ []) ≡ some (rrs ++ rr ∷ [])
  some_if_any-snoc [] rr = refl
  some_if_any-snoc (r ∷ rrs) rr = refl

  -- One round of the grouping loop.
  abbrev added : ResourceRecord → ZoneMap → ZoneMap
  added rr m =
      insert (Record.cache_key psl rr) (records_at (Record.cache_key psl rr) m ++ rr ∷ []) m

  records_at-added :
      (rr : ResourceRecord) (m : ZoneMap) (key : Bytes)
      → records_at key (added rr m) ≡ records_at key m ++ matching key (rr ∷ [])
  unfolding matching
  records_at-added rr m key = elim (Bool-cases (bytes_eq (Record.cache_key psl rr) key)) [
    | inl e ↦ ground (
      arith,
      lookup-insert (Record.cache_key psl rr) key
          (records_at (Record.cache_key psl rr) m ++ rr ∷ []) m,
      bytes_eq_iff (Record.cache_key psl rr) key,
    )
    | inr e ↦ ground (
      arith,
      lookup-insert (Record.cache_key psl rr) key
          (records_at (Record.cache_key psl rr) m ++ rr ∷ []) m,
      bytes_eq_iff (Record.cache_key psl rr) key,
      append-nil (records_at key m),
    )
  ]

  added-IsFull : (rr : ResourceRecord) (m : ZoneMap) → IsFull m → IsFull (added rr m)
  added-IsFull rr m full key = elim (Bool-cases (bytes_eq (Record.cache_key psl rr) key)) [
    | inl e ↦ ground (
      arith,
      lookup-insert (Record.cache_key psl rr) key
          (records_at (Record.cache_key psl rr) m ++ rr ∷ []) m,
      bytes_eq_iff (Record.cache_key psl rr) key,
      some_if_any-snoc (records_at (Record.cache_key psl rr) m) rr,
    )
    | inr e ↦ ground (
      arith,
      lookup-insert (Record.cache_key psl rr) key
          (records_at (Record.cache_key psl rr) m ++ rr ∷ []) m,
      bytes_eq_iff (Record.cache_key psl rr) key,
      full key,
    )
  ]

  matching-cons :
      (key : Bytes) (rr : ResourceRecord) (rrs : List ResourceRecord)
      → matching key (rr ∷ rrs) ≡ matching key (rr ∷ []) ++ matching key rrs
  unfolding matching
  matching-cons key rr rrs = ground arith

  lookup-group :
      (rrs : List ResourceRecord) (m : ZoneMap) (key : Bytes)
      → IsFull m
      → lookup key (group psl rrs m) ≡ some_if_any (records_at key m ++ matching key rrs)
  unfolding group
  lookup-group [] m key full =
      full key ∙ unfold matching in ap some_if_any (sym (append-nil (records_at key m)))
  lookup-group (rr ∷ rrs) m key full =
      lookup-group rrs (added rr m) key (added-IsFull rr m full)
      ∙ ap some_if_any (rw (records_at-added rr m key, append_assoc, ← matching-cons key rr rrs))

  -- After a zone is put, a question whose registrable domain is the canonical root of the zone finds
  -- exactly the given records that have its cache key, in their order, or nothing if there is none;
  -- what the zone held before is gone. Every other question finds what it found before.
  pub find_records-put_zone :
      (root : Bytes) (rrs : List ResourceRecord) (zc : ZoneCache) (q : Question)
      → find_records psl (put_zone psl root rrs zc) q ≡ (
          if bytes_eq (canonical_dns_name root) (get_apex_domain psl (canonical_dns_name q.name))
          then some_if_any (matching (Question.cache_key psl q) rrs)
          else find_records psl zc q)
  unfolding find_records put_zone
  find_records-put_zone root rrs zc q = ground (
    arith,
    lookup-insert (canonical_dns_name root) (get_apex_domain psl (canonical_dns_name q.name))
        (group psl rrs []) zc,
    lookup-group rrs [] (Question.cache_key psl q) (λ k. unfold lookup in refl),
    empty_map (Question.cache_key psl q),
  )

  -- After a zone is removed, a question under its canonical root finds nothing, and every other
  -- question finds what it found before.
  pub find_records-remove_zone :
      (root : Bytes) (zc : ZoneCache) (q : Question)
      → find_records psl (remove_zone root zc) q ≡ (
          if bytes_eq (canonical_dns_name root) (get_apex_domain psl (canonical_dns_name q.name))
          then none
          else find_records psl zc q)
  unfolding find_records remove_zone
  find_records-remove_zone root zc q = ground (
    arith,
    lookup-delete (canonical_dns_name root) (get_apex_domain psl (canonical_dns_name q.name)) zc,
  )
