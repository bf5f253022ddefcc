-- ===== src/ZoneFiles/Directory.antt =====
-- What the files of a directory make.
use mathlib.Core.Path.{subst}
use rr_dns.Prelude.{
  ℕ, List, [], ◌∷◌, ◌++◌, is_empty, Bool-cases, false, some, Option-cases, Result, ok, err, ◌>>=◌,
  >>=-eq-ok, ok_injective, wrap_err, All, All-append, ◌≡◌, refl, inl, inr, arith, zone_file_failed,
  zone_record_invalid, Error, ap,
}
use rr_dns.Prelude.Bytes.{Bytes, bytes_eq, codes}
use rr_dns.Prelude.Assoc.{Assoc, lookup, insert}
use rr_dns.Names.{canonical_dns_name}
use rr_dns.Domain.Record.{ResourceRecord}
use rr_dns.ZoneFiles.{
  Value, Entry, Parsed, Load, Walked, scalar, section, failed, directory, regular, expand_name,
  to_string_values, build_resource_record, section_records, entry_records, parsed_records,
  is_zone_file, load_zone_file_with_root, add_zone, walk, load_zone_directory,
}
use rr_dns.ZoneFiles.Records.{IsLoaded, build_resource_record-AreBuilt, to_string_values-nonempty}

-- Two lists of records made one after the other.
both_parts :
    (P : ResourceRecord → Type 0) (m n : Result (List ResourceRecord)) {rrs : List ResourceRecord}
    → ((a : List ResourceRecord) → m ≡ ok a → All P a)
    → ((b : List ResourceRecord) → n ≡ ok b → All P b)
    → (m >>= λ a. n >>= λ b. ok (a ++ b)) ≡ ok rrs
    → All P rrs
both_parts P m n hm hn e =
    let (a, p, e1) = >>=-eq-ok m _ e in
    let (b, q, e2) = >>=-eq-ok n _ e1 in
    subst (λ rrs. All P rrs) (ok_injective e2) (All-append P a b (hm a p) (hn b q))

section_records-IsLoaded :
    (fqdn : Bytes) (types : List (Bytes × Value)) (ttl : ℕ) (rrs : List ResourceRecord)
    → section_records fqdn types ttl ≡ ok rrs
    → All (IsLoaded ttl) rrs
unfolding section_records
section_records-IsLoaded fqdn [] ttl rrs e = subst (λ xs. All (IsLoaded ttl) xs) (ok_injective e) tt
section_records-IsLoaded fqdn ((rr_type, value) ∷ types) ttl rrs e =
    both_parts (IsLoaded ttl) (build_resource_record fqdn rr_type (to_string_values value) ttl)
      (section_records fqdn types ttl)
      (λ a p.
        (build_resource_record-AreBuilt fqdn rr_type (to_string_values value) ttl
          (to_string_values-nonempty value) p).loaded)
      (λ b q. section_records-IsLoaded fqdn types ttl b q) e

entry_records-IsLoaded :
    (root : Bytes) (raw : List (Bytes × Entry)) (ttl : ℕ) (rrs : List ResourceRecord)
    → entry_records root raw ttl ≡ ok rrs
    → All (IsLoaded ttl) rrs
unfolding entry_records
entry_records-IsLoaded root [] ttl rrs e = subst (λ xs. All (IsLoaded ttl) xs) (ok_injective e) tt
entry_records-IsLoaded root ((name, scalar) ∷ raw) ttl rrs e =
    entry_records-IsLoaded root raw ttl rrs e
entry_records-IsLoaded root ((name, section types) ∷ raw) ttl rrs e =
    elim (Bool-cases (bytes_eq name (codes "zone_root"))) [
      | inl skipped ↦ entry_records-IsLoaded root raw ttl rrs (rw skipped at e)
      | inr taken ↦
          both_parts (IsLoaded ttl)
            (section_records (canonical_dns_name (expand_name name root)) types ttl)
            (entry_records root raw ttl)
            (λ a p.
              section_records-IsLoaded (canonical_dns_name (expand_name name root)) types ttl a p)
            (λ b q. entry_records-IsLoaded root raw ttl b q) (rw taken at e)
    ]

wrap_err-ok :
    {A : Type 0} (f : Error → Error) (m : Result A) {a : A} → wrap_err f m ≡ ok a → m ≡ ok a
wrap_err-ok f (ok a) e = e
wrap_err-ok f (err x) e = absurd (ground arith)

parsed_records-IsLoaded :
    (path : Bytes) (parsed : Parsed) (ttl : ℕ) (root : Bytes) (rrs : List ResourceRecord)
    → parsed_records path parsed ttl ≡ ok (root, rrs)
    → All (IsLoaded ttl) rrs
unfolding parsed_records
parsed_records-IsLoaded path parsed ttl root rrs e = elim (Bool-cases (is_empty parsed.zone_root)) [
  | inl missing ↦ absurd (ground arith)
  | inr given ↦
      let zone = canonical_dns_name parsed.zone_root in
      let (all, p, e1) =
        >>=-eq-ok (wrap_err (zone_record_invalid path) (entry_records zone parsed.raw ttl)) _
          (rw given at e) in
      subst (λ xs. All (IsLoaded ttl) xs) (ap (λ r. r.1) (ok_injective e1))
        (entry_records-IsLoaded zone parsed.raw ttl all
          (wrap_err-ok (zone_record_invalid path) (entry_records zone parsed.raw ttl) p))
]

load_zone_file_with_root-IsLoaded :
    (load : Load) (path : Bytes) (ttl : ℕ) (root : Bytes) (rrs : List ResourceRecord)
    → load_zone_file_with_root load path ttl ≡ ok (root, rrs)
    → All (IsLoaded ttl) rrs
unfolding load_zone_file_with_root
load_zone_file_with_root-IsLoaded load path ttl root rrs e = elim (Bool-cases (is_zone_file path)) [
  | inr not_zone ↦
      subst (λ xs. All (IsLoaded ttl) xs) (ap (λ r. r.1) (ok_injective (rw not_zone at e))) tt
  | inl zone ↦ elim (Option-cases (load path)) [
    | inl unread ↦ absurd (ground arith)
    | inr (parsed, read) ↦ parsed_records-IsLoaded path parsed ttl root rrs (rw (zone, read) at e)
  ]
]

-- A zone that is served has a root and records, all of them loaded.
abbrev pub AreLoaded : ℕ → Bytes × List ResourceRecord → Type 0
AreLoaded ttl (root, rrs) =
    (is_empty root ≡ false) × (is_empty rrs ≡ false) × All (IsLoaded ttl) rrs

insert-All :
    (P : Bytes × List ResourceRecord → Type 0) (k : Bytes) (v : List ResourceRecord)
    (zones : Assoc (List ResourceRecord))
    → P (k, v)
    → All P zones
    → All P (insert k v zones)
unfolding insert
insert-All P k v [] h hs = (h, tt)
insert-All P k v ((j, w) ∷ zones) h (x, xs) = elim (Bool-cases (bytes_eq j k)) [
  | inl same ↦ rw same (h, xs)
  | inr differs ↦ rw differs (x, insert-All P k v zones h xs)
]

some_injective : {A : Type 0} {a b : A} → some a ≡ some b → a ≡ b
some_injective e = cc

lookup-AreLoaded :
    (ttl : ℕ) (k : Bytes) (zones : Assoc (List ResourceRecord)) (old : List ResourceRecord)
    → All (AreLoaded ttl) zones
    → lookup k zones ≡ some old
    → All (IsLoaded ttl) old
unfolding lookup
lookup-AreLoaded ttl k [] old h e = absurd (ground arith)
lookup-AreLoaded ttl k ((j, w) ∷ zones) old (x, xs) e = elim (Bool-cases (bytes_eq j k)) [
  | inl same ↦ subst (λ rrs. All (IsLoaded ttl) rrs) (some_injective (rw same at e)) x.2
  | inr differs ↦ lookup-AreLoaded ttl k zones old xs (rw differs at e)
]

is_empty-append :
    (old : List ResourceRecord) (rr : ResourceRecord) (rrs : List ResourceRecord)
    → is_empty (old ++ rr ∷ rrs) ≡ false
is_empty-append [] rr rrs = refl
is_empty-append (x ∷ old) rr rrs = refl

add_zone-AreLoaded :
    (ttl : ℕ) (root : Bytes) (rrs : List ResourceRecord) (zones : Assoc (List ResourceRecord))
    → All (IsLoaded ttl) rrs
    → All (AreLoaded ttl) zones
    → All (AreLoaded ttl) (add_zone root rrs zones)
unfolding add_zone
add_zone-AreLoaded ttl root [] zones h hs = elim (Bool-cases (is_empty root)) [
  | inl e ↦ rw e hs
  | inr e ↦ rw e hs
]
add_zone-AreLoaded ttl root (rr ∷ rrs) zones h hs = elim (Bool-cases (is_empty root)) [
  | inl empty ↦ rw empty hs
  | inr named ↦ rw named (elim (Option-cases (lookup root zones)) [
    | inl new ↦ rw new (insert-All (AreLoaded ttl) root (rr ∷ rrs) zones (named, refl, h) hs)
    | inr (old, found) ↦ rw found (
        insert-All (AreLoaded ttl) root (old ++ rr ∷ rrs) zones
          (
            named,
            is_empty-append old rr rrs,
            All-append (IsLoaded ttl) old (rr ∷ rrs) (lookup-AreLoaded ttl root zones old hs found)
                h,
          )
          hs)
  ])
]

walk-AreLoaded :
    (load : Load) (entries : List Walked) (ttl : ℕ) (zones all : Assoc (List ResourceRecord))
    → All (AreLoaded ttl) zones
    → walk load entries ttl zones ≡ ok all
    → All (AreLoaded ttl) all
unfolding walk
walk-AreLoaded load [] ttl zones all h e = subst (λ xs. All (AreLoaded ttl) xs) (ok_injective e) h
walk-AreLoaded load (failed ∷ entries) ttl zones all h e = absurd (ground arith)
walk-AreLoaded load (directory ∷ entries) ttl zones all h e =
    walk-AreLoaded load entries ttl zones all h e
walk-AreLoaded load (regular path ∷ entries) ttl zones all h e =
    let ((root, rrs), p, e1) =
      >>=-eq-ok (wrap_err (zone_file_failed path) (load_zone_file_with_root load path ttl)) _ e in
    walk-AreLoaded load entries ttl (add_zone root rrs zones) all
      (add_zone-AreLoaded ttl root rrs zones
        (load_zone_file_with_root-IsLoaded load path ttl root rrs
          (wrap_err-ok (zone_file_failed path) (load_zone_file_with_root load path ttl) p))
        h)
      e1

-- Whatever the files of a directory hold: if it is loaded at all, every zone has a root and a record,
-- and every record is an authoritative record of class IN with the given TTL, accepted by `Validate`,
-- under a canonical name, whose data encode its text.
pub load_zone_directory-AreLoaded :
    (load : Load) (entries : List Walked) (ttl : ℕ) (zones : Assoc (List ResourceRecord))
    → load_zone_directory load entries ttl ≡ ok zones
    → All (AreLoaded ttl) zones
unfolding load_zone_directory
load_zone_directory-AreLoaded load entries ttl zones e =
    walk-AreLoaded load entries ttl [] zones tt e
