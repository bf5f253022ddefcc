-- ===== src/ZoneFiles.antt =====
-- repos/zone/zone.go: the records of the zone files of a directory. Reading and parsing a file is
-- the library koanf's, an argument here; a map is a list in the order in which Go ranges over it.
pub mod Records
pub mod Directory
use rr_dns.Prelude.{
  Bool, ℕ, ◌/◌, ◌%◌, ◌^◌, ◌==◌, ◌&&◌, ◌||◌, not, if◌then◌else◌, true, false, List, [], ◌∷◌, ◌++◌,
  is_empty, Option, none, some, Result, ok, err, ◌>>=◌, wrap, wrap_err, Error, zone_file_unreadable,
  zone_root_missing, zone_record_invalid, zone_file_failed, walk_failed,
}
use rr_dns.Prelude.Bytes.{Bytes, bytes_eq, codes}
use rr_dns.Prelude.Assoc.{Assoc, lookup, insert}
use rr_dns.Text.{dot, has_dot, to_lower, trim_space}
use rr_dns.Names.{canonical_dns_name}
use rr_dns.Domain.Codes.{rrtype_from_string, rrclass_in}
use rr_dns.Domain.Record.{float_seconds, ResourceRecord, new_authoritative}
use rr_dns.Rdata.Encode

-- The value under a record type: a text, a list of which some elements are texts, or anything else.
pub data Value : Type 0 where
  text : Bytes → Value
  texts : List (Option Bytes) → Value
  other : Value

-- An entry of the file: the values of a name by their types, or no map.
pub data Entry : Type 0 where
  section : List (Bytes × Value) → Entry
  scalar : Entry

-- What koanf makes of a file: `k.String("zone_root")` and `k.Raw()`.
pub record Parsed : Type 0 where
  pub zone_root : Bytes
  pub raw : List (Bytes × Entry)

-- Reads and parses a file; `none` is any failure.
abbrev pub Load : Type 0
Load = Bytes → Option Parsed

unfoldable pub expand_name : Bytes → Bytes → Bytes
expand_name label root =
    if bytes_eq label (b'@' ∷ [])
    then root
    else if has_dot label
    then label
    else label ++ dot ∷ root

unfoldable pub clean_texts : List (Option Bytes) → List Bytes
clean_texts [] = []
clean_texts (none ∷ elems) = clean_texts elems
clean_texts (some s ∷ elems) =
    let rest = clean_texts elems in if is_empty (trim_space s) then rest else trim_space s ∷ rest

-- `nil` is the empty list.
unfoldable pub to_string_values : Value → List Bytes
unfolding clean_texts
to_string_values (text s) = clean_texts (some s ∷ [])
to_string_values (texts elems) = clean_texts elems
to_string_values other = []

-- `fqdn`, the name of the type, the values, and the TTL in nanoseconds.
unfoldable pub build_resource_record : Bytes → Bytes → List Bytes → ℕ → Result (List ResourceRecord)
build_resource_record fqdn rr_type [] ttl = ok []
build_resource_record fqdn rr_type (s ∷ values) ttl =
    let rest = build_resource_record fqdn rr_type values ttl in
    if is_empty s then rest else (do
      rdata ← Encode.encode (rrtype_from_string rr_type) s
      rr ←
          new_authoritative fqdn (rrtype_from_string rr_type) rrclass_in
            (float_seconds ttl % 2 ^ 32) rdata s
      rrs ← rest
      ok (rr ∷ rrs))

-- The inner loop, over the types of a name.
unfoldable pub section_records : Bytes → List (Bytes × Value) → ℕ → Result (List ResourceRecord)
unfolding build_resource_record
section_records fqdn [] ttl = ok []
section_records fqdn ((rr_type, value) ∷ rest) ttl = do
  rrs ← build_resource_record fqdn rr_type (to_string_values value) ttl
  more ← section_records fqdn rest ttl
  ok (rrs ++ more)

-- The outer loop, over the names of the file.
unfoldable pub entry_records : Bytes → List (Bytes × Entry) → ℕ → Result (List ResourceRecord)
unfolding section_records
entry_records root [] ttl = ok []
entry_records root ((name, scalar) ∷ rest) ttl = entry_records root rest ttl
entry_records root ((name, section types) ∷ rest) ttl =
    let more = entry_records root rest ttl in
    if bytes_eq name (codes "zone_root") then more else (do
      rrs ← section_records (canonical_dns_name (expand_name name root)) types ttl
      later ← more
      ok (rrs ++ later))

-- `filepath.Ext`, with the last dot behind the last slash: `found` is what stands from the last dot
-- on.
unfoldable pub extension_from : Bytes → Bytes → Bytes
extension_from found [] = found
extension_from found (c ∷ s) =
    extension_from (if c == dot then c ∷ s else if c == b'/' then [] else found) s

unfoldable pub is_zone_file : Bytes → Bool
unfolding extension_from
is_zone_file path =
    let ext = to_lower (extension_from [] path) in
    bytes_eq ext (codes ".yaml")
    || bytes_eq ext (codes ".yml")
    || bytes_eq ext (codes ".json")
    || bytes_eq ext (codes ".toml")

-- The records of the file behind its parsing.
unfoldable pub parsed_records : Bytes → Parsed → ℕ → Result (Bytes × List ResourceRecord)
unfolding entry_records
parsed_records path parsed ttl =
    if is_empty parsed.zone_root then err (zone_root_missing path) else (do
      let root = canonical_dns_name parsed.zone_root
      rrs ← wrap_err (zone_record_invalid path) (entry_records root parsed.raw ttl)
      ok (root, rrs))

-- `loadZoneFileWithRoot`; the root of a file of another kind is empty.
unfoldable pub load_zone_file_with_root : Load → Bytes → ℕ → Result (Bytes × List ResourceRecord)
unfolding is_zone_file parsed_records
load_zone_file_with_root load path ttl =
    if is_zone_file path
    then (elim (load path) [
      | none ↦ err (zone_file_unreadable path)
      | some parsed ↦ parsed_records path parsed ttl
    ])
    else ok ([], [])

unfoldable pub load_zone_file : Load → Bytes → ℕ → Result (List ResourceRecord)
load_zone_file load path ttl = do (root, rrs) ← load_zone_file_with_root load path ttl; ok rrs

-- What `WalkDir` calls the function with, in its order.
pub data Walked : Type 0 where
  failed : Walked
  directory : Walked
  regular : Bytes → Walked

unfoldable pub add_zone :
    Bytes → List ResourceRecord → Assoc (List ResourceRecord) → Assoc (List ResourceRecord)
add_zone root rrs zones =
    if is_empty root || is_empty rrs
    then zones
    else insert root (elim (lookup root zones) [ none ↦ rrs | some old ↦ old ++ rrs ]) zones

unfoldable pub walk :
    Load → List Walked → ℕ → Assoc (List ResourceRecord) → Result (Assoc (List ResourceRecord))
unfolding load_zone_file_with_root add_zone
walk load [] ttl zones = ok zones
walk load (failed ∷ rest) ttl zones = err walk_failed
walk load (directory ∷ rest) ttl zones = walk load rest ttl zones
walk load (regular path ∷ rest) ttl zones = do
  (root, rrs) ← wrap_err (zone_file_failed path) (load_zone_file_with_root load path ttl)
  walk load rest ttl (add_zone root rrs zones)

unfoldable pub load_zone_directory : Load → List Walked → ℕ → Result (Assoc (List ResourceRecord))
unfolding walk
load_zone_directory load entries ttl = walk load entries ttl []
