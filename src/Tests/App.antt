-- ===== src/Tests/App.antt =====
-- A server built from one zone file.
use rr_dns.Prelude.{◌*◌, false, List, [], ◌∷◌, none, some, ok, err, no_upstream, ◌≡◌, refl, All}
use rr_dns.Prelude.Bytes.{bytes_eq, codes}
use rr_dns.Text.{is_space, lower, to_lower, trim_space, split, has_dot, trim_dot}
use rr_dns.Text.Fields.{value}
use rr_dns.Rdata.{is_name_type}
use rr_dns.Rdata.Encode.{encode}
use rr_dns.Rdata.Address.{to4, encode_a}
use rr_dns.Rdata.Address.Parse.{parse_ip, is_v4_text, v4_in_v6}
use rr_dns.Domain.Record
use rr_dns.Domain.Question
use rr_dns.Domain.CacheKey.{generate_cache_key}
use rr_dns.Caches.Zone.Laws.{matching}
use rr_dns.Text.Decimal.{decimal}
use rr_dns.Prelude.Assoc.{Assoc, lookup, insert}
use rr_dns.Names.{canonical_dns_name, trim_dots, get_apex_domain}
use rr_dns.Domain.Codes.{
  code_of, has_code, rrtype_string, rrclass_string, rrtype_from_string, rrtype_is_valid,
  rrclass_is_valid,
}
use rr_dns.Domain.Record.{second, ResourceRecord, new_authoritative}
use rr_dns.Caches.Zone as ZoneCache
use rr_dns.Upstream.{Network}
use rr_dns.Upstream.Client.{new_resolver}
use rr_dns.Transport.Listener.{new_udp_transport}
use rr_dns.ZoneFiles.{
  build_resource_record, Load, Parsed, Walked, directory, regular, section, text, to_string_values,
  expand_name, load_zone_directory,
}
use rr_dns.ZoneFiles.Records.{AreBuilt, build_resource_record-AreBuilt}
use rr_dns.ZoneFiles.Directory.{AreLoaded, load_zone_directory-AreLoaded}
use rr_dns.Config.{default_app_config}
use rr_dns.App.{Environment, put_zones, build_cache, Application, build_application}
use rr_dns.App.Answers.{zone_answer}
use rr_dns.Tests.Sample.{address, ask, no_suffix, unbounded}

-- A file with the address 10.0.0.1 under the root.
abbrev example_file : Parsed
example_file = record {
  zone_root = codes "a.io";
  raw = (codes "@", section ((codes "A", text (codes "10.0.0.1")) ∷ [])) ∷ [];
}

abbrev load_example : Load
load_example path = some example_file

abbrev example_entries : List Walked
example_entries = directory ∷ regular (codes "a.yaml") ∷ []

-- A network in which every connection fails.
abbrev no_network : Network
no_network = record {
  dial = λ deadline server. err no_upstream;
  set_deadline = λ server deadline. ok tt;
  exchange = λ deadline server query. err no_upstream;
}

abbrev pub example_env : Environment
example_env = record {
  psl = no_suffix;
  lru = unbounded;
  lru_error = λ size. none;
  load = load_example;
  entries = λ path. example_entries;
  range = λ zones. zones;
  network = no_network;
  called = λ now. now;
  race = λ ask servers. err no_upstream;
  fuel = 9;
}

abbrev pub example_zones : Assoc (List ResourceRecord)
example_zones = (codes "a.io", address (codes "a.io") none ∷ []) ∷ []

pub example_loaded :
    load_zone_directory load_example example_entries (300 * second) ≡ ok example_zones
unfolding load_zone_directory bytes_eq to_lower to_string_values trim_space is_space encode
    rrtype_from_string encode_a parse_ip is_v4_text split value v4_in_v6 new_authoritative
    canonical_dns_name trim_dots expand_name code_of has_code rrclass_is_valid rrtype_is_valid
    Record.validate Record.float_seconds Record.binade insert lookup is_name_type to4 has_dot lower
    trim_dot
example_loaded = refl

load_zone_directory-AreLoaded_example : All (AreLoaded (300 * second)) example_zones
load_zone_directory-AreLoaded_example =
    load_zone_directory-AreLoaded load_example example_entries (300 * second) example_zones
      example_loaded

abbrev pub example_app : Application example_env
example_app = record {
  config = default_app_config;
  transport = new_udp_transport (codes ":53");
  repositories = record {
    upstream_cache = some [];
    zone_cache = put_zones example_env example_zones ZoneCache.new;
  };
  upstream = record {
    servers = default_app_config.servers;
    timeout = 5 * second;
    parallel = false;
    network = no_network;
  };
}

-- The default configuration, on the zones of the file.
pub example_built : build_application example_env default_app_config ≡ ok example_app
unfolding build_application build_cache new_resolver decimal
example_built = rw example_loaded

-- "A.IO." is found in the zone.
zone_answer_of_file :
    zone_answer no_suffix example_zones (ask (codes "A.IO."))
    ≡ some (address (codes "a.io") none ∷ [])
unfolding canonical_dns_name trim_dots to_lower lower trim_space is_space trim_dot has_dot
    get_apex_domain bytes_eq matching Question.cache_key Record.cache_key generate_cache_key
    rrtype_string rrclass_string
zone_answer_of_file = refl

example_built_records :
    build_resource_record (codes "a.io") (codes "A") (codes "10.0.0.1" ∷ []) (300 * second)
    ≡ ok (address (codes "a.io") none ∷ [])
unfolding build_resource_record bytes_eq to_lower to_string_values trim_space is_space encode
    rrtype_from_string encode_a parse_ip is_v4_text split value v4_in_v6 new_authoritative
    canonical_dns_name trim_dots expand_name code_of has_code rrclass_is_valid rrtype_is_valid
    Record.validate Record.float_seconds Record.binade insert lookup is_name_type to4 has_dot lower
    trim_dot
example_built_records = refl

build_resource_record-AreBuilt_example :
    AreBuilt
      (codes "a.io")
      (codes "A")
      (codes "10.0.0.1" ∷ [])
      (300 * second)
      (address (codes "a.io") none ∷ [])
build_resource_record-AreBuilt_example =
    build_resource_record-AreBuilt (codes "a.io") (codes "A") (codes "10.0.0.1" ∷ []) (300 * second)
      (refl, tt) example_built_records
