-- ===== src/Config.antt =====
-- config/config.go: the settings, how an environment variable is read, and `Load`. The libraries
-- koanf and validator are an argument.
pub mod Servers
pub mod Accepted
pub mod Env
use rr_dns.Prelude.{
  Bool, ℕ, ltb, ◌==◌, ◌||◌, ◌&&◌, not, false, true, List, [], ◌∷◌, is_empty, Option, none, some,
  Result, ok, err, ◌>>=◌, ◌>>◌, wrap_err, if◌then◌else◌, defaults_failed, env_failed,
  unmarshal_failed, registration_failed, validation_failed,
}
use rr_dns.Prelude.Bytes.{Bytes, bytes_eq, codes}
use rr_dns.Text.{to_lower, trim_space}
use rr_dns.Text.Fields.{fields_by, parse_uint}
use rr_dns.Rdata.Address.Parse.{parse_ip}

-- `AppConfig`. No number of a configuration that passes the validation is negative.
pub record AppConfig : Type 0 where
  pub cache_size : ℕ
  pub disable_cache : Bool
  pub environment : Bytes
  pub log_level : Bytes
  pub port : ℕ
  pub zone_dir : Bytes
  pub servers : List Bytes
  pub max_recursion : ℕ

abbrev pub default_app_config : AppConfig
default_app_config = record {
  cache_size = 1000;
  disable_cache = false;
  environment = codes "prod";
  log_level = codes "info";
  port = 53;
  zone_dir = codes "/etc/rr-dns/zones/";
  servers = codes "1.1.1.1:53" ∷ codes "1.0.0.1:53" ∷ [];
  max_recursion = 8;
}

-- What stands before the last `sep` of a text and what stands behind it.
unfoldable pub split_last : ℕ → Bytes → Option (Bytes × Bytes)
split_last sep [] = none
split_last sep (c ∷ s) = elim (split_last sep s) [
  | some (before, after) ↦ some (c ∷ before, after)
  | none ↦ if c == sep then some ([], s) else none
]

unfoldable pub split_first : ℕ → Bytes → Option (Bytes × Bytes)
split_first sep [] = none
split_first sep (c ∷ s) =
    let rest = split_first sep s in
    if c == sep
    then some ([], s)
    else (elim rest [ some (before, after) ↦ some (c ∷ before, after) | none ↦ none ])

unfoldable pub contains : ℕ → Bytes → Bool
contains sep [] = false
contains sep (c ∷ s) = c == sep || contains sep s

unfoldable pub has_bracket : Bytes → Bool
unfolding contains
has_bracket s = contains b'[' s || contains b']' s

-- A host in brackets, `rest` being what stands behind `[`; the bracket closes before the last colon.
unfoldable pub split_bracketed : Bytes → Option (Bytes × Bytes)
unfolding split_first has_bracket
split_bracketed rest = elim (split_first b']' rest) [
  | none ↦ none
  | some (host, []) ↦ none
  | some (host, c ∷ port) ↦
      if c == b':' && not (contains b':' port || contains b'[' host || has_bracket port)
      then some (host, port)
      else none
]

unfoldable pub split_plain : Bytes → Option (Bytes × Bytes)
unfolding split_last has_bracket
split_plain s = elim (split_last b':' s) [
  | none ↦ none
  | some (host, port) ↦
      if contains b':' host || has_bracket host || has_bracket port then none else some (host, port)
]

-- `net.SplitHostPort`
unfoldable pub split_host_port : Bytes → Option (Bytes × Bytes)
unfolding split_bracketed split_plain
split_host_port [] = none
split_host_port (c ∷ s) = if c == b'[' then split_bracketed s else split_plain (c ∷ s)

abbrev pub is_port : Bytes → Bool
is_port port = elim (parse_uint 16 port) [ none ↦ false | some n ↦ ltb 0 n && ltb n 65536 ]

abbrev pub is_ip : Bytes → Bool
is_ip ip = elim (parse_ip ip) [ none ↦ false | some _ ↦ true ]

unfoldable pub valid_ip_port : Bytes → Bool
unfolding split_host_port
valid_ip_port addr = elim (split_host_port addr) [
  | none ↦ false
  | some (ip, port) ↦ not (is_empty ip || is_empty port) && is_ip ip && is_port port
]

-- What a variable is read as: a text or a list.
pub data Setting : Type 0 where
  one : Bytes → Setting
  many : List Bytes → Setting

-- The separators of a list.
abbrev pub is_separator : ℕ → Bool
is_separator c = c == b' ' || c == b','

unfoldable pub strip_prefix : Bytes → Bytes → Option Bytes
strip_prefix [] s = some s
strip_prefix (p ∷ ps) [] = none
strip_prefix (p ∷ ps) (c ∷ s) = if c == p then strip_prefix ps s else none

-- `strings.TrimPrefix(s, prefix)`
unfoldable pub trim_prefix : Bytes → Bytes → Bytes
unfolding strip_prefix
trim_prefix prefix s = elim (strip_prefix prefix s) [ none ↦ s | some rest ↦ rest ]

-- `TransformFunc` of the environment's provider, for the value.
unfoldable pub transform_value : Bytes → Setting
unfolding contains fields_by
transform_value value =
    let v = trim_space value in
    if is_empty v
    then one v
    else if contains b' ' v || contains b',' v
    then many (fields_by is_separator v)
    else one v

-- `TransformFunc`
unfoldable pub transform : Bytes → Bytes → Bytes × Setting
unfolding trim_prefix transform_value
transform key value = (to_lower (trim_prefix (codes "DNS_") key), transform_value value)

-- The libraries: koanf's store `K` and what it makes of the defaults, of the environment by a
-- transformation, and of the store; and the validator, which registers a function as `ip_port` (or
-- fails to), and validates with it.
pub record Libraries : Type 1 where
  pub K : Type 0
  pub load_defaults : AppConfig → Result K
  pub load_env : (Bytes → Bytes → Bytes × Setting) → K → Result K
  pub unmarshal : K → Result AppConfig
  pub register : Result (Unit {0})
  pub validate : (Bytes → Bool) → AppConfig → Result (Unit {0})

unfoldable pub load : Libraries → Result AppConfig
load libs = do
  k ← wrap_err defaults_failed (libs.load_defaults default_app_config)
  k' ← wrap_err env_failed (libs.load_env transform k)
  cfg ← wrap_err unmarshal_failed (libs.unmarshal k')
  wrap_err registration_failed libs.register
  wrap_err validation_failed (libs.validate valid_ip_port cfg)
  ok cfg
