-- ===== src/Domain/Record.antt =====
-- record.go. Time is a number of nanoseconds, and `now` (`time.Now()`) is an argument.
pub mod Expiry
use rr_dns.Prelude.{
  ℕ, zero, suc, ◌+◌, ◌-◌, ◌*◌, ◌/◌, ◌%◌, ◌^◌, is_empty, not, ltb, leb, ◌&&◌, if◌then◌else◌, Bool,
  true, false, Option, none, some, Result, ok, err, name_empty, unsupported_type, unsupported_class,
  text_and_data_empty, ◌>>=◌, ◌>>◌,
}
use rr_dns.Prelude.Bytes.{Bytes}
use rr_dns.Names.{PublicSuffix, canonical_dns_name}
use rr_dns.Domain.Codes.{RrType, RrClass, rrtype_is_valid, rrclass_is_valid}
use rr_dns.Domain.CacheKey.{generate_cache_key}

-- `time.Second`
abbrev pub second : ℕ
second = 1_000_000_000

-- The greatest power of 2 that is at most `n`, found by doubling `p`.
unfoldable pub binade : ℕ → ℕ → ℕ → ℕ
binade zero p n = p
binade (suc f) p n = let rest = binade f (p * 2) n in if leb (p * 2) n then rest else p

-- `Duration.Seconds` of a duration in nanoseconds, less its fraction. The seconds and the fraction are
-- added as `float64`, and the sum is rounded to the next second if the rest to it is at most half of
-- the distance between two neighbours, which is 2 ^ -52 of the binade of the seconds. A duration of
-- Go is below 2 ^ 63 nanoseconds, so that doubling 64 times is enough.
unfoldable pub float_seconds : ℕ → ℕ
float_seconds d =
    let whole = d / second in
    if leb ((second - d % second) * 2 ^ 53) (second * binade 64 1 whole) then whole + 1 else whole

pub record ResourceRecord : Type 0 where
  pub name : Bytes
  pub rrtype : RrType
  pub rrclass : RrClass
  pub ttl : ℕ
  pub expires_at : Option ℕ
  pub rdata : Bytes
  pub text : Bytes

unfoldable pub validate : ResourceRecord → Result (Unit {0})
validate rr =
    if is_empty rr.name
    then err name_empty
    else if not (rrtype_is_valid rr.rrtype)
    then err (unsupported_type rr.rrtype)
    else if not (rrclass_is_valid rr.rrclass)
    then err (unsupported_class rr.rrclass)
    else if is_empty rr.text && is_empty rr.rdata
    then err text_and_data_empty
    else ok tt

unfoldable pub new_authoritative :
    Bytes → RrType → RrClass → ℕ → Bytes → Bytes → Result ResourceRecord
unfolding validate
new_authoritative name rrtype rrclass ttl rdata text =
    let rr : ResourceRecord = record {
      name = canonical_dns_name name;
      rrtype = rrtype;
      rrclass = rrclass;
      ttl = ttl;
      expires_at = none;
      rdata = rdata;
      text = text;
    } in
    validate rr >> ok rr

unfoldable pub new_cached : Bytes → RrType → RrClass → ℕ → Bytes → Bytes → ℕ → Result ResourceRecord
unfolding validate
new_cached name rrtype rrclass ttl rdata text now =
    let rr : ResourceRecord = record {
      name = canonical_dns_name name;
      rrtype = rrtype;
      rrclass = rrclass;
      ttl = ttl;
      expires_at = some (now + ttl * second);
      rdata = rdata;
      text = text;
    } in
    validate rr >> ok rr

-- The duration in nanoseconds; `time.Until` of a past moment is negative, and gives 0.
unfoldable pub ttl_remaining : ResourceRecord → ℕ → ℕ
ttl_remaining rr now = elim rr.expires_at [
  | none ↦ rr.ttl * second
  | some at ↦ if ltb at now then 0 else at - now
]

unfoldable pub cache_key : PublicSuffix → ResourceRecord → Bytes
unfolding generate_cache_key
cache_key psl rr = generate_cache_key psl rr.name rr.rrtype rr.rrclass

-- `uint32(time.Until(at).Seconds())`
unfoldable pub effective_ttl : ResourceRecord → ℕ → ℕ
effective_ttl rr now = elim rr.expires_at [
  | none ↦ rr.ttl
  | some at ↦ if leb at now then 0 else float_seconds (at - now) % 2 ^ 32
]

unfoldable pub is_expired : ResourceRecord → ℕ → Bool
is_expired rr now = elim rr.expires_at [ none ↦ false | some at ↦ ltb at now ]

unfoldable pub is_authoritative : ResourceRecord → Bool
is_authoritative rr = elim rr.expires_at [ none ↦ true | some at ↦ false ]
