-- ===== src/Rdata.antt =====
-- common/rrdata: the text of the data of a record, `Decode`, and the domain names in it.
pub mod Address
pub mod Encode
pub mod Safety
pub mod RoundTrip
use rr_dns.Prelude.{
  Bool, ℕ, zero, suc, ◌+◌, ◌*◌, ◌%◌, ltb, leb, ◌==◌, ◌||◌, if◌then◌else◌, true, false, List, [],
  ◌∷◌, ◌++◌, length, Result, ok, err, ◌>>=◌, wrap_err, Error, invalid_rdata, not_implemented,
  out_of_fuel,
}
use rr_dns.Prelude.Bytes.{Bytes}
use rr_dns.Text.{dot, split, join}
use rr_dns.Text.Decimal.{decimal}
use rr_dns.Names.{canonical_dns_name}
use rr_dns.Domain.Codes.{RrType}
use rr_dns.Wire.Octets.{read_byte, read_u16, read_u32, slice}
use rr_dns.Wire.Query.{encode_query_labels}
use rr_dns.Rdata.Address.{decode_a, decode_aaaa}

-- `encodeDomainName` of rrdata; its loop over the labels is the one of `EncodeQuery`.
unfoldable pub encode_domain_name : Bytes → Result Bytes
encode_domain_name name = do
  labels ← encode_query_labels (split dot (canonical_dns_name name))
  ok (labels ++ 0 ∷ [])

-- The segments behind their lengths from the index `i` on, up to a length of 0: the loop of
-- `decodeDomainName` and of `decodeTXTData`. Each round goes forward, so that the length of the
-- data is fuel enough. `t` is the type that the error names.
unfoldable pub segments : ℕ → RrType → Bytes → ℕ → Result (List Bytes)
segments zero t b i = err out_of_fuel
segments (suc f) t b i =
    if leb (length b) i
    then ok []
    else read_byte b i >>= λ n.
        (if n == 0 then ok [] else if ltb (length b) (i + 1 + n) then err (invalid_rdata t) else (do
          s ← slice b (i + 1) (i + 1 + n)
          rest ← segments f t b (i + 1 + n)
          ok (s ∷ rest)))

unfoldable pub decode_domain_name : RrType → Bytes → Result Bytes
unfolding segments
decode_domain_name t b = do ss ← segments (length b + 1) t b 0; ok (join (dot ∷ []) ss)

unfoldable pub decode_txt : Bytes → Result Bytes
unfolding segments
decode_txt b = do ss ← segments (length b + 1) 16 b 0; ok (join (b';' ∷ b' ' ∷ []) ss)

-- Fields with a space between two of them.
abbrev pub spaced : List Bytes → Bytes
spaced fields = join (b' ' ∷ []) fields

unfoldable pub decode_mx : Bytes → Result Bytes
unfolding decode_domain_name
decode_mx b = if ltb (length b) 2 then err (invalid_rdata 15) else (do
  pref ← read_u16 b 0
  tail ← slice b 2 (length b)
  domain ← decode_domain_name 15 tail
  ok (spaced (decimal pref ∷ domain ∷ [])))

unfoldable pub decode_srv : Bytes → Result Bytes
unfolding decode_domain_name
decode_srv b = if ltb (length b) 6 then err (invalid_rdata 33) else (do
  priority ← read_u16 b 0
  weight ← read_u16 b 2
  port ← read_u16 b 4
  tail ← slice b 6 (length b)
  target ← decode_domain_name 33 tail
  ok (canonical_dns_name (spaced (decimal priority ∷ decimal weight ∷ decimal port ∷ target ∷ []))))

-- The sum of an index and a length in a byte, `2+tagLen` on `uint8`, wraps around.
unfoldable pub decode_caa : Bytes → Result Bytes
decode_caa b = if ltb (length b) 2 then err (invalid_rdata 257) else (do
  flag ← read_byte b 0
  tag_len ← read_byte b 1
  let end = (2 + tag_len) % 256
  if ltb (length b) end then err (invalid_rdata 257) else (do
    tag ← slice b 2 end
    value ← slice b end (length b)
    ok (spaced (decimal flag ∷ tag ∷ (b'"' ∷ (value ++ b'"' ∷ [])) ∷ []))))

-- The five numbers at the end of the data of a SOA record.
unfoldable pub decode_soa_numbers : Bytes → Bytes → Bytes → ℕ → Result Bytes
decode_soa_numbers b mname rname offset = do
  numbers ← slice b offset (length b)
  if ltb (length numbers) 20 then err (invalid_rdata 6) else (do
    serial ← read_u32 b offset
    refresh ← read_u32 b (offset + 4)
    retry ← read_u32 b (offset + 8)
    expire ← read_u32 b (offset + 12)
    minimum ← read_u32 b (offset + 16)
    ok (
        spaced (
          mname
          ∷ rname
          ∷ decimal serial
          ∷ decimal refresh
          ∷ decimal retry
          ∷ decimal expire
          ∷ decimal minimum
          ∷ [])))

-- An offset is taken to be two bytes behind the text of a name.
unfoldable pub decode_soa : Bytes → Result Bytes
unfolding decode_domain_name decode_soa_numbers
decode_soa b = if ltb (length b) 25 then err (invalid_rdata 6) else (do
  mname ← decode_domain_name 6 b
  tail ← slice b (length mname + 2) (length b)
  rname ← decode_domain_name 6 tail
  decode_soa_numbers b mname rname (length mname + 2 + (length rname + 2)))

-- The types that `Decode` names without a decoder: NAPTR, OPT, DS, RRSIG, NSEC, DNSKEY, TLSA, SVCB
-- and HTTPS.
unfoldable pub is_not_implemented : RrType → Bool
is_not_implemented t =
    t == 35 || t == 41 || t == 43 || t == 46 || t == 47 || t == 48 || t == 52 || t == 64 || t == 65

-- NS, CNAME and PTR.
unfoldable pub is_name_type : RrType → Bool
is_name_type t = t == 2 || t == 5 || t == 12

unfoldable pub decode : RrType → Bytes → Result Bytes
unfolding decode_domain_name decode_soa decode_mx decode_txt decode_srv decode_caa
decode t b =
    if t == 1
    then decode_a b
    else if is_name_type t
    then decode_domain_name t b
    else if t == 6
    then decode_soa b
    else if t == 15
    then decode_mx b
    else if t == 16
    then decode_txt b
    else if t == 28
    then decode_aaaa b
    else if t == 33
    then decode_srv b
    else if is_not_implemented t
    then err (not_implemented t)
    else if t == 257
    then decode_caa b
    else ok b
