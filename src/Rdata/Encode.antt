-- ===== src/Rdata/Encode.antt =====
-- `Encode` of rrdata: the data of a record from its text. The message of an error is not kept, only
-- the type that it names.
pub mod Fields
pub mod Soa
pub mod Addresses
pub mod Caa
pub mod Txt
pub mod Hex
pub mod Groups
pub mod Runs
pub mod Pairs
pub mod Printed
pub mod Aaaa
pub mod RoundTrip
use rr_dns.Prelude.{
  ℕ, ◌+◌, ◌^◌, ltb, ◌==◌, if◌then◌else◌, true, false, List, [], ◌∷◌, ◌++◌, length, is_empty, Option,
  none, some, Result, ok, err, ◌>>=◌, invalid_rdata, not_implemented,
}
use rr_dns.Prelude.Bytes.{Bytes}
use rr_dns.Text.{split, join, trim_space}
use rr_dns.Text.Fields.{fields, trim_quotes, parse_uint, atoi}
use rr_dns.Domain.Codes.{RrType}
use rr_dns.Wire.Octets.{byte, put_u16, put_u32}
use rr_dns.Rdata.{encode_domain_name, is_not_implemented, is_name_type}
use rr_dns.Rdata.Address.{encode_a, encode_aaaa}

-- The value, or the error of the record type.
abbrev pub from_option {ℓ} : {A : Type ℓ} → RrType → Option A → Result A
from_option t none = err (invalid_rdata t)
from_option t (some a) = ok a

-- Any error of `r` becomes one of the record type.
abbrev pub invalid {ℓ} : {A : Type ℓ} → RrType → Result A → Result A
invalid t (ok a) = ok a
invalid t (err e) = err (invalid_rdata t)

unfoldable pub encode_mx_fields : List Bytes → Result Bytes
encode_mx_fields (pref ∷ exchange ∷ []) = do
  n ← from_option 15 (atoi pref)
  if ltb 65535 n
      then err (invalid_rdata 15)
      else (do domain ← invalid 15 (encode_domain_name exchange); ok (put_u16 n ++ domain))
encode_mx_fields _ = err (invalid_rdata 15)

unfoldable pub encode_mx : Bytes → Result Bytes
unfolding encode_mx_fields
encode_mx text = encode_mx_fields (fields text)

unfoldable pub encode_srv_fields : List Bytes → Result Bytes
encode_srv_fields (priority ∷ weight ∷ port ∷ target ∷ []) = do
  p ← from_option 33 (parse_uint 16 priority)
  w ← from_option 33 (parse_uint 16 weight)
  o ← from_option 33 (parse_uint 16 port)
  domain ← invalid 33 (encode_domain_name target)
  ok (put_u16 p ++ (put_u16 w ++ (put_u16 o ++ domain)))
encode_srv_fields _ = err (invalid_rdata 33)

unfoldable pub encode_srv : Bytes → Result Bytes
unfolding encode_srv_fields
encode_srv text = encode_srv_fields (fields text)

unfoldable pub encode_soa_fields : List Bytes → Result Bytes
encode_soa_fields (mname ∷ rname ∷ serial ∷ refresh ∷ retry ∷ expire ∷ minimum ∷ []) = do
  m ← invalid 6 (encode_domain_name mname)
  r ← invalid 6 (encode_domain_name rname)
  n1 ← from_option 6 (parse_uint 32 serial)
  n2 ← from_option 6 (parse_uint 32 refresh)
  n3 ← from_option 6 (parse_uint 32 retry)
  n4 ← from_option 6 (parse_uint 32 expire)
  n5 ← from_option 6 (parse_uint 32 minimum)
  ok (m ++ (r ++ (put_u32 n1 ++ (put_u32 n2 ++ (put_u32 n3 ++ (put_u32 n4 ++ put_u32 n5))))))
encode_soa_fields _ = err (invalid_rdata 6)

unfoldable pub encode_soa : Bytes → Result Bytes
unfolding encode_soa_fields
encode_soa text = encode_soa_fields (fields text)

-- The loop of `encodeTXTData`, over the parts between semicolons.
unfoldable pub txt_segments : List Bytes → Result Bytes
txt_segments [] = ok []
txt_segments (part ∷ parts) =
    let segment = trim_space part in
    if ltb 255 (length segment)
    then err (invalid_rdata 16)
    else txt_segments parts >>= λ rest.
        ok (if is_empty segment then rest else byte (length segment) ∷ (segment ++ rest))

unfoldable pub encode_txt : Bytes → Result Bytes
unfolding txt_segments
encode_txt text = do
  encoded ← txt_segments (split b';' text)
  if is_empty encoded then err (invalid_rdata 16) else ok encoded

unfoldable pub encode_caa_fields : List Bytes → Result Bytes
encode_caa_fields (flag ∷ tag ∷ value ∷ more) = do
  n ← from_option 257 (parse_uint 8 flag)
  let text = trim_quotes (join (b' ' ∷ []) (value ∷ more))
  if ltb 255 (length tag)
      then err (invalid_rdata 257)
      else if ltb 255 (length text)
      then err (invalid_rdata 257)
      else ok (byte n ∷ byte (length tag) ∷ (tag ++ text))
encode_caa_fields _ = err (invalid_rdata 257)

unfoldable pub encode_caa : Bytes → Result Bytes
unfolding encode_caa_fields
encode_caa text = encode_caa_fields (fields text)

unfoldable pub encode : RrType → Bytes → Result Bytes
unfolding encode_soa encode_mx encode_txt encode_srv encode_caa
encode t text =
    if t == 1
    then encode_a text
    else if is_name_type t
    then encode_domain_name text
    else if t == 6
    then encode_soa text
    else if t == 15
    then encode_mx text
    else if t == 16
    then encode_txt text
    else if t == 28
    then encode_aaaa text
    else if t == 33
    then encode_srv text
    else if is_not_implemented t
    then err (not_implemented t)
    else if t == 257
    then encode_caa text
    else ok text
