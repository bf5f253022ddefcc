-- ===== src/Rdata/Encode/RoundTrip.antt =====
-- The text of a record of any type with an encoder of its own is read back, and the data of an
-- address.
use rr_dns.Prelude.{ℕ, ◌<◌, ◌≤◌, List, [], ◌∷◌, ◌++◌, length, some, ok, ◌>>=◌, ◌≡◌, ◌≢◌, true, All}
use rr_dns.Prelude.Bytes.{Bytes}
use rr_dns.Text.{dot, join, split, trim_space}
use rr_dns.Text.Decimal.{decimal}
use rr_dns.Text.Fields.{fields, parse_uint, atoi}
use rr_dns.Names.{canonical_dns_name}
use rr_dns.Domain.Codes.{RrType}
use rr_dns.Wire.Name.RoundTrip.{IsName}
use rr_dns.Rdata.{spaced, is_name_type, is_not_implemented, decode}
use rr_dns.Rdata.RoundTrip.{decode-encode_domain_name, is_name_type-false}
use rr_dns.Rdata.Address.{decimals, v6_string}
use rr_dns.Rdata.Encode.{encode}
use rr_dns.Rdata.Encode.Fields.{decode-encode_mx, decode-encode_srv}
use rr_dns.Rdata.Encode.Soa.{decode-encode_soa}
use rr_dns.Rdata.Encode.Caa.{caa_value, decode-encode_caa}
use rr_dns.Rdata.Encode.Txt.{txt_parts, decode-encode_txt}
use rr_dns.Rdata.Encode.Addresses.{decode_a-encode_a, encode_a-decode_a}
use rr_dns.Rdata.Encode.Aaaa.{IsV6, decode_aaaa-encode_aaaa, encode_aaaa-decode_aaaa}

-- `Reads t text plain`: a text of the type `t`, and how it reads when it comes back: names in
-- canonical form, numbers in plain decimal, one space between fields, the value of a CAA in quotes,
-- and "; " between the parts of a TXT.
pub data Reads : RrType → Bytes → Bytes → Type 0 where
  address :
      (a b c d : ℕ)
      → All (λ n. n < 256) (a ∷ b ∷ c ∷ d ∷ [])
      → Reads 1
          (join (dot ∷ []) (decimals (a ∷ b ∷ c ∷ d ∷ [])))
          (join (dot ∷ []) (decimals (a ∷ b ∷ c ∷ d ∷ [])))
  long_address : (b : Bytes) → IsV6 b → Reads 28 (v6_string b) (v6_string b)
  target :
      (t : RrType) (name : Bytes)
      → is_name_type t ≡ true
      → IsName (canonical_dns_name name)
      → Reads t name (canonical_dns_name name)
  authority :
      (text mname rname t1 t2 t3 t4 t5 : Bytes) (n1 n2 n3 n4 n5 : ℕ)
      → fields text ≡ mname ∷ rname ∷ t1 ∷ t2 ∷ t3 ∷ t4 ∷ t5 ∷ []
      → IsName (canonical_dns_name mname)
      → IsName (canonical_dns_name rname)
      → parse_uint 32 t1 ≡ some n1
      → parse_uint 32 t2 ≡ some n2
      → parse_uint 32 t3 ≡ some n3
      → parse_uint 32 t4 ≡ some n4
      → parse_uint 32 t5 ≡ some n5
      → Reads 6 text (
          spaced (
            canonical_dns_name mname
            ∷ canonical_dns_name rname
            ∷ decimal n1
            ∷ decimal n2
            ∷ decimal n3
            ∷ decimal n4
            ∷ decimal n5
            ∷ []))
  exchanger :
      (text pref exchange : Bytes) (n : ℕ)
      → fields text ≡ pref ∷ exchange ∷ []
      → atoi pref ≡ some n
      → n ≤ 65535
      → IsName (canonical_dns_name exchange)
      → Reads 15 text (spaced (decimal n ∷ canonical_dns_name exchange ∷ []))
  text_parts :
      (text : Bytes)
      → All (λ s. length (trim_space s) ≤ 255) (split b';' text)
      → txt_parts (split b';' text) ≢ []
      → Reads 16 text (join (b';' ∷ b' ' ∷ []) (txt_parts (split b';' text)))
  service :
      (text priority weight port host : Bytes) (p w o : ℕ)
      → fields text ≡ priority ∷ weight ∷ port ∷ host ∷ []
      → parse_uint 16 priority ≡ some p
      → parse_uint 16 weight ≡ some w
      → parse_uint 16 port ≡ some o
      → IsName (canonical_dns_name host)
      → Reads 33 text (
          canonical_dns_name
            (spaced (decimal p ∷ decimal w ∷ decimal o ∷ canonical_dns_name host ∷ [])))
  authorization :
      (text flag tag word : Bytes) (words : List Bytes) (n : ℕ)
      → fields text ≡ flag ∷ tag ∷ word ∷ words
      → parse_uint 8 flag ≡ some n
      → length tag ≤ 253
      → length (caa_value (word ∷ words)) ≤ 255
      → Reads 257 text
          (spaced (decimal n ∷ tag ∷ (b'"' ∷ (caa_value (word ∷ words) ++ b'"' ∷ [])) ∷ []))

-- A text of an IPv4 address, of an IPv6 address as `IP.String` prints it, of a name (NS, CNAME, PTR), of the fields of a SOA, MX, SRV or CAA
-- record, or of the parts of a TXT record is encoded, where names have labels of 1 to 63 bytes in
-- canonical form, numbers fit their fields, a CAA tag has at most 253 bytes, and a CAA value and the parts
-- of a TXT record, not all of them blank, at most 255; and the data decode to the same text with its
-- names in canonical form, its numbers in plain decimal, one space between fields, the value of a CAA
-- record in quotes, the parts of a TXT record that are not blank separated by "; ", and all of a SRV
-- record in canonical form.
pub decode-encode :
    {t : RrType} {text plain : Bytes} → Reads t text plain → (encode t text >>= decode t) ≡ ok plain
unfolding encode is_name_type is_not_implemented
decode-encode (address a b c d h) = decode_a-encode_a a b c d h
decode-encode (long_address b h) = decode_aaaa-encode_aaaa b h
decode-encode (target t name kind h) =
    rw (is_name_type-false t kind) (rw kind (decode-encode_domain_name t name kind h))
decode-encode (authority text m r t1 t2 t3 t4 t5 n1 n2 n3 n4 n5 s hm hr h1 h2 h3 h4 h5) =
    decode-encode_soa text m r t1 t2 t3 t4 t5 n1 n2 n3 n4 n5 s hm hr h1 h2 h3 h4 h5
decode-encode (exchanger text pref exchange n s h small named) =
    decode-encode_mx text pref exchange n s h small named
decode-encode (text_parts text h some_part) = decode-encode_txt text h some_part
decode-encode (service text priority weight port host p w o s hp hw ho named) =
    decode-encode_srv text priority weight port host p w o s hp hw ho named
decode-encode (authorization text flag tag word words n s h short fits) =
    decode-encode_caa text flag tag word words n s h short fits

-- The data of an address record: four bytes, or sixteen that do not stand for an address of version 4.
pub data IsAddress : RrType → Bytes → Type 0 where
  short : (a b c d : ℕ) → All (λ n. n < 256) (a ∷ b ∷ c ∷ d ∷ []) → IsAddress 1 (a ∷ b ∷ c ∷ d ∷ [])
  long : (b : Bytes) → IsV6 b → IsAddress 28 b

-- The data of an A record, four bytes, and those of an AAAA record, sixteen bytes that do not stand for
-- an IPv4 address, decode to a text that is encoded as the same data.
pub encode-decode : {t : RrType} {b : Bytes} → IsAddress t b → (decode t b >>= encode t) ≡ ok b
unfolding encode is_name_type is_not_implemented
encode-decode (short a b c d h) = encode_a-decode_a a b c d h
encode-decode (long b h) = encode_aaaa-decode_aaaa b h
