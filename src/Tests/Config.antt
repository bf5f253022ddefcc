-- ===== src/Tests/Config.antt =====
-- Settings, addresses of servers, and the texts of records.
use rr_dns.Prelude.{
  ℕ, ◌<◌, true, false, List, [], ◌∷◌, ◌++◌, some, ok, ◌>>=◌, ◌≡◌, ◌⊎◌, refl, inr, arith,
}
use rr_dns.Prelude.Bytes.{Bytes, codes}
use rr_dns.Text.{
  split, join, is_space, trim_space, trim_left, trim_right, trim_dot, has_dot, to_lower,
}
use rr_dns.Text.Decimal.{decimal}
use rr_dns.Text.Fields.{fields, parse_uint, value}
use rr_dns.Names.{canonical_dns_name, trim_dots}
use rr_dns.Rdata.{spaced, decode}
use rr_dns.Rdata.Address.Parse.{parse_ip, is_v4_text}
use rr_dns.Rdata.Encode.{encode}
use rr_dns.Rdata.Encode.RoundTrip.{encode-decode, long, authority, decode-encode}
use rr_dns.Rdata.Address.{is_v4_in_v6, v6_string}
use rr_dns.Config.{many, valid_ip_port, transform_value, transform}
use rr_dns.Config.Servers.{valid_ip_port-bounds}
use rr_dns.Config.Accepted.{bracketed, Printed-valid_ip_port}
use rr_dns.Config.Env.{transform_value-join}

abbrev two_servers : List Bytes
two_servers = codes "1.1.1.1:53" ∷ codes "[::1]:53" ∷ []

transform_servers :
    transform (codes "DNS_SERVERS") (codes " 1.1.1.1:53, [::1]:53 ")
    ≡ (codes "servers", many two_servers)
unfolding transform to_lower trim_space is_space
transform_servers = refl

valid_servers :
    (valid_ip_port (codes "1.1.1.1:53") ≡ true)
    × (valid_ip_port (codes "[::1]:65535") ≡ true)
    × (valid_ip_port (codes "1.1.1.1:0") ≡ false)
    × (valid_ip_port (codes "1.1.1.1:65536") ≡ false)
    × (valid_ip_port (codes "localhost:53") ≡ false)
    × (valid_ip_port (codes "::1:53") ≡ false)
unfolding valid_ip_port parse_ip is_v4_text split value parse_uint
valid_servers = (refl, refl, refl, refl, refl, refl)

transform_value-join_example : transform_value (codes "1.1.1.1:53,[::1]:53") ≡ many two_servers
unfolding join is_space
transform_value-join_example = transform_value-join b',' two_servers (inr refl) (ground arith)

valid_ip_port-bounds_example :
    (ip port ip_bytes : Bytes) × (n : ℕ) × ((codes "1.1.1.1:53" ≡ ip ++ b':' ∷ port)
      ⊎ (codes "1.1.1.1:53" ≡ b'[' ∷ (ip ++ b']' ∷ b':' ∷ port)))
    × (parse_ip ip ≡ some ip_bytes)
    × (parse_uint 16 port ≡ some n)
    × (0 < n)
    × (n < 65536)
valid_ip_port-bounds_example = valid_ip_port-bounds (codes "1.1.1.1:53") valid_servers.0

decode-encode_example :
    (encode 6 (codes "a.io b.io 1 2 3 4 5") >>= decode 6)
    ≡ ok (
        spaced (
          canonical_dns_name (codes "a.io")
          ∷ canonical_dns_name (codes "b.io")
          ∷ decimal 1
          ∷ decimal 2
          ∷ decimal 3
          ∷ decimal 4
          ∷ decimal 5
          ∷ []))
unfolding fields parse_uint value is_space canonical_dns_name trim_dots trim_dot has_dot to_lower
    trim_space trim_left trim_right split
decode-encode_example = decode-encode (
    authority (codes "a.io b.io 1 2 3 4 5") (codes "a.io") (codes "b.io") (codes "1") (codes "2")
      (codes "3") (codes "4") (codes "5") 1 2 3 4 5 refl (ground arith) (ground arith) refl refl
      refl refl refl)

-- ::1
abbrev loopback : Bytes
loopback = 0 ∷ 0 ∷ 0 ∷ 0 ∷ 0 ∷ 0 ∷ 0 ∷ 0 ∷ 0 ∷ 0 ∷ 0 ∷ 0 ∷ 0 ∷ 0 ∷ 0 ∷ 1 ∷ []

encode-decode_example : (decode 28 loopback >>= encode 28) ≡ ok loopback
unfolding is_v4_in_v6
encode-decode_example = encode-decode (long loopback (refl, omega arith, refl))

-- [::1]:53
Printed-valid_ip_port_example :
    valid_ip_port (b'[' ∷ (v6_string loopback ++ b']' ∷ b':' ∷ decimal 53)) ≡ true
unfolding is_v4_in_v6
Printed-valid_ip_port_example =
    Printed-valid_ip_port
      (bracketed loopback 53 (refl, omega arith, refl) (omega arith) (omega arith))
