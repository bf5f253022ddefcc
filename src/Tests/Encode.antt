-- ===== src/Tests/Encode.antt =====
-- Encoders at concrete inputs.
use rr_dns.Prelude.{[], ◌∷◌, ok, some, none, ◌≡◌, refl}
use rr_dns.Prelude.Bytes.{codes}
use rr_dns.Text.{is_space, split, join, trim_left, trim_right}
use rr_dns.Text.Fields.{fields, atoi, value, trim_quotes, parse_uint}
use rr_dns.Rdata.Encode.{encode_caa}
use rr_dns.Rdata.Address.Parse.{
  octet, parse_ip, v6_groups, hex_run, hex_number, after_group, fill_gap, parse_v4, is_v4_text,
  v4_in_v6,
}

words : fields (codes "  10  mail.io ") ≡ codes "10" ∷ codes "mail.io" ∷ []
unfolding fields is_space
words = refl

signed : atoi (codes "-0") ≡ some 0
unfolding atoi value
signed = refl

v6_parsed :
    parse_ip (codes "2001:db8::ff00:42:8329")
    ≡ some (0x20 ∷ 1 ∷ 0xd ∷ 0xb8 ∷ 0 ∷ 0 ∷ 0 ∷ 0 ∷ 0 ∷ 0 ∷ 0xff ∷ 0 ∷ 0 ∷ 0x42 ∷ 0x83 ∷ 0x29 ∷ [])
unfolding parse_ip v6_groups hex_run hex_number after_group fill_gap is_v4_text
v6_parsed = refl

v4_parsed : parse_ip (codes "10.0.0.1") ≡ some (v4_in_v6 (10 ∷ 0 ∷ 0 ∷ 1 ∷ []))
unfolding parse_ip parse_v4 octet split is_v4_text value
v4_parsed = refl

mapped : parse_ip (codes "::ffff:1.2.3.4") ≡ some (v4_in_v6 (1 ∷ 2 ∷ 3 ∷ 4 ∷ []))
unfolding parse_ip v6_groups hex_run hex_number after_group fill_gap is_v4_text parse_v4 octet split
    value v4_in_v6
mapped = refl

two_gaps : parse_ip (codes "1::2::3") ≡ none
unfolding parse_ip v6_groups hex_run hex_number after_group fill_gap is_v4_text
two_gaps = refl

caa : encode_caa (codes "0 issue \"ca.io\"") ≡ ok (0 ∷ 5 ∷ codes "issueca.io")
unfolding encode_caa fields is_space value trim_quotes trim_left trim_right join parse_uint
caa = refl
