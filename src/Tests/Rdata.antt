-- ===== src/Tests/Rdata.antt =====
-- The data of records at concrete inputs.
use rr_dns.Prelude.{[], ◌∷◌, length, err, panic, ◌≡◌, refl, arith}
use rr_dns.Prelude.Bytes.{Bytes, codes}
use rr_dns.Text.{join}
use rr_dns.Wire.Name.Panics.{Safe}
use rr_dns.Rdata
use rr_dns.Rdata.{encode_domain_name, is_name_type}
use rr_dns.Rdata.Address.{v6_string, groups, longest_run, zero_run, hex16}
use rr_dns.Rdata.Safety.{decode-Safe, decode-caa_panic, decode-soa_panic}

v6_text :
    v6_string
      (0x20 ∷ 1 ∷ 0xd ∷ 0xb8 ∷ 0 ∷ 0 ∷ 0 ∷ 0 ∷ 0 ∷ 0 ∷ 0xff ∷ 0 ∷ 0 ∷ 0x42 ∷ 0x83 ∷ 0x29 ∷ [])
    ≡ codes "2001:db8::ff00:42:8329"
unfolding v6_string groups longest_run zero_run hex16 join
v6_text = refl

decode-Safe_example : Safe (Rdata.decode 16 (9 ∷ 1 ∷ []))
decode-Safe_example = decode-Safe 16 (9 ∷ 1 ∷ []) (λ x. omega arith) (λ x. omega arith)

decode-caa_panic_example : Rdata.decode 257 (0 ∷ 255 ∷ 1 ∷ []) ≡ err panic
decode-caa_panic_example = decode-caa_panic 0 255 (1 ∷ []) (omega arith) (omega arith)

abbrev long_label : Bytes
long_label = codes "abcdefghijklmnopqrstuvwxyz"

decode-soa_panic_example : Rdata.decode 6 (length long_label ∷ long_label) ≡ err panic
decode-soa_panic_example = decode-soa_panic long_label (omega arith) (omega arith)
