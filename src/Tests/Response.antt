-- ===== src/Tests/Response.antt =====
-- Responses at concrete inputs.
use rr_dns.Prelude.{
  take, drop, ◌+◌, ℕ, ◌*◌, [], ◌∷◌, ◌++◌, some, ok, err, panic, ◌>>=◌, inr, ◌≡◌, ◌⊎◌, refl, arith,
}
use rr_dns.Prelude.Bytes.{Bytes, codes}
use rr_dns.Text.{
  split, join, to_lower, trim_space, trim_left, trim_right, is_space, lower, trim_dot, has_dot,
}
use rr_dns.Names.{canonical_dns_name, trim_dots}
use rr_dns.Domain.Codes.{noerror, servfail, rrtype_is_valid, rrclass_is_valid, has_code}
use rr_dns.Domain.Record
use rr_dns.Domain.Record.{second, ResourceRecord, ttl_remaining}
use rr_dns.Domain.Response.{DnsResponse, no_question}
use rr_dns.Text.Decimal.{decimal}
use rr_dns.Wire.Octets.{put_u16, read_byte, read_u16, read_u32, slice}
use rr_dns.Wire.Name.{round, decode_labels, decode_name, encode_domain_name, encode_labels}
use rr_dns.Wire.Header.{message_header}
use rr_dns.Wire.Response.{
  encode_response, encode_answers, decode_response, decode_sections, skip_questions, skip_labels,
  parse_records,
}
use rr_dns.Wire.Response.Rcode.{decode_response-encode_response_rcode}
use rr_dns.Wire.Response.Safety.{decode_response-decode_blame}
use rr_dns.Wire.Response.Answer.{IsSendable}
use rr_dns.Wire.Response.RoundTrip.{
  received_response, IsSendableResponse, decode_response-encode_response,
}
use rr_dns.Wire.Octets.{read_u16}
use rr_dns.Rdata
use rr_dns.Rdata.{decode_soa, decode_domain_name, segments, is_name_type}
use rr_dns.Rdata.Address.{decode_a, to4}
use rr_dns.Resolver.HandleQuery.{build_response}
use rr_dns.Tests.Sample.{address, ask}

-- An answer to "a.io" with 100 seconds left at the moment 0.
abbrev pub answered : DnsResponse
answered =
    build_response (ask (codes "a.io")) noerror (address (codes "a.io") (some (100 * second)) ∷ [])

address-IsSendable : IsSendable Rdata.decode 9 (address (codes "a.io") (some (100 * second)))
unfolding split Rdata.decode decode_a to4 Record.validate canonical_dns_name trim_dots to_lower
    trim_space trim_left trim_right is_space lower trim_dot has_dot rrtype_is_valid rrclass_is_valid
    has_code join decimal
address-IsSendable = record {
  named = ground arith;
  rrtype_fits = omega arith;
  rrclass_fits = omega arith;
  ttl_fits = omega arith;
  rdata_fits = omega arith;
  decoded = refl;
  valid = refl;
  enough = ground arith;
}

pub answered-IsSendableResponse : IsSendableResponse Rdata.decode 9 answered
unfolding build_response split
answered-IsSendableResponse = record {
  id_fits = omega arith;
  named = ground arith;
  few = omega arith;
  sendable = (address-IsSendable, tt);
}

decode_response-encode_response_example :
    (encode_response (λ i. 0) answered >>= λ msg. decode_response Rdata.decode 9 msg 5 answered.id)
    ≡ ok (received_response (λ i. 0) 5 answered)
unfolding build_response
decode_response-encode_response_example =
    decode_response-encode_response Rdata.decode 9 (λ i. 0) 5 answered answered-IsSendableResponse
      (inr refl)

abbrev refused : DnsResponse
refused = build_response (ask (codes "a.io")) servfail []

abbrev refused_bytes : Bytes
refused_bytes =
    message_header 7 0x8180 1 0 0 0 ++ (1 ∷ b'a' ∷ 2 ∷ b'i' ∷ b'o' ∷ 0 ∷ (put_u16 1 ++ put_u16 1))

abbrev refused_read : DnsResponse
refused_read = record {
  id = 7;
  rcode = noerror;
  question = no_question;
  answers = [];
  authorities = [];
  additionals = [];
}

encoded : encode_response (λ i. 0) refused ≡ ok refused_bytes
unfolding build_response encode_response encode_answers encode_domain_name encode_labels split
    put_u16
encoded = refl

decoded : decode_response Rdata.decode 9 refused_bytes 5 7 ≡ ok refused_read
unfolding build_response decode_response decode_sections skip_questions skip_labels parse_records
    read_byte read_u16 message_header put_u16
decoded = refl

decode_response-encode_response_rcode_example : refused_read.rcode ≡ noerror
decode_response-encode_response_rcode_example =
    decode_response-encode_response_rcode Rdata.decode 9 (λ i. 0) 5 7 refused encoded decoded

-- A SOA record with the data of one label of 24 bytes.
abbrev broken_soa : Bytes
broken_soa =
    message_header 7 0x8180 0 1 0 0
    ++ (0
        ∷ (put_u16 6
            ++ (put_u16 1
                ++ (put_u16 0
                    ++ (put_u16 9 ++ (put_u16 25 ++ (24 ∷ codes "abcdefghijklmnopqrstuvwx")))))))

broken_soa_panics : decode_response Rdata.decode 9 broken_soa 5 7 ≡ err panic
unfolding decode_response decode_sections skip_questions parse_records read_byte read_u16 read_u32
    slice message_header put_u16 round decode_labels decode_name join Rdata.decode decode_soa
    decode_domain_name segments is_name_type
broken_soa_panics = refl

decode_response-decode_blame_example :
    (o t size : ℕ) × (read_u16 broken_soa o ≡ ok t)
    × (read_u16 broken_soa (o + 8) ≡ ok size)
    × ((t ≡ 6) ⊎ (t ≡ 257))
    × (Rdata.decode t (take size (drop (o + 10) broken_soa)) ≡ err panic)
decode_response-decode_blame_example =
    decode_response-decode_blame 9 broken_soa 5 7 broken_soa_panics
