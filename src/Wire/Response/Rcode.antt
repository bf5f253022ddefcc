-- ===== src/Wire/Response/Rcode.antt =====
-- The response code that a message carries.
use rr_dns.Prelude.{
  ℕ, ◌%◌, ◌≤◌, ◌++◌, length, Result, Result-cases, ok, ltb, Bool-cases, inl, inr, ◌≡◌, arith,
}
use rr_dns.Prelude.Bytes.{Bytes}
use rr_dns.Domain.Codes.{RrType, noerror}
use rr_dns.Domain.Response.{DnsResponse}
use rr_dns.Wire.Octets.{put_u16, read_u16}
use rr_dns.Wire.Octets.Laws.{read_u16-lt}
use rr_dns.Wire.Header.{read_flags}
use rr_dns.Wire.Name.{encode_domain_name}
use rr_dns.Wire.Response.{
  response_header, first_name, encode_answers, encode_response, decode_sections, decode_response,
}

-- Whatever is encoded begins with the header that names no response code.
pub encode_response-header :
    (clock : ℕ → ℕ) (resp : DnsResponse) {msg : Bytes}
    → encode_response clock resp ≡ ok msg
    → (body : Bytes) × (msg ≡ response_header resp.id (length resp.answers) ++ body)
      × (length resp.answers ≤ 65535)
unfolding encode_response
encode_response-header clock resp h = elim (Result-cases (encode_domain_name resp.question.name)) [
  | inr (e, p) ↦ absurd (ground arith)
  | inl (qname, p) ↦ elim (Result-cases (encode_answers clock 0 first resp.answers)) [
    | inr (e, p') ↦ absurd (ground arith)
    | inl (answers, p') ↦ (
      qname ++ (put_u16 resp.question.rrtype ++ (put_u16 resp.question.rrclass ++ answers)),
      ground arith,
      ground arith,
    )
  ]
]
  where
    first : Bytes
    first = first_name resp.answers

module _ (decode_rdata : RrType → Bytes → Result Bytes) (f : ℕ) (msg : Bytes) (now : ℕ) where
  decode_sections-rcode :
      (id rcode qd an ns ar : ℕ) {r : DnsResponse}
      → decode_sections decode_rdata f msg now id rcode qd an ns ar ≡ ok r
      → (r.rcode ≡ rcode) × (r.id ≡ id)
  unfolding decode_sections
  decode_sections-rcode id rcode qd an ns ar h = ground arith

  decode_response-rcode :
      (expected_id : ℕ) {r : DnsResponse}
      → decode_response decode_rdata f msg now expected_id ≡ ok r
      → (flags : ℕ) × (read_u16 msg 2 ≡ ok flags) × (r.rcode ≡ flags % 16)
  unfolding decode_response
  decode_response-rcode expected_id h = elim (Bool-cases (ltb (length msg) 12)) [
    | inl short ↦ absurd (ground arith)
    | inr enough ↦
        let (flags, e2) = read_u16-lt msg 2 (ground arith) in
        let (id, e0) = read_u16-lt msg 0 (ground arith) in
        let (qd, e4) = read_u16-lt msg 4 (ground arith) in
        let (an, e6) = read_u16-lt msg 6 (ground arith) in
        let (ns, e8) = read_u16-lt msg 8 (ground arith) in
        let (ar, e10) = read_u16-lt msg 10 (ground arith) in
        (flags, e2, ground (arith, decode_sections-rcode id (flags % 16) qd an ns ar))
  ]

-- A response code is lost on the wire: what is encoded from any response, one with NXDOMAIN or
-- SERVFAIL among them, is decoded, if at all, as a response with the code NOERROR.
pub decode_response-encode_response_rcode :
    (decode_rdata : RrType → Bytes → Result Bytes) (f : ℕ) (clock : ℕ → ℕ) (now expected_id : ℕ)
    (resp : DnsResponse) {msg : Bytes} {r : DnsResponse}
    → encode_response clock resp ≡ ok msg
    → decode_response decode_rdata f msg now expected_id ≡ ok r
    → r.rcode ≡ noerror
decode_response-encode_response_rcode decode_rdata f clock now expected_id resp {msg} {r} h k =
    let (body, m, _) = encode_response-header clock resp h in
    let (flags, read, code) = decode_response-rcode decode_rdata f msg now expected_id k in
    ground (arith, read_flags resp.id 0x8180 1 (length resp.answers) 0 0 body (omega arith))
