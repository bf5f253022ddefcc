-- ===== src/Wire/Response.antt =====
-- `EncodeResponse`, `DecodeResponse` and `parseResourceRecord` of udp_codec.go. The time left to a
-- record is read from the clock once for each answer.
pub mod Rcode
pub mod Safety
pub mod Answer
pub mod Skip
pub mod RoundTrip
use rr_dns.Prelude.{
  ℕ, zero, suc, ◌+◌, ◌*◌, ◌/◌, ◌%◌, ◌^◌, ltb, leb, ◌==◌, not, if◌then◌else◌, true, false, List, [],
  ◌∷◌, ◌++◌, length, Result, ok, err, ◌>>=◌, wrap_err, Section, answer, authority, additional,
  too_short, too_many_answers, data_too_large, id_mismatch, truncated_question_name,
  truncated_record, truncated_record_after_name, truncated_rdata, record_name_failed, rdata_failed,
  record_invalid, parse_failed, out_of_fuel, Option, none, some,
}
use rr_dns.Prelude.Bytes.{Bytes, bytes_eq}
use rr_dns.Domain.Codes.{RrType}
use rr_dns.Domain.Question.{Question}
use rr_dns.Domain.Record.{float_seconds, ResourceRecord, new_cached, ttl_remaining}
use rr_dns.Domain.Response.{DnsResponse, no_question}
use rr_dns.Wire.Octets.{byte, put_u16, put_u32, read_byte, read_u16, read_u32, slice}
use rr_dns.Wire.Header.{message_header}
use rr_dns.Wire.Name.{decode_name, encode_domain_name}

-- ID, flags 0x8180, one question, the answers, and two counts of 0.
abbrev pub response_header : ℕ → ℕ → Bytes
response_header id answers = message_header id 0x8180 1 answers 0 0

-- A pointer to the question's name if the answer is named as the first answer is.
unfoldable pub answer_name : Bytes → Bytes → Result Bytes
answer_name first name =
    if bytes_eq name first then ok (0xC0 ∷ 12 ∷ []) else encode_domain_name name

-- `uint32(rr.TTLRemaining().Seconds())`
unfoldable pub ttl_seconds : ResourceRecord → ℕ → ℕ
ttl_seconds rr now = float_seconds (ttl_remaining rr now) % 2 ^ 32

-- What is written of a record behind its name.
unfoldable pub answer_fields : ResourceRecord → ℕ → Bytes
answer_fields rr ttl =
    put_u16 rr.rrtype
    ++ (put_u16 rr.rrclass ++ (put_u32 ttl ++ (put_u16 (length rr.rdata) ++ rr.rdata)))

unfoldable pub encode_answer : Bytes → ResourceRecord → ℕ → Result Bytes
unfolding answer_name answer_fields ttl_seconds
encode_answer first rr now = do
  name ← answer_name first rr.name
  if ltb 65535 (length rr.rdata)
      then err (data_too_large (length rr.rdata))
      else ok (name ++ answer_fields rr (ttl_seconds rr now))

-- The loop over the answers; `clock i` is the moment at which the answer `i` is written.
unfoldable pub encode_answers : (ℕ → ℕ) → ℕ → Bytes → List ResourceRecord → Result Bytes
unfolding encode_answer
encode_answers clock i first [] = ok []
encode_answers clock i first (rr ∷ rrs) = do
  one ← encode_answer first rr (clock i)
  rest ← encode_answers clock (i + 1) first rrs
  ok (one ++ rest)

-- `resp.Answers[0].Name`, which is read only where there is an answer.
abbrev pub first_name : List ResourceRecord → Bytes
first_name [] = []
first_name (rr ∷ rrs) = rr.name

unfoldable pub encode_response : (ℕ → ℕ) → DnsResponse → Result Bytes
unfolding encode_answers
encode_response clock resp =
    let count = length resp.answers in
    if ltb 65535 count then err (too_many_answers count) else (do
      qname ← encode_domain_name resp.question.name
      answers ← encode_answers clock 0 (first_name resp.answers) resp.answers
      ok (
          response_header resp.id count
          ++ (qname
              ++ (put_u16 resp.question.rrtype ++ (put_u16 resp.question.rrclass ++ answers)))))

-- The inner loop that skips a name, label by label; a pointer is not known to it. Each round goes
-- forward, so that the length of the message is fuel enough.
unfoldable pub skip_labels : ℕ → Bytes → ℕ → Result ℕ
skip_labels zero msg offset = err out_of_fuel
skip_labels (suc f) msg offset =
    if leb (length msg) offset
    then err truncated_question_name
    else read_byte msg offset >>= λ l.
        (if l == 0 then ok (offset + 1) else skip_labels f msg (offset + 1 + l))

unfoldable pub skip_questions : ℕ → Bytes → ℕ → Result ℕ
unfolding skip_labels
skip_questions zero msg offset = ok offset
skip_questions (suc n) msg offset = do
  next ← skip_labels (length msg + 1) msg offset
  skip_questions n msg (next + 4)

-- `rrdata.Decode` gives the text of the data. `f` is the fuel of the names.
module _ (decode_rdata : RrType → Bytes → Result Bytes) (f : ℕ) (msg : Bytes) (now : ℕ) where
  -- `parseResourceRecord` from the end of the data on.
  unfoldable pub record_data : Bytes → ℕ → ℕ → ℕ → Bytes → ℕ → Result (ResourceRecord × ℕ)
  record_data name rrtype rrclass ttl rdata next = do
    text ← wrap_err rdata_failed (decode_rdata rrtype rdata)
    rr ← wrap_err record_invalid (new_cached name rrtype rrclass ttl rdata text now)
    ok (rr, next)

  -- `parseResourceRecord` behind the name.
  unfoldable pub record_fields : Bytes → ℕ → Result (ResourceRecord × ℕ)
  unfolding record_data
  record_fields name o = if ltb (length msg) (o + 10) then err truncated_record_after_name else (do
    rrtype ← read_u16 msg o
    rrclass ← read_u16 msg (o + 2)
    ttl ← read_u32 msg (o + 4)
    size ← read_u16 msg (o + 8)
    if ltb (length msg) (o + 10 + size) then err truncated_rdata else (do
      rdata ← slice msg (o + 10) (o + 10 + size)
      record_data name rrtype rrclass ttl rdata (o + 10 + size)))

  unfoldable pub parse_record : ℕ → Result (ResourceRecord × ℕ)
  unfolding record_fields
  parse_record offset = if ltb (length msg) (offset + 10) then err truncated_record else (do
    (name, o) ← wrap_err record_name_failed (decode_name f msg offset)
    record_fields name o)

  -- The loop over the `n` records of a section from the index `i` on.
  unfoldable pub parse_records : Section → ℕ → ℕ → ℕ → Result (List ResourceRecord × ℕ)
  unfolding parse_record
  parse_records section i zero offset = ok ([], offset)
  parse_records section i (suc n) offset = do
    (rr, next) ← wrap_err (parse_failed section i) (parse_record offset)
    (rrs, end) ← parse_records section (i + 1) n next
    ok (rr ∷ rrs, end)

  -- The records behind the header, by the counts of the four sections.
  unfoldable pub decode_sections : ℕ → ℕ → ℕ → ℕ → ℕ → ℕ → Result DnsResponse
  unfolding skip_questions parse_records
  decode_sections id rcode qd an ns ar = do
    o ← skip_questions qd msg 12
    (answers, o1) ← parse_records answer 0 an o
    (authorities, o2) ← parse_records authority 0 ns o1
    (additionals, _) ← parse_records additional 0 ar o2
    ok (record {
      id = id;
      rcode = rcode;
      question = no_question;
      answers = answers;
      authorities = authorities;
      additionals = additionals;
    })

  unfoldable pub decode_response : ℕ → Result DnsResponse
  unfolding decode_sections
  decode_response expected_id = if ltb (length msg) 12 then err too_short else (do
    id ← read_u16 msg 0
    if not (id == expected_id) then err (id_mismatch expected_id id) else (do
      flags ← read_u16 msg 2
      qd ← read_u16 msg 4
      an ← read_u16 msg 6
      ns ← read_u16 msg 8
      ar ← read_u16 msg 10
      decode_sections id (flags % 16) qd an ns ar))
