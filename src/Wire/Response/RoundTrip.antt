-- ===== src/Wire/Response/RoundTrip.antt =====
-- A response that `EncodeResponse` wrote is read back by `DecodeResponse`.
use rr_dns.Prelude.{
  ℕ, ◌+◌, ◌-◌, ◌%◌, ◌^◌, Option-cases, none, some, if◌then◌else◌, ◌≤◌, ◌<◌, List, [], ◌∷◌, ◌++◌,
  length, length-append, append_assoc, append-nil, Result, ok, ◌>>=◌, false, ltb, ◌≡◌, ◌⊎◌, inl,
  inr, refl, sym, ◌∙◌, arith, All, answer,
}
use rr_dns.Prelude.Bytes.{Bytes}
use rr_dns.Domain.Codes.{RrType, noerror}
use rr_dns.Domain.Record.{ResourceRecord, float_seconds, ttl_remaining}
use rr_dns.Domain.Record.Expiry.{float_seconds-mul}
use rr_dns.Domain.Response.{DnsResponse, no_question}
use rr_dns.Wire.Octets.{put_u16}
use rr_dns.Wire.Octets.Laws.{length-put_u16}
use rr_dns.Wire.Header.{
  length-message_header, message-le, read_id, read_flags, read_qd, read_an, read_ns, read_ar,
}
use rr_dns.Wire.Name.RoundTrip.{IsName, name_bytes, encode_domain_name-name_bytes}
use rr_dns.Wire.Response.{
  response_header, ttl_seconds, answer_fields, encode_answer, encode_answers, first_name,
  encode_response, skip_questions, parse_records, decode_sections, decode_response,
}
use rr_dns.Wire.Response.Skip.{skip_question}
use rr_dns.Wire.Response.Answer.{
  received, IsSendable, sent_name, answer_name-sent_name, parse_record-answer,
}

-- The answers on the wire.
answers_bytes : (ℕ → ℕ) → ℕ → Bytes → List ResourceRecord → Bytes
answers_bytes clock i first [] = []
answers_bytes clock i first (rr ∷ rrs) =
    (sent_name first rr.name ++ answer_fields rr (ttl_seconds rr (clock i)))
    ++ answers_bytes clock (i + 1) first rrs

-- The time that is left to a record, in whole seconds: its TTL if it does not expire, and else the
-- duration to its expiry as Go counts its seconds.
unfoldable pub seconds_left : ResourceRecord → ℕ → ℕ
seconds_left rr now = elim rr.expires_at [
  | none ↦ rr.ttl
  | some at ↦ float_seconds (at - now) % 2 ^ 32
]

ttl_seconds-seconds_left :
    (rr : ResourceRecord) (now : ℕ) → rr.ttl < 2 ^ 32 → ttl_seconds rr now ≡ seconds_left rr now
unfolding ttl_seconds seconds_left ttl_remaining
ttl_seconds-seconds_left rr now h = elim (Option-cases rr.expires_at) [
  | inl e ↦ rw (e, float_seconds-mul rr.ttl h) (omega arith)
  | inr (at, e) ↦
      let left : (if ltb at now then 0 else at - now) ≡ at - now = ground arith in rw (e, left) refl
]

-- The answers as the receiver keeps them: each with the time that was left to it when it was sent.
unfoldable pub received_all : (ℕ → ℕ) → ℕ → ℕ → List ResourceRecord → List ResourceRecord
received_all clock i now [] = []
received_all clock i now (rr ∷ rrs) =
    received rr (seconds_left rr (clock i)) now ∷ received_all clock (i + 1) now rrs

ttl_seconds-lt : (rr : ResourceRecord) (now : ℕ) → ttl_seconds rr now < 2 ^ 32
unfolding ttl_seconds
ttl_seconds-lt rr now = omega arith

module _ (decode_rdata : RrType → Bytes → Result Bytes) (f : ℕ) (clock : ℕ → ℕ)
    (first : Bytes) where
  encode_answers-answers_bytes :
      (i : ℕ) (rrs : List ResourceRecord)
      → All (IsSendable decode_rdata f) rrs
      → encode_answers clock i first rrs ≡ ok (answers_bytes clock i first rrs)
  unfolding encode_answers encode_answer answers_bytes
  encode_answers-answers_bytes i [] h = refl
  encode_answers-answers_bytes i (rr ∷ rrs) (s, h) =
      rw (answer_name-sent_name first rr.name s.named, encode_answers-answers_bytes (i + 1) rrs h)
        (ground (arith, s.rdata_fits))

  parse_records-answers_bytes :
      (msg : Bytes) (now : ℕ) (i : ℕ) (rrs : List ResourceRecord) (h q p r : Bytes) (o : ℕ)
      → All (IsSendable decode_rdata f) rrs
      → IsName first
      → msg ≡ h ++ (name_bytes first ++ q)
      → length h ≡ 12
      → msg ≡ p ++ (answers_bytes clock i first rrs ++ r)
      → o ≡ length p
      → parse_records decode_rdata f msg now answer i (length rrs) o
        ≡ ok (received_all clock i now rrs, o + length (answers_bytes clock i first rrs))
  unfolding parse_records answers_bytes received_all
  parse_records-answers_bytes msg now i [] h q p r o s hf mh eh mp eo = ground arith
  parse_records-answers_bytes msg now i (rr ∷ rrs) h q p r o (s, ss) hf mh eh mp eo =
      rw
        (
          parse_record-answer decode_rdata f msg now rr ttl first h q p rest o s
              (ttl_seconds-lt rr (clock i)) hf mh eh at_one eo,
          ← ttl_seconds-seconds_left rr (clock i) s.ttl_fits,
          parse_records-answers_bytes msg now (i + 1) rrs h q (p ++ one) r (o + length one) ss hf mh
              eh (at_one ∙ sym (append_assoc p one rest)) (omega (arith, length-append p one)),
        )
        (ground (arith, length-append one (answers_bytes clock (i + 1) first rrs)))
    where
      ttl : ℕ
      ttl = ttl_seconds rr (clock i)

      one : Bytes
      one = sent_name first rr.name ++ answer_fields rr ttl

      rest : Bytes
      rest = answers_bytes clock (i + 1) first rrs ++ r

      at_one : msg ≡ p ++ (one ++ rest)
      at_one = rw (← append_assoc one (answers_bytes clock (i + 1) first rrs) r) mp

-- What the receiver makes of a response: the question is not read, nor are further sections sent.
unfoldable pub received_response : (ℕ → ℕ) → ℕ → DnsResponse → DnsResponse
received_response clock now resp = record {
  id = resp.id;
  rcode = noerror;
  question = no_question;
  answers = received_all clock 0 now resp.answers;
  authorities = [];
  additionals = [];
}

-- A response whose ID fits, whose question has a name that the wire can carry, and whose answers, at
-- most 65535, can be sent.
pub record IsSendableResponse (decode_rdata : RrType → Bytes → Result Bytes) (f : ℕ)
    (resp : DnsResponse) : Type 0 where
  pub id_fits : resp.id < 2 ^ 16
  pub named : IsName resp.question.name
  pub few : length resp.answers ≤ 65535
  pub sendable : All (IsSendable decode_rdata f) resp.answers

-- With no answer there is no name to compare with.
encode_answers-first :
    (clock : ℕ → ℕ) (name : Bytes) (rrs : List ResourceRecord)
    → (rrs ≡ []) ⊎ (first_name rrs ≡ name)
    → encode_answers clock 0 (first_name rrs) rrs ≡ encode_answers clock 0 name rrs
unfolding encode_answers
encode_answers-first clock name [] same = refl
encode_answers-first clock name (rr ∷ rrs) (inl e) = absurd (ground arith)
encode_answers-first clock name (rr ∷ rrs) (inr e) = rw e

-- A response whose first answer, if any, is named as the question is, and that the wire can carry,
-- is encoded, and the message is decoded to the same answers in the same order: their names in
-- canonical form, and each with the time that was left to it when it was sent, counted from `now`.
-- The response code, the question and the other sections are not carried over.
pub decode_response-encode_response :
    (decode_rdata : RrType → Bytes → Result Bytes) (f : ℕ) (clock : ℕ → ℕ) (now : ℕ)
    (resp : DnsResponse)
    → IsSendableResponse decode_rdata f resp
    → (resp.answers ≡ []) ⊎ (first_name resp.answers ≡ resp.question.name)
    → (encode_response clock resp >>= λ msg. decode_response decode_rdata f msg now resp.id)
      ≡ ok (received_response clock now resp)
unfolding encode_response decode_response decode_sections parse_records received_response
decode_response-encode_response decode_rdata f clock now resp s same =
    rw
      (
        few_enough,
        encode_answers-first clock qname resp.answers same,
        encode_domain_name-name_bytes qname s.named,
        encode_answers-answers_bytes decode_rdata f clock qname 0 resp.answers s.sendable,
      )
      (rw
        (
          read_id resp.id 0x8180 1 n 0 0 body s.id_fits,
          read_flags resp.id 0x8180 1 n 0 0 body (omega arith),
          read_qd resp.id 0x8180 1 n 0 0 body (omega arith),
          read_an resp.id 0x8180 1 n 0 0 body (omega (arith, s.few)),
          read_ns resp.id 0x8180 1 n 0 0 body (omega arith),
          read_ar resp.id 0x8180 1 n 0 0 body (omega arith),
          skipped,
          parsed,
        )
        (ground (arith, s.few, message-le resp.id 0x8180 1 n 0 0 body)))
  where
    n : ℕ
    n = length resp.answers

    few_enough : ltb 65535 n ≡ false
    few_enough = ground (arith, s.few)

    qname : Bytes
    qname = resp.question.name

    fields : Bytes
    fields = put_u16 resp.question.rrtype ++ put_u16 resp.question.rrclass

    written : Bytes
    written = answers_bytes clock 0 qname resp.answers

    body : Bytes
    body =
        name_bytes qname
        ++ (put_u16 resp.question.rrtype ++ (put_u16 resp.question.rrclass ++ written))

    header : Bytes
    header = response_header resp.id n

    front : Bytes
    front = header ++ (name_bytes qname ++ fields)

    length-header : length header ≡ 12
    length-header = length-message_header resp.id 0x8180 1 n 0 0

    skipped : skip_questions 1 (header ++ body) 12 ≡ ok (12 + length (name_bytes qname) + 4)
    skipped = skip_question qname header _ 12 (sym length-header) s.named

    at_answers : header ++ body ≡ front ++ (written ++ [])
    at_answers = rw (
      append-nil written,
      append_assoc header (name_bytes qname ++ fields) written,
      append_assoc (name_bytes qname) fields written,
      append_assoc (put_u16 resp.question.rrtype) (put_u16 resp.question.rrclass) written,
    )

    length-front : length front ≡ 12 + length (name_bytes qname) + 4
    length-front = omega (
      arith,
      length-append header (name_bytes qname ++ fields),
      length-append (name_bytes qname) fields,
      length-append (put_u16 resp.question.rrtype) (put_u16 resp.question.rrclass),
      length-put_u16 resp.question.rrtype,
      length-put_u16 resp.question.rrclass,
      length-header,
    )

    parsed :
        parse_records decode_rdata f
          (header ++ body)
          now
          answer
          0
          n
          (12 + length (name_bytes qname) + 4)
        ≡ ok (
          received_all clock 0 now resp.answers,
          12 + length (name_bytes qname) + 4 + length written,
        )
    parsed =
        parse_records-answers_bytes decode_rdata f clock qname (header ++ body) now 0 resp.answers
          header _ front [] _ s.sendable s.named refl length-header at_answers (sym length-front)
