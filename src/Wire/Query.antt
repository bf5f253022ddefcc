-- ===== src/Wire/Query.antt =====
-- question.go, and `EncodeQuery` and `DecodeQuery` of udp_codec.go.
pub mod RoundTrip
pub mod Safety
use rr_dns.Prelude.{
  ℕ, zero, suc, ◌+◌, ◌*◌, ltb, ◌==◌, not, if◌then◌else◌, true, false, List, [], ◌∷◌, ◌++◌, is_empty,
  length, Result, ok, err, ◌>>=◌, label_too_long, too_short, question_count, truncated_question,
}
use rr_dns.Prelude.Bytes.{Bytes}
use rr_dns.Text.{dot, split, trim_dot}
use rr_dns.Domain.Question.{Question}
use rr_dns.Wire.Octets.{byte, put_u16, read_u16}
use rr_dns.Wire.Header.{message_header}
use rr_dns.Wire.Name.{decode_name}

-- The loop over the labels in `EncodeQuery`: an empty label is skipped.
unfoldable pub encode_query_labels : List Bytes → Result Bytes
encode_query_labels [] = ok []
encode_query_labels (label ∷ labels) =
    if ltb 63 (length label)
    then err label_too_long
    else encode_query_labels labels >>= λ rest.
        ok (if ltb 0 (length label) then byte (length label) ∷ (label ++ rest) else rest)

-- ID, flags with RD = 1, QDCOUNT = 1, and three counts of 0.
abbrev pub query_header : ℕ → Bytes
query_header id = message_header id 0x0100 1 0 0 0

unfoldable pub encode_query : Question → Result Bytes
unfolding encode_query_labels
encode_query q = do
  labels ← encode_query_labels (split dot (trim_dot q.name))
  ok (query_header q.id ++ ((labels ++ 0 ∷ []) ++ (put_u16 q.rrtype ++ put_u16 q.rrclass)))

-- `decodeQuestion` behind the call of `decodeName`.
unfoldable pub question_fields : Bytes → Bytes → ℕ → Result (Bytes × ℕ × ℕ × ℕ)
question_fields msg name next = if ltb (length msg) (next + 4) then err truncated_question else (do
  qtype ← read_u16 msg next
  qclass ← read_u16 msg (next + 2)
  ok (name, qtype, qclass, next + 4))

unfoldable pub decode_question : ℕ → Bytes → ℕ → Result (Bytes × ℕ × ℕ × ℕ)
unfolding question_fields
decode_question f msg offset = do
  (name, next) ← decode_name f msg offset
  question_fields msg name next

unfoldable pub decode_query : ℕ → Bytes → Result Question
unfolding decode_question
decode_query f msg = if ltb (length msg) 12 then err too_short else (do
  id ← read_u16 msg 0
  qd_count ← read_u16 msg 4
  if not (qd_count == 1) then err (question_count qd_count) else (do
    (name, qtype, qclass, _) ← decode_question f msg 12
    ok (record { id = id; name = name; rrtype = qtype; rrclass = qclass })))
