-- ===== src/Wire/Query/RoundTrip.antt =====
-- A query that `EncodeQuery` wrote is read back by `DecodeQuery`.
use rr_dns.Prelude.{
  ℕ, ◌+◌, ◌^◌, ◌≤◌, ◌<◌, List, [], ◌∷◌, ◌++◌, length, length-append, append_assoc, append-nil, ok,
  ◌>>=◌, ◌≡◌, refl, sym, ◌∙◌, arith, All,
}
use rr_dns.Prelude.Bytes.{Bytes}
use rr_dns.Text.{dot, split, trim_dot}
use rr_dns.Domain.Question.{Question}
use rr_dns.Wire.Octets.{put_u16, read_u16}
use rr_dns.Wire.Octets.Laws.{read_u16-at, length-put_u16}
use rr_dns.Wire.Header.{length-message_header, message-le, read_id, read_qd}
use rr_dns.Wire.Name.RoundTrip.{IsLabel, IsName, label_bytes, name_bytes, decode_name-name_bytes}
use rr_dns.Wire.Query.{
  encode_query_labels, query_header, encode_query, decode_question, decode_query,
}

pub encode_query_labels-label_bytes :
    (ss : List Bytes) → All IsLabel ss → encode_query_labels ss ≡ ok (label_bytes ss)
unfolding encode_query_labels label_bytes
encode_query_labels-label_bytes [] h = refl
encode_query_labels-label_bytes (s ∷ ss) (hs, h) =
    rw (encode_query_labels-label_bytes ss h) (ground arith)

-- The message that a query is sent as.
pub query_bytes : Question → Bytes
query_bytes q =
    query_header q.id ++ (name_bytes (trim_dot q.name) ++ (put_u16 q.rrtype ++ put_u16 q.rrclass))

encode_query-query_bytes :
    (q : Question) → IsName (trim_dot q.name) → encode_query q ≡ ok (query_bytes q)
unfolding encode_query query_bytes name_bytes
encode_query-query_bytes q h = rw (encode_query_labels-label_bytes (split dot (trim_dot q.name)) h)

-- The fields of a question fit their machine types.
pub record Fits (q : Question) : Type 0 where
  pub id_fits : q.id < 2 ^ 16
  pub rrtype_fits : q.rrtype < 2 ^ 16
  pub rrclass_fits : q.rrclass < 2 ^ 16

-- A question on the wire, wherever it stands.
pub decode_question-append :
    (name : Bytes) (t c : ℕ) (p r : Bytes) (o f : ℕ)
    → o ≡ length p
    → IsName name
    → t < 2 ^ 16
    → c < 2 ^ 16
    → length (split dot name) < f
    → decode_question f (p ++ (name_bytes name ++ (put_u16 t ++ (put_u16 c ++ r)))) o
      ≡ ok (name, t, c, o + length (name_bytes name) + 4)
unfolding decode_question
decode_question-append name t c p r o f e named ht hc k =
    rw (decode_name-name_bytes name p _ o f e named k)
      (rw (read_type, read_class) (ground (arith, longer)))
  where
    msg : Bytes
    msg = p ++ (name_bytes name ++ (put_u16 t ++ (put_u16 c ++ r)))

    next : ℕ
    next = o + length (name_bytes name)

    read_type : read_u16 msg next ≡ ok t
    read_type =
        read_u16-at msg (p ++ name_bytes name) t (put_u16 c ++ r) next
          (sym (append_assoc p (name_bytes name) _))
          (omega (arith, length-append p (name_bytes name))) ht

    read_class : read_u16 msg (next + 2) ≡ ok c
    read_class =
        read_u16-at msg ((p ++ name_bytes name) ++ put_u16 t) c r (next + 2)
          (sym (append_assoc p (name_bytes name) _)
            ∙ sym (append_assoc (p ++ name_bytes name) (put_u16 t) _))
          (omega (
            arith,
            length-append p (name_bytes name),
            length-append (p ++ name_bytes name) (put_u16 t),
            length-put_u16 t,
          ))
          hc

    longer : next + 4 ≤ length msg
    longer = omega (
      arith,
      length-append p (name_bytes name ++ (put_u16 t ++ (put_u16 c ++ r))),
      length-append (name_bytes name) (put_u16 t ++ (put_u16 c ++ r)),
      length-append (put_u16 t) (put_u16 c ++ r),
      length-append (put_u16 c) r,
      length-put_u16 t,
      length-put_u16 c,
    )

-- A query whose fields fit their machine types and whose name has labels of 1 to 63 bytes is
-- encoded, and the message decodes to the same query, less the trailing dot of the name.
pub decode_query-encode_query :
    (q : Question) (f : ℕ)
    → Fits q
    → IsName (trim_dot q.name)
    → length (split dot (trim_dot q.name)) < f
    → (encode_query q >>= decode_query f) ≡ ok (record q { name = trim_dot q.name })
unfolding decode_query query_bytes
decode_query-encode_query q f fits named h =
    rw (encode_query-query_bytes q named, query_bytes_lem)
      (rw
        (
          read_id _ 0x0100 1 0 0 0 body id_fits,
          read_qd _ 0x0100 1 0 0 0 body (omega arith),
          question,
        )
        (ground (arith, message-le q.id 0x0100 1 0 0 0 body)))
  where
    open fits use {id_fits, rrtype_fits, rrclass_fits}

    body : Bytes
    body = name_bytes (trim_dot q.name) ++ (put_u16 q.rrtype ++ (put_u16 q.rrclass ++ []))

    query_bytes_lem : query_bytes q ≡ query_header q.id ++ body
    query_bytes_lem = rw (append-nil (put_u16 q.rrclass), query_bytes)

    question :
        decode_question f (query_header q.id ++ body) 12
        ≡ ok (trim_dot q.name, q.rrtype, q.rrclass, 12 + length (name_bytes (trim_dot q.name)) + 4)
    question =
        decode_question-append (trim_dot q.name) q.rrtype q.rrclass (query_header q.id) [] 12 f
          (sym (length-message_header q.id 0x0100 1 0 0 0)) named rrtype_fits rrclass_fits h
