-- ===== src/Wire/Query/Safety.antt =====
-- `DecodeQuery` on any bytes: its bounds, and where it ends.
use rr_dns.Prelude.{
  ℕ, length, ◌*◌, ◌≤◌, ◌+◌, ◌^◌, ◌<◌, ◌∷◌, ◌++◌, err, out_of_fuel, ◌≡◌, refl, inr, arith,
}
use rr_dns.Prelude.Bytes.{Bytes}
use rr_dns.Wire.Octets.{put_u16, read_u16, read_byte}
use rr_dns.Wire.Octets.Laws.{read_u16-lt}
use rr_dns.Wire.Header.{message_header, message-le, read_id, read_qd}
use rr_dns.Wire.Name.{decode_name, round, jump}
use rr_dns.Wire.Name.Fuel.{Ended}
use rr_dns.Wire.Name.Pointers.{Descends, Ended-bind, decode_name-trap, decode_name-Descends}
use rr_dns.Wire.Name.Panics.{Safe, Safe-bind, decode_name-Safe}
use rr_dns.Wire.Query.{question_fields, decode_question, decode_query}

question_fields-Safe : (msg name : Bytes) (next : ℕ) → Safe (question_fields msg name next)
unfolding question_fields
question_fields-Safe msg name next x =
    ground (arith, read_u16-lt msg next, read_u16-lt msg (next + 2))

decode_question-Safe : (f : ℕ) (msg : Bytes) (o : ℕ) → Safe (decode_question f msg o)
unfolding decode_question
decode_question-Safe f msg o =
    Safe-bind (decode_name f msg o) _ (decode_name-Safe f msg o)
      (λ r p. question_fields-Safe msg r.0 r.1)

-- Whatever the bytes of the datagram, decoding it as a query never indexes or slices out of range.
pub decode_query-Safe : (f : ℕ) (msg : Bytes) → Safe (decode_query f msg)
unfolding decode_query
decode_query-Safe f msg x =
    ground (arith, read_u16-lt msg 0, read_u16-lt msg 4, decode_question-Safe f msg 12)

decode_question-Descends :
    (msg : Bytes) (P : ℕ → Type 0) (rank : ℕ → ℕ) (f : ℕ)
    → Descends msg P rank
    → P 12
    → (rank 12 + 1) * (length msg + 1) ≤ f
    → Ended (decode_question f msg 12)
unfolding decode_question question_fields
decode_question-Descends msg P rank f d p h =
    Ended-bind (decode_name f msg 12) _ (decode_name-Descends msg P rank 12 f d p h)
      (λ r x. ground (arith, read_u16-lt msg r.1, read_u16-lt msg (r.1 + 2)))

-- A datagram whose pointers descend by some measure, on a set of offsets that has the beginning of the
-- question (12) and that the walk over the name keeps to, is done decoding as a query, with a value or
-- an error of the program, on as much fuel as the measure there allows jumps, and one, times the
-- length of the datagram and one.
pub decode_query-Descends :
    (msg : Bytes) (P : ℕ → Type 0) (rank : ℕ → ℕ) (f : ℕ)
    → Descends msg P rank
    → P 12
    → (rank 12 + 1) * (length msg + 1) ≤ f
    → Ended (decode_query f msg)
unfolding decode_query
decode_query-Descends msg P rank f d p h x =
    ground
      (arith, read_u16-lt msg 0, read_u16-lt msg 4, decode_question-Descends msg P rank f d p h)

self_pointer-round :
    (id flags an ns ar : ℕ) (rest : Bytes)
    → round (message_header id flags 1 an ns ar ++ (0xC0 ∷ 12 ∷ rest)) 12 ≡ jump 12 14
unfolding round read_byte read_u16 message_header put_u16
self_pointer-round id flags an ns ar rest = ground arith

-- A datagram of 14 bytes or more with one question whose name is a pointer to itself (offset 12):
-- no fuel suffices, so the decoding of the query does not end.
pub decode_query-self_pointer :
    (id flags an ns ar : ℕ) (rest : Bytes) (f : ℕ)
    → id < 2 ^ 16
    → decode_query f (message_header id flags 1 an ns ar ++ (0xC0 ∷ 12 ∷ rest)) ≡ err out_of_fuel
unfolding decode_query decode_question
decode_query-self_pointer id flags an ns ar rest f h =
    rw (read_id id flags 1 an ns ar body h, read_qd id flags 1 an ns ar body (omega arith), stuck)
      (ground (arith, message-le id flags 1 an ns ar body))
  where
    body : Bytes
    body = 0xC0 ∷ 12 ∷ rest

    msg : Bytes
    msg = message_header id flags 1 an ns ar ++ body

    stuck : decode_name f msg 12 ≡ err out_of_fuel
    stuck =
        decode_name-trap msg (λ o. o ≡ 12)
          (λ o e. inr (12, 14, rw e (self_pointer-round id flags an ns ar rest), refl)) 12 refl f
