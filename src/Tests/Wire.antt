-- ===== src/Tests/Wire.antt =====
-- wire: messages at concrete inputs.
use rr_dns.Prelude.{
  ℕ, ltb, if◌then◌else◌, [], ◌∷◌, ◌++◌, inl, inr, ok, err, out_of_fuel, ◌>>=◌, ◌≡◌, refl, arith,
  ◌⊎◌,
}
use rr_dns.Prelude.Bytes.{Bytes, codes}
use rr_dns.Text.{split, trim_dot}
use rr_dns.Domain.Question.{Question}
use rr_dns.Wire.Octets.{put_u16, read_byte, read_u16, slice}
use rr_dns.Wire.Header.{message_header}
use rr_dns.Wire.Name.{round, decode_name}
use rr_dns.Wire.Name.Fuel.{Ended}
use rr_dns.Wire.Name.Pointers.{Descends, decode_name-Descends}
use rr_dns.Wire.Name.Panics.{Safe}
use rr_dns.Wire.Query.{encode_query, decode_query}
use rr_dns.Wire.Query.RoundTrip.{decode_query-encode_query}
use rr_dns.Wire.Query.Safety.{decode_query-Safe, decode_query-self_pointer, decode_query-Descends}

abbrev a_query : Question
a_query = record { id = 4660; name = codes "a.io."; rrtype = 1; rrclass = 1 }

decode_query-encode_query_example :
    (encode_query a_query >>= decode_query 5) ≡ ok (record a_query { name = trim_dot a_query.name })
unfolding split trim_dot
decode_query-encode_query_example =
    decode_query-encode_query a_query 5
      (record { id_fits = omega arith; rrtype_fits = omega arith; rrclass_fits = omega arith })
      (omega arith) (omega arith)

decode_query-Safe_example : Safe (decode_query 9 (1 ∷ 2 ∷ 3 ∷ []))
decode_query-Safe_example = decode_query-Safe 9 (1 ∷ 2 ∷ 3 ∷ [])

decode_query-self_pointer_example :
    decode_query 100 (message_header 1 0x0100 1 0 0 0 ++ (0xC0 ∷ 12 ∷ (put_u16 1 ++ put_u16 1)))
    ≡ err out_of_fuel
decode_query-self_pointer_example =
    decode_query-self_pointer 1 0x0100 0 0 0 (put_u16 1 ++ put_u16 1) 100 (omega arith)

-- "a", and a pointer to it from behind.
abbrev backward : Bytes
backward = 1 ∷ b'a' ∷ 0 ∷ 0xC0 ∷ 0 ∷ []

abbrev back_rank : ℕ → ℕ
back_rank o = if ltb o 3 then 0 else 1

abbrev IsOnPath : ℕ → Type 0
IsOnPath o = (o ≡ 3) ⊎ (o ≡ 0) ⊎ (o ≡ 2)

backward-Descends : Descends backward IsOnPath back_rank
unfolding round read_byte read_u16 slice
backward-Descends = record {
  along = λ (o n : ℕ) (s : Bytes) p e. elim p [
    | inl at_3 ↦ absurd (ground arith)
    | inr (inl at_0) ↦ (inr (inr (ground arith)), ground arith)
    | inr (inr at_2) ↦ absurd (ground arith)
  ];
  down = λ (o t n : ℕ) p e. elim p [
    | inl at_3 ↦ (inr (inl (ground arith)), ground arith)
    | inr (inl at_0) ↦ absurd (ground arith)
    | inr (inr at_2) ↦ absurd (ground arith)
  ];
}

decode_name-Descends_example : Ended (decode_name 12 backward 3)
decode_name-Descends_example =
    decode_name-Descends backward IsOnPath back_rank 3 12 backward-Descends (inl refl) (omega arith)

-- A query whose name is a pointer to a byte 0 of its header.
abbrev pointing : Bytes
pointing = message_header 1 0x0100 1 0 0 0 ++ (0xC0 ∷ 4 ∷ (put_u16 1 ++ put_u16 1))

abbrev point_rank : ℕ → ℕ
point_rank o = if ltb o 12 then 0 else 1

abbrev IsPointed : ℕ → Type 0
IsPointed o = (o ≡ 12) ⊎ (o ≡ 4)

pointing-Descends : Descends pointing IsPointed point_rank
unfolding round read_byte read_u16 slice message_header put_u16
pointing-Descends = record {
  along = λ (o n : ℕ) (s : Bytes) p e. elim p [
    | inl at_12 ↦ absurd (ground arith)
    | inr at_4 ↦ absurd (ground arith)
  ];
  down = λ (o t n : ℕ) p e. elim p [
    | inl at_12 ↦ (inr (ground arith), ground arith)
    | inr at_4 ↦ absurd (ground arith)
  ];
}

decode_query-Descends_example : Ended (decode_query 40 pointing)
unfolding message_header put_u16
decode_query-Descends_example =
    decode_query-Descends pointing IsPointed point_rank 40 pointing-Descends (inl refl)
      (omega arith)
