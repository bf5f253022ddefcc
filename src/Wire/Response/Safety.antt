-- ===== src/Wire/Response/Safety.antt =====
-- `DecodeResponse` on any bytes: it never reads out of range, but where the decoding of the data does.
use rr_dns.Prelude.{
  ℕ, zero, suc, ◌+◌, ◌%◌, length, Result, Error, ok, err, panic, ◌>>=◌, wrap_err, is_value, Section,
  answer, authority, additional, ◌-◌, take, drop, Bool-cases, ltb, leb, inl, inr, ◌≡◌, ◌≢◌, ◌⊎◌,
  refl, arith, record_name_failed, rdata_failed, record_invalid, parse_failed, ◌==◌,
}
use rr_dns.Prelude.Bytes.{Bytes}
use rr_dns.Domain.Codes.{RrType}
use rr_dns.Domain.Record
use rr_dns.Domain.Record.{ResourceRecord, new_cached}
use rr_dns.Wire.Octets.{read_u16}
use rr_dns.Wire.Octets.Laws.{read_byte-lt, read_u16-lt, read_u32-lt, slice-le}
use rr_dns.Wire.Name.{decode_name}
use rr_dns.Wire.Name.Panics.{Safe, Safe-bind, decode_name-Safe}
use rr_dns.Rdata
use rr_dns.Rdata.Safety.{decode-Safe}
use rr_dns.Wire.Response.{
  skip_labels, skip_questions, record_data, record_fields, parse_record, parse_records,
  decode_sections, decode_response,
}

-- A run-time panic of the run gives `C`: `Safe` is the case where `C` is empty.
abbrev pub Blames {ℓ} : Type 0 → {A : Type ℓ} → Result A → Type ℓ
Blames C r = r ≡ err panic → C

Blames-bind {ℓ κ} :
    {C : Type 0} {A : Type ℓ} {B : Type κ} (m : Result A) (k : A → Result B)
    → Blames C m
    → ((a : A) → m ≡ ok a → Blames C (k a))
    → Blames C (m >>= k)
Blames-bind (ok a) k hm hk = hk a refl
Blames-bind (err e) k hm hk = λ x. hm (ground arith)

Blames-wrap_err {ℓ} :
    {C : Type 0} {A : Type ℓ} (f : Error → Error) (m : Result A)
    → ((e : Error) → f e ≢ panic)
    → Blames C m
    → Blames C (wrap_err f m)
Blames-wrap_err f (ok a) hf hm x = absurd (ground arith)
Blames-wrap_err f (err e) hf hm x = elim (Bool-cases (is_value e)) [
  | inl v ↦ absurd (ground (arith, hf e))
  | inr v ↦ hm (ground arith)
]

new_cached-Safe :
    (name : Bytes) (t c ttl : ℕ) (rdata text : Bytes) (now : ℕ)
    → Safe (new_cached name t c ttl rdata text now)
unfolding new_cached Record.validate
new_cached-Safe name t c ttl rdata text now x = ground arith

skip_labels-Safe : (f : ℕ) (msg : Bytes) (o : ℕ) → Safe (skip_labels f msg o)
unfolding skip_labels
skip_labels-Safe zero msg o x = ground arith
skip_labels-Safe (suc f) msg o x = elim (Bool-cases (leb (length msg) o)) [
  | inl beyond ↦ ground arith
  | inr within ↦
      let (l, e) = read_byte-lt msg o (ground arith) in
      ground (arith, skip_labels-Safe f msg (o + 1 + l))
]

skip_questions-Safe : (n : ℕ) (msg : Bytes) (o : ℕ) → Safe (skip_questions n msg o)
unfolding skip_questions
skip_questions-Safe zero msg o = λ x. ground arith
skip_questions-Safe (suc n) msg o =
    Safe-bind (skip_labels (length msg + 1) msg o) _ (skip_labels-Safe (length msg + 1) msg o)
      (λ next p. skip_questions-Safe n msg (next + 4))

decode-panic_type :
    (t : RrType) (rdata : Bytes) → Rdata.decode t rdata ≡ err panic → (t ≡ 6) ⊎ (t ≡ 257)
decode-panic_type t rdata x = elim (Bool-cases (t == 6)) [
  | inl soa ↦ inl (ground arith)
  | inr not_soa ↦ elim (Bool-cases (t == 257)) [
    | inl caa ↦ inr (ground arith)
    | inr not_caa ↦ absurd (decode-Safe t rdata (ground arith) (ground arith) x)
  ]
]

module _ (decode_rdata : RrType → Bytes → Result Bytes) (C : Type 0) (f : ℕ) (msg : Bytes) (now : ℕ)
    (decoder : (o t size : ℕ)
      → read_u16 msg o ≡ ok t
      → read_u16 msg (o + 8) ≡ ok size
      → Blames C (decode_rdata t (take size (drop (o + 10) msg)))) where
  record_data-Blames :
      (name : Bytes) (t c ttl : ℕ) (rdata : Bytes) (next : ℕ)
      → Blames C (decode_rdata t rdata)
      → Blames C (record_data decode_rdata f msg now name t c ttl rdata next)
  unfolding record_data
  record_data-Blames name t c ttl rdata next safe =
      Blames-bind (wrap_err rdata_failed (decode_rdata t rdata)) _
        (Blames-wrap_err rdata_failed _ (λ e x. ground arith) safe)
        (λ text p.
          Blames-bind (wrap_err record_invalid (new_cached name t c ttl rdata text now)) _
            (Blames-wrap_err record_invalid _ (λ e x. ground arith)
              (λ y. absurd (new_cached-Safe name t c ttl rdata text now y)))
            (λ rr q x. absurd (ground arith)))

  record_fields-Blames :
      (name : Bytes) (o : ℕ) → Blames C (record_fields decode_rdata f msg now name o)
  unfolding record_fields
  record_fields-Blames name o x = elim (Bool-cases (ltb (length msg) (o + 10))) [
    | inl short ↦ absurd (ground arith)
    | inr enough ↦
        let (t, e0) = read_u16-lt msg o (ground arith) in
        let (c, e2) = read_u16-lt msg (o + 2) (ground arith) in
        let (ttl, e4) = read_u32-lt msg (o + 4) (ground arith) in
        let (size, e8) = read_u16-lt msg (o + 8) (ground arith) in
        elim (Bool-cases (ltb (length msg) (o + 10 + size))) [
          | inl cut ↦ absurd (ground arith)
          | inr whole ↦
              let rdata = take (o + 10 + size - (o + 10)) (drop (o + 10) msg) in
              let exact : o + 10 + size - (o + 10) ≡ size = omega arith in
              let cut = slice-le msg (o + 10) (o + 10 + size) (omega arith) (ground arith) in
              record_data-Blames name t c ttl rdata (o + 10 + size)
                (rw exact (decoder o t size e0 e8)) (rw (enough, e0, e2, e4, e8, whole, cut) at x)
        ]
  ]

  parse_record-Blames : (o : ℕ) → Blames C (parse_record decode_rdata f msg now o)
  unfolding parse_record
  parse_record-Blames o x = elim (Bool-cases (ltb (length msg) (o + 10))) [
    | inl short ↦ absurd (ground arith)
    | inr enough ↦
        Blames-bind (wrap_err record_name_failed (decode_name f msg o)) _
          (Blames-wrap_err record_name_failed _ (λ e y. ground arith)
            (λ y. absurd (decode_name-Safe f msg o y)))
          (λ r p. record_fields-Blames r.0 r.1) (rw enough at x)
  ]

  parse_records-Blames :
      (section : Section) (i n o : ℕ)
      → Blames C (parse_records decode_rdata f msg now section i n o)
  unfolding parse_records
  parse_records-Blames section i zero o = λ x. absurd (ground arith)
  parse_records-Blames section i (suc n) o =
      Blames-bind (wrap_err (parse_failed section i) (parse_record decode_rdata f msg now o)) _
        (Blames-wrap_err (parse_failed section i) _ (λ e x. ground arith) (parse_record-Blames o))
        (λ r p.
          Blames-bind (parse_records decode_rdata f msg now section (i + 1) n r.1) _
            (parse_records-Blames section (i + 1) n r.1) (λ rest q x. absurd (ground arith)))

  decode_sections-Blames :
      (id rcode qd an ns ar : ℕ)
      → Blames C (decode_sections decode_rdata f msg now id rcode qd an ns ar)
  unfolding decode_sections
  decode_sections-Blames id rcode qd an ns ar =
      Blames-bind (skip_questions qd msg 12) _ (λ y. absurd (skip_questions-Safe qd msg 12 y))
        (λ o p.
          Blames-bind (parse_records decode_rdata f msg now answer 0 an o) _
            (parse_records-Blames answer 0 an o)
            (λ r1 p1.
              Blames-bind (parse_records decode_rdata f msg now authority 0 ns r1.1) _
                (parse_records-Blames authority 0 ns r1.1)
                (λ r2 p2.
                  Blames-bind (parse_records decode_rdata f msg now additional 0 ar r2.1) _
                    (parse_records-Blames additional 0 ar r2.1)
                    (λ r3 p3 x. absurd (ground arith)))))

  decode_response-Blames :
      (expected_id : ℕ) → Blames C (decode_response decode_rdata f msg now expected_id)
  unfolding decode_response
  decode_response-Blames expected_id x = elim (Bool-cases (ltb (length msg) 12)) [
    | inl short ↦ absurd (ground arith)
    | inr enough ↦
        let (id, e0) = read_u16-lt msg 0 (ground arith) in
        let (flags, e2) = read_u16-lt msg 2 (ground arith) in
        let (qd, e4) = read_u16-lt msg 4 (ground arith) in
        let (an, e6) = read_u16-lt msg 6 (ground arith) in
        let (ns, e8) = read_u16-lt msg 8 (ground arith) in
        let (ar, e10) = read_u16-lt msg 10 (ground arith) in
        ground (arith, decode_sections-Blames id (flags % 16) qd an ns ar)
  ]

-- Whatever the bytes of the datagram and the counts in its header, where `DecodeResponse` with the
-- decoder of the program reads out of range, the datagram has the type and the length of a SOA or CAA
-- record, and that decoder reads out of range on just those of its bytes that follow the length, as
-- many as it says.
pub decode_response-decode_blame :
    (f : ℕ) (msg : Bytes) (now expected_id : ℕ)
    → decode_response Rdata.decode f msg now expected_id ≡ err panic
    → (o t size : ℕ) × (read_u16 msg o ≡ ok t)
      × (read_u16 msg (o + 8) ≡ ok size)
      × ((t ≡ 6) ⊎ (t ≡ 257))
      × (Rdata.decode t (take size (drop (o + 10) msg)) ≡ err panic)
decode_response-decode_blame f msg now expected_id =
    decode_response-Blames Rdata.decode _ f msg now
      (λ o t size p r x. (o, t, size, p, r, decode-panic_type t _ x, x)) expected_id
