-- ===== src/Wire/Response/Answer.antt =====
-- An answer that `EncodeResponse` wrote is read back by `parseResourceRecord`.
use rr_dns.Prelude.{
  ℕ, zero, suc, ◌+◌, ◌*◌, ◌^◌, ◌≤◌, ◌<◌, [], ◌∷◌, ◌++◌, length, length-append, append_assoc, Result,
  ok, some, Bool-cases, inl, inr, if◌then◌else◌, ◌≡◌, refl, sym, ◌∙◌, arith,
}
use rr_dns.Prelude.Bytes.{Bytes, bytes_eq, bytes_eq→eq}
use rr_dns.Text.{dot, split, join}
use rr_dns.Text.Split.{join-split}
use rr_dns.Names.{canonical_dns_name}
use rr_dns.Domain.Codes.{RrType}
use rr_dns.Domain.Record
use rr_dns.Domain.Record.{second, ResourceRecord, new_cached}
use rr_dns.Wire.Octets.{put_u16, put_u32, read_u16, read_u32, read_byte, slice}
use rr_dns.Wire.Octets.Laws.{read_byte-append, read_u16-at, read_u32-at, slice-at, length-put_u16}
use rr_dns.Wire.Name.{jump, round, decode_labels, decode_name}
use rr_dns.Wire.Name.RoundTrip.{
  IsName, label_bytes, name_bytes, encode_domain_name-name_bytes, decode_labels-label_bytes,
  decode_name-name_bytes,
}
use rr_dns.Wire.Response.{answer_name, answer_fields, record_data, record_fields, parse_record}

-- The record as the receiver keeps it.
unfoldable pub received : ResourceRecord → ℕ → ℕ → ResourceRecord
received rr ttl now = record {
  name = canonical_dns_name rr.name;
  rrtype = rr.rrtype;
  rrclass = rr.rrclass;
  ttl = ttl;
  expires_at = some (now + ttl * second);
  rdata = rr.rdata;
  text = rr.text;
}

-- A record that the wire can carry and the receiver accepts: its name has labels of 1 to 63 bytes,
-- its fields fit their machine types, its text is what its data decode to, and it is valid.
pub record IsSendable (decode_rdata : RrType → Bytes → Result Bytes) (f : ℕ) (rr : ResourceRecord)
    : Type 0 where
  pub named : IsName rr.name
  pub rrtype_fits : rr.rrtype < 2 ^ 16
  pub rrclass_fits : rr.rrclass < 2 ^ 16
  pub ttl_fits : rr.ttl < 2 ^ 32
  pub rdata_fits : length rr.rdata ≤ 65535
  pub decoded : decode_rdata rr.rrtype rr.rdata ≡ ok rr.text
  pub valid : Record.validate (record rr { name = canonical_dns_name rr.name }) ≡ ok tt
  pub enough : length (split dot rr.name) + 1 < f

new_cached-received :
    (rr : ResourceRecord) (ttl now : ℕ)
    → Record.validate (record rr { name = canonical_dns_name rr.name }) ≡ ok tt
    → new_cached rr.name rr.rrtype rr.rrclass ttl rr.rdata rr.text now ≡ ok (received rr ttl now)
unfolding new_cached Record.validate received
new_cached-received rr ttl now v = ground arith

-- The name of an answer on the wire.
unfoldable pub sent_name : Bytes → Bytes → Bytes
sent_name first name = if bytes_eq name first then 0xC0 ∷ 12 ∷ [] else name_bytes name

pub answer_name-sent_name :
    (first name : Bytes) → IsName name → answer_name first name ≡ ok (sent_name first name)
unfolding answer_name sent_name
answer_name-sent_name first name h = ground (arith, encode_domain_name-name_bytes name h)

length-put_u32 : (n : ℕ) → length (put_u32 n) ≡ 4
unfolding put_u32
length-put_u32 n = refl

pub length-answer_fields :
    (rr : ResourceRecord) (ttl : ℕ) → length (answer_fields rr ttl) ≡ 10 + length rr.rdata
unfolding answer_fields put_u16 put_u32
length-answer_fields rr ttl = ground arith

answer_fields-append :
    (rr : ResourceRecord) (ttl : ℕ) (r : Bytes)
    → answer_fields rr ttl ++ r
      ≡ put_u16 rr.rrtype
        ++ (put_u16 rr.rrclass ++ (put_u32 ttl ++ (put_u16 (length rr.rdata) ++ (rr.rdata ++ r))))
unfolding answer_fields put_u16 put_u32
answer_fields-append rr ttl r = refl

-- A pointer to the offset 12.
round-pointer :
    (msg p r : Bytes) (o : ℕ)
    → msg ≡ p ++ (0xC0 ∷ 12 ∷ r)
    → o ≡ length p
    → round msg o ≡ jump 12 (o + 2)
unfolding round put_u16
round-pointer msg p r o m e =
    let size : length msg ≡ length p + 2 + length r =
      rw m (omega (arith, length-append p (0xC0 ∷ 12 ∷ r))) in
    rw (head, read_u16-at msg p 0xC00C r o m e (omega arith)) (ground arith)
  where
    head : read_byte msg o ≡ ok 0xC0
    head = rw m (read_byte-append p 0xC0 (12 ∷ r) o e)

-- A pointer to the name of the question, which stands behind the header.
decode_name-pointer :
    (f : ℕ) (msg first h q p r : Bytes) (o : ℕ)
    → IsName first
    → length (split dot first) + 1 < f
    → msg ≡ h ++ (name_bytes first ++ q)
    → length h ≡ 12
    → msg ≡ p ++ (0xC0 ∷ 12 ∷ r)
    → o ≡ length p
    → decode_name f msg o ≡ ok (first, o + 2)
unfolding decode_name decode_labels name_bytes join
decode_name-pointer zero msg first h q p r o named enough mh eh mp eo = absurd (omega arith)
decode_name-pointer (suc f) msg first h q p r o named enough mh eh mp eo =
    rw (round-pointer msg p r o mp eo, decode_labels, target, join-split dot first)
  where
    target :
        decode_labels f msg 12 []
        ≡ ok (split dot first, 12 + length (label_bytes (split dot first)) + 1)
    target =
        rw (mh, append_assoc (label_bytes (split dot first)) (0 ∷ []) q)
          (decode_labels-label_bytes (split dot first) f h q 12 [] (sym eh) named (omega arith))

-- The name of an answer, whether it is a pointer or written out.
decode_name-sent_name :
    (f : ℕ) (msg first name h q p r : Bytes) (o : ℕ)
    → IsName first
    → IsName name
    → length (split dot name) + 1 < f
    → msg ≡ h ++ (name_bytes first ++ q)
    → length h ≡ 12
    → msg ≡ p ++ (sent_name first name ++ r)
    → o ≡ length p
    → decode_name f msg o ≡ ok (name, o + length (sent_name first name))
unfolding sent_name
decode_name-sent_name f msg first name h q p r o hf hn enough mh eh mp eo =
    elim (Bool-cases (bytes_eq name first)) [
      | inl same ↦
          let e = bytes_eq→eq name first same in
          rw same
            (decode_name-pointer f msg name h q p r o hn enough (rw e mh) eh (rw same at mp) eo)
      | inr other ↦
          rw other (rw (rw other at mp) (decode_name-name_bytes name p r o f eo hn (omega arith)))
    ]

module _ (decode_rdata : RrType → Bytes → Result Bytes) (f : ℕ) (msg : Bytes) (now : ℕ) where
  record_fields-answer_fields :
      (rr : ResourceRecord) (ttl : ℕ) (p r : Bytes) (o : ℕ)
      → IsSendable decode_rdata f rr
      → ttl < 2 ^ 32
      → msg ≡ p ++ (answer_fields rr ttl ++ r)
      → o ≡ length p
      → record_fields decode_rdata f msg now rr.name o
        ≡ ok (received rr ttl now, o + 10 + length rr.rdata)
  unfolding record_fields record_data
  record_fields-answer_fields rr ttl p r o s fits m e =
      rw
        (
          read_type,
          read_class,
          read_ttl,
          read_size,
          read_data,
          s.decoded,
          new_cached-received rr ttl now s.valid,
        )
        (ground (arith, longer))
    where
      n : ℕ
      n = length rr.rdata

      p2 : Bytes
      p2 = p ++ put_u16 rr.rrtype

      p3 : Bytes
      p3 = p2 ++ put_u16 rr.rrclass

      p4 : Bytes
      p4 = p3 ++ put_u32 ttl

      p5 : Bytes
      p5 = p4 ++ put_u16 n

      at_type :
          msg
          ≡ p
            ++ (put_u16 rr.rrtype
                ++ (put_u16 rr.rrclass ++ (put_u32 ttl ++ (put_u16 n ++ (rr.rdata ++ r)))))
      at_type = rw (← answer_fields-append rr ttl r) m

      at_class : msg ≡ p2 ++ (put_u16 rr.rrclass ++ (put_u32 ttl ++ (put_u16 n ++ (rr.rdata ++ r))))
      at_class = at_type ∙ sym (append_assoc p (put_u16 rr.rrtype) _)

      at_ttl : msg ≡ p3 ++ (put_u32 ttl ++ (put_u16 n ++ (rr.rdata ++ r)))
      at_ttl = at_class ∙ sym (append_assoc p2 (put_u16 rr.rrclass) _)

      at_size : msg ≡ p4 ++ (put_u16 n ++ (rr.rdata ++ r))
      at_size = at_ttl ∙ sym (append_assoc p3 (put_u32 ttl) _)

      at_data : msg ≡ p5 ++ (rr.rdata ++ r)
      at_data = at_size ∙ sym (append_assoc p4 (put_u16 n) _)

      length-p2 : length p2 ≡ o + 2
      length-p2 = omega (arith, length-append p (put_u16 rr.rrtype), length-put_u16 rr.rrtype)

      length-p3 : length p3 ≡ o + 4
      length-p3 =
          omega (arith, length-append p2 (put_u16 rr.rrclass), length-put_u16 rr.rrclass, length-p2)

      length-p4 : length p4 ≡ o + 8
      length-p4 = omega (arith, length-append p3 (put_u32 ttl), length-put_u32 ttl, length-p3)

      length-p5 : length p5 ≡ o + 10
      length-p5 = omega (arith, length-append p4 (put_u16 n), length-put_u16 n, length-p4)

      read_type : read_u16 msg o ≡ ok rr.rrtype
      read_type = read_u16-at msg p _ _ o at_type e s.rrtype_fits

      read_class : read_u16 msg (o + 2) ≡ ok rr.rrclass
      read_class = read_u16-at msg p2 _ _ (o + 2) at_class (sym length-p2) s.rrclass_fits

      read_ttl : read_u32 msg (o + 4) ≡ ok ttl
      read_ttl = read_u32-at msg p3 _ _ (o + 4) at_ttl (sym length-p3) fits

      read_size : read_u16 msg (o + 8) ≡ ok n
      read_size =
          read_u16-at msg p4 n _ (o + 8) at_size (sym length-p4) (omega (arith, s.rdata_fits))

      read_data : slice msg (o + 10) (o + 10 + n) ≡ ok rr.rdata
      read_data =
          slice-at msg p5 rr.rdata r (o + 10) (o + 10 + n) at_data (sym length-p5)
            (omega (arith, length-p5))

      longer : o + 10 + n ≤ length msg
      longer =
          rw at_data
            (omega (arith, length-append p5 (rr.rdata ++ r), length-append rr.rdata r, length-p5))

  -- A whole answer, behind a message that begins with 12 bytes and the name of the question.
  pub parse_record-answer :
      (rr : ResourceRecord) (ttl : ℕ) (first h q p r : Bytes) (o : ℕ)
      → IsSendable decode_rdata f rr
      → ttl < 2 ^ 32
      → IsName first
      → msg ≡ h ++ (name_bytes first ++ q)
      → length h ≡ 12
      → msg ≡ p ++ ((sent_name first rr.name ++ answer_fields rr ttl) ++ r)
      → o ≡ length p
      → parse_record decode_rdata f msg now o
        ≡ ok (received rr ttl now, o + length (sent_name first rr.name ++ answer_fields rr ttl))
  unfolding parse_record
  parse_record-answer rr ttl first h q p r o s fits hf mh eh mp eo =
      rw (name_read, fields_read) (ground (arith, longer, size))
    where
      name : Bytes
      name = sent_name first rr.name

      at_name : msg ≡ p ++ (name ++ (answer_fields rr ttl ++ r))
      at_name = rw (← append_assoc name (answer_fields rr ttl) r) mp

      name_read : decode_name f msg o ≡ ok (rr.name, o + length name)
      name_read =
          decode_name-sent_name f msg first rr.name h q p _ o hf s.named s.enough mh eh at_name eo

      fields_read :
          record_fields decode_rdata f msg now rr.name (o + length name)
          ≡ ok (received rr ttl now, o + length name + 10 + length rr.rdata)
      fields_read =
          record_fields-answer_fields rr ttl (p ++ name) r (o + length name) s fits
            (at_name ∙ sym (append_assoc p name _)) (omega (arith, length-append p name))

      size : length (name ++ answer_fields rr ttl) ≡ length name + (10 + length rr.rdata)
      size = omega (arith, length-append name (answer_fields rr ttl), length-answer_fields rr ttl)

      longer : o + 10 ≤ length msg
      longer = rw at_name (
          omega (
            arith,
            length-append p (name ++ (answer_fields rr ttl ++ r)),
            length-append name (answer_fields rr ttl ++ r),
            length-append (answer_fields rr ttl) r,
            length-answer_fields rr ttl,
          ))
