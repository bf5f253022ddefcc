-- ===== src/Rdata/Encode/Soa.antt =====
-- The data of a SOA record are read back.
use rr_dns.Prelude.{
  ℕ, suc, ◌+◌, ◌<◌, ◌^◌, ltb, ◌==◌, List, [], ◌∷◌, ◌++◌, length, length-append, append_assoc, some,
  ok, ◌>>=◌, ◌≡◌, ◌≢◌, false, refl, sym, ◌∙◌, arith, Bool-cases, inl, inr,
}
use rr_dns.Prelude.Bytes.{Bytes}
use rr_dns.Text.{dot, split, cons_first}
use rr_dns.Text.Split.{split-ne-nil}
use rr_dns.Text.Decimal.{decimal}
use rr_dns.Text.Fields.{fields, parse_uint}
use rr_dns.Names.{canonical_dns_name}
use rr_dns.Wire.Octets.{put_u32, read_u32, slice}
use rr_dns.Wire.Octets.Laws.{read_u32-at}
use rr_dns.Wire.Name.RoundTrip.{IsName, label_bytes, name_bytes}
use rr_dns.Rdata.{spaced, decode_soa_numbers, decode_soa, decode_domain_name, is_name_type, decode}
use rr_dns.Rdata.RoundTrip.{decode_domain_name-name_bytes, encode_domain_name-name_bytes}
use rr_dns.Rdata.Encode.{encode_soa_fields, encode_soa}
use rr_dns.Rdata.Encode.Fields.{parse_uint-lt, slice-back}

label_bytes-cons_first :
    (c : ℕ) (ps : List Bytes)
    → ps ≢ []
    → length (label_bytes (cons_first c ps)) ≡ suc (length (label_bytes ps))
unfolding label_bytes
label_bytes-cons_first c [] h = absurd (h refl)
label_bytes-cons_first c (p ∷ ps) h = refl

length-label_bytes-split : (s : Bytes) → length (label_bytes (split dot s)) ≡ length s + 1
unfolding split label_bytes
length-label_bytes-split [] = refl
length-label_bytes-split (c ∷ s) = elim (Bool-cases (c == dot)) [
  | inl e ↦ rw e (omega (arith, length-label_bytes-split s))
  | inr e ↦ rw e (
      label_bytes-cons_first c (split dot s) (split-ne-nil dot s)
      ∙ omega (arith, length-label_bytes-split s))
]

-- A name takes two bytes more than its text.
length-name_bytes : (name : Bytes) → length (name_bytes name) ≡ length name + 2
unfolding name_bytes
length-name_bytes name =
    omega
      (arith, length-append (label_bytes (split dot name)) (0 ∷ []), length-label_bytes-split name)

IsName-length : (name : Bytes) → IsName name → 0 < length name
unfolding split
IsName-length [] h = absurd (omega arith)
IsName-length (c ∷ s) h = omega arith

numbers_bytes : ℕ → ℕ → ℕ → ℕ → ℕ → Bytes
numbers_bytes n1 n2 n3 n4 n5 =
    put_u32 n1 ++ (put_u32 n2 ++ (put_u32 n3 ++ (put_u32 n4 ++ put_u32 n5)))

length-numbers_bytes : (n1 n2 n3 n4 n5 : ℕ) → length (numbers_bytes n1 n2 n3 n4 n5) ≡ 20
unfolding numbers_bytes put_u32
length-numbers_bytes n1 n2 n3 n4 n5 = refl

read_behind :
    (front mid rest : Bytes) (n i : ℕ)
    → i ≡ length front + length mid
    → n < 2 ^ 32
    → read_u32 (front ++ (mid ++ (put_u32 n ++ rest))) i ≡ ok n
read_behind front mid rest n i e h =
    read_u32-at (front ++ (mid ++ (put_u32 n ++ rest))) (front ++ mid) n rest i
      (sym (append_assoc front mid (put_u32 n ++ rest))) (omega (arith, length-append front mid)) h

-- The numbers behind any front.
decode_soa_numbers-bytes :
    (front m r : Bytes) (n1 n2 n3 n4 n5 offset : ℕ)
    → offset ≡ length front
    → n1 < 2 ^ 32
    → n2 < 2 ^ 32
    → n3 < 2 ^ 32
    → n4 < 2 ^ 32
    → n5 < 2 ^ 32
    → decode_soa_numbers (front ++ numbers_bytes n1 n2 n3 n4 n5) m r offset
      ≡ ok (spaced (m ∷ r ∷ decimal n1 ∷ decimal n2 ∷ decimal n3 ∷ decimal n4 ∷ decimal n5 ∷ []))
unfolding decode_soa_numbers numbers_bytes put_u32
decode_soa_numbers-bytes front m r n1 n2 n3 n4 n5 offset e h1 h2 h3 h4 h5 =
    rw
      (
        tail,
        read_behind front [] (put_u32 n2 ++ (put_u32 n3 ++ (put_u32 n4 ++ put_u32 n5))) n1 offset
            (omega arith) h1,
      )
      (rw (
        read_behind front (put_u32 n1) (put_u32 n3 ++ (put_u32 n4 ++ put_u32 n5)) n2 (offset + 4)
            (omega arith) h2,
        read_behind front (put_u32 n1 ++ put_u32 n2) (put_u32 n4 ++ put_u32 n5) n3 (offset + 8)
            (omega arith) h3,
        read_behind front (put_u32 n1 ++ (put_u32 n2 ++ put_u32 n3)) (put_u32 n5) n4 (offset + 12)
            (omega arith) h4,
        read_behind front (put_u32 n1 ++ (put_u32 n2 ++ (put_u32 n3 ++ put_u32 n4))) [] n5
            (offset + 16) (omega arith) h5,
      ))
  where
    tail :
        slice
          (front ++ numbers_bytes n1 n2 n3 n4 n5)
          offset
          (length (front ++ numbers_bytes n1 n2 n3 n4 n5))
        ≡ ok (numbers_bytes n1 n2 n3 n4 n5)
    tail = rw e (slice-back front (numbers_bytes n1 n2 n3 n4 n5))

decode_soa-bytes :
    (m r : Bytes) (n1 n2 n3 n4 n5 : ℕ)
    → IsName m
    → IsName r
    → n1 < 2 ^ 32
    → n2 < 2 ^ 32
    → n3 < 2 ^ 32
    → n4 < 2 ^ 32
    → n5 < 2 ^ 32
    → decode_soa (name_bytes m ++ (name_bytes r ++ numbers_bytes n1 n2 n3 n4 n5))
      ≡ ok (spaced (m ∷ r ∷ decimal n1 ∷ decimal n2 ∷ decimal n3 ∷ decimal n4 ∷ decimal n5 ∷ []))
unfolding decode_soa decode_domain_name decode_soa_numbers
decode_soa-bytes m r n1 n2 n3 n4 n5 hm hr h1 h2 h3 h4 h5 = rw (long_enough) (
    rw (decode_domain_name-name_bytes 6 m (name_bytes r ++ numbers) hm) (
      rw tail (
        rw (decode_domain_name-name_bytes 6 r numbers hr) (
          rw (← whole) (
            decode_soa_numbers-bytes front m r n1 n2 n3 n4 n5 (length m + 2 + (length r + 2))
              fronted h1 h2 h3 h4 h5)))))
  where
    numbers : Bytes
    numbers = numbers_bytes n1 n2 n3 n4 n5

    front : Bytes
    front = name_bytes m ++ name_bytes r

    whole : front ++ numbers ≡ name_bytes m ++ (name_bytes r ++ numbers)
    whole = append_assoc (name_bytes m) (name_bytes r) numbers

    fronted : length m + 2 + (length r + 2) ≡ length front
    fronted = omega (
      arith,
      length-append (name_bytes m) (name_bytes r),
      length-name_bytes m,
      length-name_bytes r,
    )

    long_enough : ltb (length (name_bytes m ++ (name_bytes r ++ numbers))) 25 ≡ false
    long_enough = rw (← whole) (
        ground (
          arith,
          length-append front numbers,
          fronted,
          length-numbers_bytes n1 n2 n3 n4 n5,
          IsName-length m hm,
          IsName-length r hr,
        ))

    tail :
        slice
          (name_bytes m ++ (name_bytes r ++ numbers))
          (length m + 2)
          (length (name_bytes m ++ (name_bytes r ++ numbers)))
        ≡ ok (name_bytes r ++ numbers)
    tail = rw (← length-name_bytes m) (slice-back (name_bytes m) (name_bytes r ++ numbers))

-- A SOA text of two names whose canonical forms have labels of 1 to 63 bytes and five numbers of 32
-- bits is encoded, and its data decode to the names in canonical form and the numbers in plain
-- decimal.
pub decode-encode_soa :
    (text mname rname t1 t2 t3 t4 t5 : Bytes) (n1 n2 n3 n4 n5 : ℕ)
    → fields text ≡ mname ∷ rname ∷ t1 ∷ t2 ∷ t3 ∷ t4 ∷ t5 ∷ []
    → IsName (canonical_dns_name mname)
    → IsName (canonical_dns_name rname)
    → parse_uint 32 t1 ≡ some n1
    → parse_uint 32 t2 ≡ some n2
    → parse_uint 32 t3 ≡ some n3
    → parse_uint 32 t4 ≡ some n4
    → parse_uint 32 t5 ≡ some n5
    → (encode_soa text >>= decode 6)
      ≡ ok (
          spaced (
            canonical_dns_name mname
            ∷ canonical_dns_name rname
            ∷ decimal n1
            ∷ decimal n2
            ∷ decimal n3
            ∷ decimal n4
            ∷ decimal n5
            ∷ []))
unfolding encode_soa decode is_name_type numbers_bytes
decode-encode_soa text mname rname t1 t2 t3 t4 t5 n1 n2 n3 n4 n5 split hm hr h1 h2 h3 h4 h5 =
    rw (split, encode_soa_fields)
      (rw
        (
          encode_domain_name-name_bytes mname hm,
          encode_domain_name-name_bytes rname hr,
          h1,
          h2,
          h3,
          h4,
          h5,
        )
        (decode_soa-bytes (canonical_dns_name mname) (canonical_dns_name rname) n1 n2 n3 n4 n5 hm hr
          (parse_uint-lt 32 t1 h1) (parse_uint-lt 32 t2 h2) (parse_uint-lt 32 t3 h3)
          (parse_uint-lt 32 t4 h4) (parse_uint-lt 32 t5 h5)))
