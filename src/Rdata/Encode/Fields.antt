-- ===== src/Rdata/Encode/Fields.antt =====
-- The data of MX and SRV records are read back: numbers in front of a name.
use rr_dns.Prelude.{
  ℕ, ◌<◌, ◌≤◌, ◌^◌, ltb, [], ◌∷◌, ◌++◌, length, length-append, append_assoc, append-nil, some, ok,
  ◌>>=◌, ◌≡◌, false, refl, sym, ap, ◌∙◌, arith,
}
use rr_dns.Prelude.Bytes.{Bytes}
use rr_dns.Text.Decimal.{decimal}
use rr_dns.Text.Fields.{fields, parse_uint, atoi}
use rr_dns.Names.{canonical_dns_name}
use rr_dns.Wire.Octets.{put_u16, slice}
use rr_dns.Wire.Octets.Laws.{read_u16-at, slice-at, length-put_u16}
use rr_dns.Wire.Name.RoundTrip.{IsName, name_bytes}
use rr_dns.Rdata.{spaced, decode_domain_name, decode_mx, decode_srv, is_name_type, decode}
use rr_dns.Rdata.RoundTrip.{decode_domain_name-name_bytes, encode_domain_name-name_bytes}
use rr_dns.Rdata.Encode.{encode_mx_fields, encode_srv_fields, encode_mx, encode_srv}

pub parse_uint-lt : (bits : ℕ) (s : Bytes) {n : ℕ} → parse_uint bits s ≡ some n → n < 2 ^ bits
unfolding parse_uint
parse_uint-lt bits [] h = absurd (ground arith)
parse_uint-lt bits (c ∷ s) h = ground arith

-- The rest of data behind two bytes and more.
module _ (front back : Bytes) where
  pub slice-back : slice (front ++ back) (length front) (length (front ++ back)) ≡ ok back
  slice-back =
      slice-at (front ++ back) front back [] (length front) (length (front ++ back)) (rw append-nil)
        refl (length-append front back)

decode_domain_name_self :
    (t : ℕ) (name : Bytes) → IsName name → decode_domain_name t (name_bytes name) ≡ ok name
decode_domain_name_self t name h =
    rw (← append-nil (name_bytes name)) (decode_domain_name-name_bytes t name [] h)

decode_mx-bytes :
    (n : ℕ) (name : Bytes)
    → n < 2 ^ 16
    → IsName name
    → decode_mx (put_u16 n ++ name_bytes name) ≡ ok (spaced (decimal n ∷ name ∷ []))
unfolding decode_mx decode_domain_name
decode_mx-bytes n name h named =
    rw (long_enough, read_u16-at msg [] n (name_bytes name) 0 refl refl h, tail)
      (rw (decode_domain_name_self 15 name named))
  where
    msg : Bytes
    msg = put_u16 n ++ name_bytes name

    long_enough : ltb (length msg) 2 ≡ false
    long_enough = ground (arith, length-append (put_u16 n) (name_bytes name), length-put_u16 n)

    tail : slice msg 2 (length msg) ≡ ok (name_bytes name)
    tail = rw length-put_u16 at (slice-back (put_u16 n) (name_bytes name))

-- An MX text of a number up to 65535 and a name whose canonical form has labels of 1 to 63 bytes is
-- encoded, and its data decode to the number in plain decimal and the name in canonical form.
pub decode-encode_mx :
    (text pref exchange : Bytes) (n : ℕ)
    → fields text ≡ pref ∷ exchange ∷ []
    → atoi pref ≡ some n
    → n ≤ 65535
    → IsName (canonical_dns_name exchange)
    → (encode_mx text >>= decode 15) ≡ ok (spaced (decimal n ∷ canonical_dns_name exchange ∷ []))
unfolding encode_mx decode is_name_type
decode-encode_mx text pref exchange n split number small named =
    rw (split, encode_mx_fields)
      (rw (number, within, encode_domain_name-name_bytes exchange named)
        (decode_mx-bytes n (canonical_dns_name exchange) (omega arith) named))
  where
    within : ltb 65535 n ≡ false
    within = ground arith

decode_srv-bytes :
    (p w o : ℕ) (name : Bytes)
    → p < 2 ^ 16
    → w < 2 ^ 16
    → o < 2 ^ 16
    → IsName name
    → decode_srv (put_u16 p ++ (put_u16 w ++ (put_u16 o ++ name_bytes name)))
      ≡ ok (canonical_dns_name (spaced (decimal p ∷ decimal w ∷ decimal o ∷ name ∷ [])))
unfolding decode_srv decode_domain_name
decode_srv-bytes p w o name hp hw ho named =
    rw
      (
        long_enough,
        read_u16-at msg [] p (put_u16 w ++ (put_u16 o ++ name_bytes name)) 0 refl refl hp,
        read_u16-at msg (put_u16 p) w (put_u16 o ++ name_bytes name) 2 refl (sym (length-put_u16 p))
            hw,
        read_u16-at msg (put_u16 p ++ put_u16 w) o (name_bytes name) 4
            (sym (append_assoc (put_u16 p) (put_u16 w) (put_u16 o ++ name_bytes name)))
            (omega (arith, length-append (put_u16 p) (put_u16 w), length-put_u16)) ho,
        tail,
      )
      (rw (decode_domain_name_self 33 name named))
  where
    msg : Bytes
    msg = put_u16 p ++ (put_u16 w ++ (put_u16 o ++ name_bytes name))

    front : Bytes
    front = put_u16 p ++ (put_u16 w ++ put_u16 o)

    six : length front ≡ 6
    six = omega (
      arith,
      length-append (put_u16 p) (put_u16 w ++ put_u16 o),
      length-append (put_u16 w) (put_u16 o),
      length-put_u16,
    )

    whole : front ++ name_bytes name ≡ msg
    whole =
        append_assoc (put_u16 p) (put_u16 w ++ put_u16 o) (name_bytes name)
        ∙ ap (λ s. put_u16 p ++ s) (append_assoc (put_u16 w) (put_u16 o) (name_bytes name))

    long_enough : ltb (length msg) 6 ≡ false
    long_enough = rw (← whole) (ground (arith, length-append front (name_bytes name), six))

    tail : slice msg 6 (length msg) ≡ ok (name_bytes name)
    tail = rw (six, whole) at (slice-back front (name_bytes name))

-- A SRV text of three numbers of 16 bits and a name whose canonical form has labels of 1 to 63 bytes
-- is encoded, and its data decode to the canonical form of the numbers in plain decimal and the name.
pub decode-encode_srv :
    (text priority weight port target : Bytes) (p w o : ℕ)
    → fields text ≡ priority ∷ weight ∷ port ∷ target ∷ []
    → parse_uint 16 priority ≡ some p
    → parse_uint 16 weight ≡ some w
    → parse_uint 16 port ≡ some o
    → IsName (canonical_dns_name target)
    → (encode_srv text >>= decode 33)
      ≡ ok (
          canonical_dns_name
            (spaced (decimal p ∷ decimal w ∷ decimal o ∷ canonical_dns_name target ∷ [])))
unfolding encode_srv decode is_name_type
decode-encode_srv text priority weight port target p w o split hp hw ho named =
    rw (split, encode_srv_fields)
      (rw (hp, hw, ho, encode_domain_name-name_bytes target named)
        (decode_srv-bytes p w o (canonical_dns_name target) (parse_uint-lt 16 priority hp)
          (parse_uint-lt 16 weight hw) (parse_uint-lt 16 port ho) named))
