-- ===== src/Rdata/Safety.antt =====
-- Which data of a record `Decode` reads without a run-time panic.
use rr_dns.Prelude.{
  ℕ, zero, suc, ◌+◌, ◌-◌, ◌≤◌, ◌<◌, take, drop, [], ◌∷◌, length, Bool, not, Result, Bool-cases, ltb,
  leb, ◌==◌, true, false, inl, inr, ok, err, panic, ◌≡◌, ◌≢◌, refl, arith, if◌then◌else◌,
  append-nil,
}
use rr_dns.Prelude.Bytes.{Bytes}
use rr_dns.Text.{join}
use rr_dns.Domain.Codes.{RrType}
use rr_dns.Wire.Octets.{read_byte, slice}
use rr_dns.Wire.Octets.Laws.{read_byte-lt, read_u16-lt, slice-le, slice-at}
use rr_dns.Wire.Name.Panics.{Safe}
use rr_dns.Rdata.Address.{is_v4_in_v6, decode_a, decode_aaaa}
use rr_dns.Rdata.{
  segments, decode_domain_name, decode_txt, decode_mx, decode_srv, decode_caa, decode_soa,
  is_not_implemented, is_name_type, decode,
}

segments-Safe : (f : ℕ) (t : RrType) (b : Bytes) (i : ℕ) → Safe (segments f t b i)
unfolding segments
segments-Safe zero t b i x = ground arith
segments-Safe (suc f) t b i x = elim (Bool-cases (leb (length b) i)) [
  | inl beyond ↦ ground arith
  | inr within ↦
      let (n, e) = read_byte-lt b i (ground arith) in
      ground (arith, slice-le b (i + 1) (i + 1 + n), segments-Safe f t b (i + 1 + n))
]

decode_domain_name-Safe : (t : RrType) (b : Bytes) → Safe (decode_domain_name t b)
unfolding decode_domain_name
decode_domain_name-Safe t b x = ground (arith, segments-Safe (length b + 1) t b 0)

decode_txt-Safe : (b : Bytes) → Safe (decode_txt b)
unfolding decode_txt
decode_txt-Safe b x = ground (arith, segments-Safe (length b + 1) 16 b 0)

decode_mx-Safe : (b : Bytes) → Safe (decode_mx b)
unfolding decode_mx
decode_mx-Safe b x = elim (Bool-cases (ltb (length b) 2)) [
  | inl short ↦ ground arith
  | inr enough ↦
      let (pref, e) = read_u16-lt b 0 (ground arith) in
      let tail = take (length b - 2) (drop 2 b) in
      let cut = slice-le b 2 (length b) (ground arith) (omega arith) in
      ground (arith, decode_domain_name-Safe 15 tail)
]

decode_srv-Safe : (b : Bytes) → Safe (decode_srv b)
unfolding decode_srv
decode_srv-Safe b x = elim (Bool-cases (ltb (length b) 6)) [
  | inl short ↦ ground arith
  | inr enough ↦
      let (priority, e0) = read_u16-lt b 0 (ground arith) in
      let (weight, e2) = read_u16-lt b 2 (ground arith) in
      let (port, e4) = read_u16-lt b 4 (ground arith) in
      let tail = take (length b - 6) (drop 6 b) in
      let cut = slice-le b 6 (length b) (ground arith) (omega arith) in
      ground (arith, decode_domain_name-Safe 33 tail)
]

if-Safe {ℓ} :
    {A : Type ℓ} (c : Bool) {m n : Result A}
    → (c ≡ true → Safe m)
    → (c ≡ false → Safe n)
    → Safe (if c then m else n)
if-Safe true hm hn = hm refl
if-Safe false hm hn = hn refl

decode_a-Safe : (b : Bytes) → Safe (decode_a b)
unfolding decode_a
decode_a-Safe b x = ground arith

decode_aaaa-Safe : (b : Bytes) → Safe (decode_aaaa b)
unfolding decode_aaaa
decode_aaaa-Safe b =
    if-Safe (not (length b == 16)) (λ _ x. cc)
      (λ _. if-Safe (is_v4_in_v6 b) (λ _ x. cc) (λ _ x. cc))

-- Data of any type but SOA and CAA are decoded without an index or a slice out of range, whatever
-- their bytes.
pub decode-Safe : (t : RrType) (b : Bytes) → t ≢ 6 → t ≢ 257 → Safe (decode t b)
unfolding decode
decode-Safe t b soa caa =
    if-Safe (t == 1) (λ _. decode_a-Safe b)
      (λ _.
        if-Safe (is_name_type t) (λ _. decode_domain_name-Safe t b)
          (λ _.
            if-Safe (t == 6) (λ e. absurd (soa (ground arith)))
              (λ _.
                if-Safe (t == 15) (λ _. decode_mx-Safe b)
                  (λ _.
                    if-Safe (t == 16) (λ _. decode_txt-Safe b)
                      (λ _.
                        if-Safe (t == 28) (λ _. decode_aaaa-Safe b)
                          (λ _.
                            if-Safe (t == 33) (λ _. decode_srv-Safe b)
                              (λ _.
                                if-Safe (is_not_implemented t) (λ _ x. cc)
                                  (λ _.
                                    if-Safe (t == 257) (λ e. absurd (caa (ground arith)))
                                      (λ _ x. cc)))))))))

-- A CAA record with a tag length of 254 or 255 makes the decoder slice out of range: the end of the
-- tag, a sum on bytes, wraps around to 0 or 1.
pub decode-caa_panic :
    (flag : ℕ) (tag_len : ℕ) (rest : Bytes)
    → 254 ≤ tag_len
    → tag_len < 256
    → decode 257 (flag ∷ tag_len ∷ rest) ≡ err panic
unfolding decode decode_caa is_name_type is_not_implemented read_byte slice
decode-caa_panic flag tag_len rest h k = ground arith

-- One label with no zero byte behind it is read as a name.
decode_domain_name-single :
    (t : RrType) (s : Bytes) → 0 < length s → decode_domain_name t (length s ∷ s) ≡ ok s
unfolding decode_domain_name segments read_byte join
decode_domain_name-single t s h = ground (arith, cut)
  where
    cut : slice (length s ∷ s) 1 (1 + length s) ≡ ok s
    cut =
        slice-at (length s ∷ s) (length s ∷ []) s [] 1 (1 + length s) (rw (append-nil s)) refl refl

-- Data of a SOA record that are one label of 24 to 255 bytes, with no zero byte behind it, make the
-- decoder slice out of range: the second name is looked for behind the end of the data.
pub decode-soa_panic :
    (s : Bytes) → 24 ≤ length s → length s < 256 → decode 6 (length s ∷ s) ≡ err panic
unfolding decode decode_soa is_name_type slice
decode-soa_panic s h k = rw (decode_domain_name-single 6 s (omega arith)) (ground arith)
