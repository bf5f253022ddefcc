-- ===== src/Rdata/Encode/Txt.antt =====
-- The data of a TXT record are read back.
use rr_dns.Prelude.{
  ◌+◌, ◌%◌, ◌<◌, ◌≤◌, ltb, List, [], ◌∷◌, is_empty, length, append-nil, ok, ◌>>=◌, ◌≡◌, ◌≢◌, false,
  Bool-cases, inl, inr, if◌then◌else◌, refl, All, arith,
}
use rr_dns.Prelude.Bytes.{Bytes}
use rr_dns.Text.{join, split, trim_space}
use rr_dns.Wire.Name.RoundTrip.{label_bytes}
use rr_dns.Wire.Response.Skip.{length-label_bytes}
use rr_dns.Rdata.{segments, decode_txt, is_name_type, decode}
use rr_dns.Rdata.RoundTrip.{segments-label_bytes, nil-Stops}
use rr_dns.Rdata.Encode.{txt_segments, encode_txt}

-- The parts without white space around them, less those that are empty.
abbrev pub txt_parts : List Bytes → List Bytes
txt_parts [] = []
txt_parts (part ∷ parts) =
    let rest = txt_parts parts in
    if is_empty (trim_space part) then rest else trim_space part ∷ rest

filled_length : (s : Bytes) → is_empty s ≡ false → 0 < length s
filled_length [] h = absurd (ground arith)
filled_length (c ∷ s) h = omega arith

txt_parts-filled : (parts : List Bytes) → All (λ s. 0 < length s) (txt_parts parts)
txt_parts-filled [] = tt
txt_parts-filled (part ∷ parts) = elim (Bool-cases (is_empty (trim_space part))) [
  | inl e ↦ rw e (txt_parts-filled parts)
  | inr e ↦ rw e (filled_length (trim_space part) e, txt_parts-filled parts)
]

txt_segments-label_bytes :
    (parts : List Bytes)
    → All (λ s. length (trim_space s) ≤ 255) parts
    → txt_segments parts ≡ ok (label_bytes (txt_parts parts))
unfolding txt_segments label_bytes
txt_segments-label_bytes [] h = refl
txt_segments-label_bytes (part ∷ parts) h = elim (Bool-cases (is_empty (trim_space part))) [
  | inl e ↦ rw (short, txt_segments-label_bytes parts h.1) (rw e refl)
  | inr e ↦ rw (short, txt_segments-label_bytes parts h.1, one_byte) (rw e refl)
]
  where
    short : ltb 255 (length (trim_space part)) ≡ false
    short = ground (arith, h.0)

    one_byte : length (trim_space part) % 256 ≡ length (trim_space part)
    one_byte = omega (arith, h.0)

label_bytes-filled : (ss : List Bytes) → ss ≢ [] → is_empty (label_bytes ss) ≡ false
unfolding label_bytes
label_bytes-filled [] h = absurd (h refl)
label_bytes-filled (s ∷ ss) h = refl

-- A TXT text of parts between semicolons, each of at most 255 bytes without the white space around it,
-- and one of them with more than white space, is encoded, and its data decode to the parts that are
-- not empty, without the white space around them, with "; " between each two.
pub decode-encode_txt :
    (text : Bytes)
    → All (λ s. length (trim_space s) ≤ 255) (split b';' text)
    → txt_parts (split b';' text) ≢ []
    → (encode_txt text >>= decode 16) ≡ ok (join (b';' ∷ b' ' ∷ []) (txt_parts (split b';' text)))
unfolding encode_txt decode is_name_type decode_txt
decode-encode_txt text h some_part =
    rw (txt_segments-label_bytes (split b';' text) h)
      (rw (label_bytes-filled (txt_parts (split b';' text)) some_part) (rw read))
  where
    ss : List Bytes
    ss = txt_parts (split b';' text)

    read : segments (length (label_bytes ss) + 1) 16 (label_bytes ss) 0 ≡ ok ss
    read = rw append-nil at (
        segments-label_bytes ss (length (label_bytes ss) + 1) 16 [] [] 0 (nil-Stops 16) refl
          (txt_parts-filled (split b';' text)) (omega (arith, length-label_bytes ss)))
